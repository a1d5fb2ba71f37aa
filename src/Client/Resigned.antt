-- ===== src/Client/Resigned.antt =====
-- One entry that `restore_batch_mint_builder` of src/batch_mint_client.rs gives back: its asset, and its
-- signatures.
use bubblegum_batch_sdk.Base.{
  ℕ, ◌≡◌, refl, sym, ap, ◌∙◌, none, some, List, [], ◌∷◌, ◌++◌, length, ok, >>=-eq-ok, ok_injective,
  All, All-map₂, snoc_injective, Option-cases, Bool-cases, inl, inr, some_injective,
}
use bubblegum_batch_sdk.Base.Bytes.{Bytes}
use bubblegum_batch_sdk.Base.Maps.{
  HashMap, get, lookup, put, CountsFrom, lookup_last, put_last, map_values, map_values-append,
}
use native.Mathlib.Nat.{zero-add}
use bubblegum_batch_sdk.Deps.{Deps}
use bubblegum_batch_sdk.Deps.Data.{Creator}
use bubblegum_batch_sdk.Model.{BatchMintInstruction}
use bubblegum_batch_sdk.Builder.Hashing.{MetadataArgsHash, hashes_of}
use bubblegum_batch_sdk.Builder.State.{BatchMintBuilder}
use bubblegum_batch_sdk.Builder.Assets.{add_asset}
use bubblegum_batch_sdk.Builder.Signatures.{
  is_creator, signatures_or_default, or_return, sign_asset, add_signatures_for_verified_creators,
}
use bubblegum_batch_sdk.Validations.Spec.{message_of}
use bubblegum_batch_sdk.Validations.Assets.{metadata_args_hash_new_lem}
use bubblegum_batch_sdk.Flow.Invariant.{IsMinted}
use bubblegum_batch_sdk.Flow.Erased.{
  erase, add_asset-erase, add_asset-Entered, Chain, erase-sign_asset,
}
use bubblegum_batch_sdk.Flow.Signed.{Accepts, latest, IsSignable, sign_asset_total, sign_asset_iff}
use bubblegum_batch_sdk.Flow.Signers.{OnlyCreators, OnlyCreators-no_extra, HasSigners}
use bubblegum_batch_sdk.Client.Restore.{add_signatures_or_fail, restore_entry}
use bubblegum_batch_sdk.Validations.Same.{unsigned, SameSignatures}

module _ (x : Deps) where
  -- Where nobody had signed, the creators have the signatures that were received.
  latest_first :
      (cs : List Creator) (received : HashMap x.Signature) (k : Bytes)
      → OnlyCreators cs received
      → latest cs received [] k ≡ get k received
  unfolding latest get
  latest_first cs received k only = elim (Option-cases (get k received)) [
    | inl absent ↦ elim (Bool-cases (is_creator cs k)) [
      | inl creator ↦ rw (creator, absent)
      | inr other ↦ rw (other, absent)
    ]
    | inr (s, present) ↦ rw (only k s present, present)
  ]

  -- The signatures of an entry of a builder can be given to the same asset again.
  accepted_again :
      (tree : Bytes) (m : BatchMintInstruction x)
      → HasSigners x m
      → (minted : IsMinted x tree m)
      → All
          (Accepts x (message_of x tree m minted.args) (signatures_or_default m.creator_signature))
          m.mint_args.creators
  accepted_again tree m signers minted =
      All-map₂ _ _ _ (λ c verified u s e. (verified s e, minted.signed c.address s e))
        m.mint_args.creators signers.verified signers.verified

  pub add_again :
      (c : BatchMintBuilder x) (m : BatchMintInstruction x) (after : BatchMintBuilder x)
      → CountsFrom 0 c.mints
      → Chain x (erase x c) (unsigned x m ∷ []) after
      → (h : MetadataArgsHash) × (c₁ : BatchMintBuilder x) × (add_asset x c m.leaf_update.owner
            m.leaf_update.delegate m.mint_args
          ≡ ok (h, c₁))
        × (erase x c₁ ≡ after)
        × (h.nonce ≡ length c.mints)
        × (c₁.mints ≡ c.mints ++ (length c.mints, unsigned x m) ∷ [])
  add_again c m after counted (h, next, e, nonce, mints, last) =
      let owner = m.leaf_update.owner in
      let delegate = m.leaf_update.delegate in
      let (r, e₁, same) =
        >>=-eq-ok (add_asset x c owner delegate m.mint_args) _
          (sym (add_asset-erase x c owner delegate m.mint_args) ∙ e) in
      let n = add_asset-Entered x c owner delegate m.mint_args counted e₁ in
      let erased : erase x r.1 ≡ next =
        ap (λ (p : MetadataArgsHash × BatchMintBuilder x). p.1) (ok_injective same) in
      let ends : map_values (unsigned x) c.mints ++ (length c.mints, unsigned x n.entry) ∷ []
          ≡ map_values (unsigned x) c.mints ++ (length (erase x c).mints, unsigned x m) ∷ [] =
        sym (ap (map_values (unsigned x)) n.mints_eq ∙ map_values-append (unsigned x) c.mints _)
        ∙ ap (λ b. b.mints) erased
        ∙ mints in
      let entry_eq : n.entry ≡ unsigned x m =
        ap (λ s. record n.entry { creator_signature = s }) n.unsigned_eq
        ∙ ap (λ (p : ℕ × BatchMintInstruction x). p.1)
            (snoc_injective (map_values (unsigned x) c.mints) _ _ ends) in
      (
        r.0,
        r.1,
        e₁,
        erased ∙ last,
        n.nonce_eq,
        n.mints_eq ∙ ap (λ u. c.mints ++ (length c.mints, u) ∷ []) entry_eq,
      )

  again-IsSignable :
      (c₁ : BatchMintBuilder x) (m : BatchMintInstruction x) (received : HashMap x.Signature)
      (k : ℕ)
      → lookup k c₁.mints ≡ some (unsigned x m)
      → m.creator_signature ≡ some received
      → HasSigners x m
      → IsMinted x c₁.tree_account m
      → IsSignable x c₁ k received
  unfolding message_of signatures_or_default
  again-IsSignable c₁ m received k found some_signed signers minted = record {
    entry = unsigned x m;
    found = found;
    no_extra = OnlyCreators-no_extra m.mint_args.creators received (rw some_signed at signers.only);
    hash =
        hashes_of x m.leaf_update.nonce c₁.tree_account m.leaf_update.owner m.leaf_update.delegate
          m.mint_args minted.args;
    hashed =
        metadata_args_hash_new_lem x c₁.tree_account (unsigned x m) minted.args
          minted.hashed.serialized;
    accepted = rw some_signed at (accepted_again c₁.tree_account m signers minted);
  }

  sign_again :
      (c c₁ : BatchMintBuilder x) (m : BatchMintInstruction x) (received : HashMap x.Signature)
      → CountsFrom 0 c.mints
      → c₁.mints ≡ c.mints ++ (length c.mints, unsigned x m) ∷ []
      → m.creator_signature ≡ some received
      → HasSigners x m
      → IsMinted x c₁.tree_account m
      → (c₂ : BatchMintBuilder x) × (n : BatchMintInstruction x) × (sign_asset x c₁
            (length c.mints)
            received
          ≡ ok c₂)
        × (c₂.tree_account ≡ c₁.tree_account)
        × (c₂.mints ≡ c.mints ++ (length c.mints, n) ∷ [])
        × SameSignatures x m n
  unfolding signatures_or_default
  sign_again c c₁ m received counted mints some_signed signers minted =
      let k : ℕ = length c.mints in
      let found : lookup k c₁.mints ≡ some (unsigned x m) =
        ap (lookup k) mints ∙ (rw zero-add at (lookup_last 0 (unsigned x m) c.mints counted)) in
      let (c₂, e) =
        sign_asset_total x c₁ k received
          (again-IsSignable c₁ m received k found some_signed signers minted) in
      let (m', signatures, found', state, now) = (sign_asset_iff x c₁ k received).1 c₂ e in
      let m_eq : m' ≡ unsigned x m = some_injective (sym found' ∙ found) in
      let n : BatchMintInstruction x = record m' { creator_signature = some signatures } in
      (
        c₂,
        n,
        e,
        ap (λ b. b.tree_account) state,
        ap (λ b. b.mints) state
            ∙ ap (put k n) mints
            ∙ (rw zero-add at (put_last 0 (unsigned x m) n c.mints counted)),
        λ key.
            now key
            ∙ ap
                (λ u.
                  latest u.mint_args.creators received (signatures_or_default u.creator_signature)
                    key)
                m_eq
            ∙ latest_first m.mint_args.creators received key (rw some_signed at signers.only)
            ∙ ap (λ o. get key (signatures_or_default o)) (sym some_signed),
      )

  -- A builder after the signatures of the entry `m` were given to its last asset again.
  pub record Resigned (c c₁ : BatchMintBuilder x) (m : BatchMintInstruction x)
      (received : HashMap x.Signature) : Type 0 where
    pub builder : BatchMintBuilder x
    pub entry : BatchMintInstruction x
    pub resigned : add_signatures_or_fail x c₁ ((length c.mints, received) ∷ []) ≡ ok builder
    pub state :
        (add_signatures_for_verified_creators x c₁ ((length c.mints, received) ∷ [])).1 ≡ builder
    pub erased : erase x builder ≡ erase x c₁
    pub tree_account : builder.tree_account ≡ c₁.tree_account
    pub mints : builder.mints ≡ c.mints ++ (length c.mints, entry) ∷ []
    pub same : SameSignatures x m entry

  pub resign :
      (c c₁ : BatchMintBuilder x) (m : BatchMintInstruction x) (received : HashMap x.Signature)
      → CountsFrom 0 c.mints
      → c₁.mints ≡ c.mints ++ (length c.mints, unsigned x m) ∷ []
      → m.creator_signature ≡ some received
      → HasSigners x m
      → IsMinted x c₁.tree_account m
      → Resigned c c₁ m received
  unfolding add_signatures_or_fail add_signatures_for_verified_creators or_return
      signatures_or_default
  resign c c₁ m [] counted mints some_signed signers minted = record {
    builder = c₁;
    entry = unsigned x m;
    resigned = refl;
    state = refl;
    erased = refl;
    tree_account = refl;
    mints = mints;
    same = λ k. ap (λ o. get k (signatures_or_default o)) (sym some_signed);
  }
  resign c c₁ m (s ∷ received) counted mints some_signed signers minted =
      let (c₂, n, e, tree, mints₂, same) =
        sign_again c c₁ m (s ∷ received) counted mints some_signed signers minted in
      record {
        builder = c₂;
        entry = n;
        resigned = rw e refl;
        state = rw e refl;
        erased = erase-sign_asset x c₁ (length c.mints) (s ∷ received) e;
        tree_account = tree;
        mints = mints₂;
        same = same;
      }

  pub restore_unsigned :
      (c c₁ : BatchMintBuilder x) (m : BatchMintInstruction x) (h : MetadataArgsHash)
      → add_asset x c m.leaf_update.owner m.leaf_update.delegate m.mint_args ≡ ok (h, c₁)
      → m.creator_signature ≡ none
      → restore_entry x c m ≡ ok c₁
  unfolding restore_entry
  restore_unsigned c c₁ m h e unsigned = rw (e, unsigned) refl

  pub restore_signed :
      (c c₁ c₂ : BatchMintBuilder x) (m : BatchMintInstruction x) (h : MetadataArgsHash)
      (received : HashMap x.Signature)
      → add_asset x c m.leaf_update.owner m.leaf_update.delegate m.mint_args ≡ ok (h, c₁)
      → m.creator_signature ≡ some received
      → add_signatures_or_fail x c₁ ((h.nonce, received) ∷ []) ≡ ok c₂
      → restore_entry x c m ≡ ok c₂
  unfolding restore_entry
  restore_signed c c₁ c₂ m h received e some_signed again = rw (e, some_signed) again
