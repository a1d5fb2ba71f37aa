-- ===== src/Client/RoundTrip.antt =====
-- `restore_batch_mint_builder` of src/batch_mint_client.rs on a batch mint that a builder built.
use bubblegum_batch_sdk.Validations.Same.{unsigned, SameSignatures}
use bubblegum_batch_sdk.Base.{
  ℕ, ◌≡◌, refl, sym, ap, ◌∙◌, subst, List, [], ◌∷◌, ◌++◌, map, length, Outcome, ok, >>=-eq-ok,
  ok_injective, All, AllPairs, Option-cases, inl, inr, unwrap,
}
use bubblegum_batch_sdk.Base.Bytes.{Bytes}
use bubblegum_batch_sdk.Base.Maps.{get, values, values-append, values-map_values}
use mathlib.Core.List.{append-nil, append_assoc}
use bubblegum_batch_sdk.Deps.{Deps}
use bubblegum_batch_sdk.Deps.Laws.{HashLaws}
use bubblegum_batch_sdk.Errors.{BatchMintError}
use bubblegum_batch_sdk.Model.{BatchMint, BatchMintInstruction}
use bubblegum_batch_sdk.Builder.State.{BatchMintBuilder, new}
use bubblegum_batch_sdk.Builder.Signatures.{signatures_or_default}
use bubblegum_batch_sdk.Builder.Building.{build_batch_mint}
use bubblegum_batch_sdk.Flow.Invariant.{IsMinted}
use bubblegum_batch_sdk.Flow.Reach.{Reach, created, added, signed, Reach-IsConsistent}
use bubblegum_batch_sdk.Flow.Growing.{add_asset-Extended}
use bubblegum_batch_sdk.Flow.Erased.{erase, Chain, Reach-IsReplay}
use bubblegum_batch_sdk.Flow.Signers.{HasSigners, Reach-HasSigners}
use bubblegum_batch_sdk.Client.Tree.{read_prepared_tree_size}
use bubblegum_batch_sdk.Client.Restore.{
  add_signatures_or_fail, restore_entry, restore_entries, restore_batch_mint_builder,
}
use bubblegum_batch_sdk.MerkleTree.{make_concurrent_merkle_tree}
use bubblegum_batch_sdk.Builder.Built.{build_batch_mint_sound}
use mathlib.Core.Path.{subst₂}
use bubblegum_batch_sdk.Client.Resigned.{add_again, resign, restore_unsigned, restore_signed}

module _ (x : Deps) where
  -- A builder after the entry `m` was restored.
  record Restored (c : BatchMintBuilder x) (m : BatchMintInstruction x) (after : BatchMintBuilder x)
      (c' : BatchMintBuilder x) : Type 0 where
    restored : restore_entry x c m ≡ ok c'
    erased : erase x c' ≡ after
    reach : Reach x c'
    tree_account : c'.tree_account ≡ c.tree_account
    entry : BatchMintInstruction x
    mints : c'.mints ≡ c.mints ++ (length c.mints, entry) ∷ []
    same : SameSignatures x m entry

module _ (x : Deps) (laws : HashLaws x) where
  restore_entry_again :
      (c : BatchMintBuilder x) (m : BatchMintInstruction x) (after : BatchMintBuilder x)
      → Reach x c
      → HasSigners x m
      → IsMinted x c.tree_account m
      → Chain x (erase x c) (unsigned x m ∷ []) after
      → (c' : BatchMintBuilder x) × Restored x c m after c'
  unfolding signatures_or_default
  restore_entry_again c m after r signers minted chain =
      let v = Reach-IsConsistent x laws r in
      let (h, c₁, e, erased, nonce, mints) = add_again x c m after v.counted chain in
      let one = add_asset-Extended x laws c _ _ _ v e in
      let r₁ = added _ _ _ h r e in
      elim (Option-cases m.creator_signature) [
        | inl none_signed ↦ (
          c₁,
          record {
            restored = restore_unsigned x c c₁ m h e none_signed;
            erased = erased;
            reach = r₁;
            tree_account = one.tree_account;
            entry = unsigned x m;
            mints = mints;
            same = λ k. ap (λ o. get k (signatures_or_default o)) (sym none_signed);
          },
        )
        | inr (received, some_signed) ↦
            let s =
              resign x c c₁ m received v.counted mints some_signed signers
                (subst (λ t. IsMinted x t m) (sym one.tree_account) minted) in
            (
              s.builder,
              record {
                restored = restore_signed x c c₁ s.builder m h received e some_signed (
                    subst (λ k. add_signatures_or_fail x c₁ ((k, received) ∷ []) ≡ ok s.builder)
                      (sym nonce) s.resigned);
                erased = s.erased ∙ erased;
                reach = signed ((length c.mints, received) ∷ []) r₁ s.state;
                tree_account = s.tree_account ∙ one.tree_account;
                entry = s.entry;
                mints = s.mints;
                same = s.same;
              },
            )
      ]

  -- A builder after all entries were restored.
  record AllRestored (c : BatchMintBuilder x) (ms : List (BatchMintInstruction x))
      (after : BatchMintBuilder x) : Type 0 where
    builder : BatchMintBuilder x
    restored : restore_entries x c ms ≡ ok builder
    erased : erase x builder ≡ after
    reach : Reach x builder
    entries : List (BatchMintInstruction x)
    mints : values builder.mints ≡ values c.mints ++ entries
    same : AllPairs (SameSignatures x) ms entries

  restore_entries_again :
      (c : BatchMintBuilder x) (ms : List (BatchMintInstruction x)) (after : BatchMintBuilder x)
      → Reach x c
      → All (HasSigners x) ms
      → All (IsMinted x c.tree_account) ms
      → Chain x (erase x c) (map (unsigned x) ms) after
      → AllRestored c ms after
  unfolding restore_entries values
  restore_entries_again c [] after r signers minted chain = record {
    builder = c;
    restored = refl;
    erased = chain;
    reach = r;
    entries = [];
    mints = sym (append-nil (values c.mints));
    same = tt;
  }
  restore_entries_again c (m ∷ ms) after r (signer, signers) (one, others)
        (h, next, e, nonce, mints, chain) =
      let (c', s) = restore_entry_again c m next r signer one (h, next, e, nonce, mints, refl) in
      let rest =
        restore_entries_again c' ms after s.reach signers
          (subst (λ t. All (IsMinted x t) ms) (sym s.tree_account) others)
          (subst (λ b. Chain x b (map (unsigned x) ms) after) (sym s.erased) chain) in
      record {
        builder = rest.builder;
        restored = rw s.restored rest.restored;
        erased = rest.erased;
        reach = rest.reach;
        entries = s.entry ∷ rest.entries;
        mints =
            rest.mints
            ∙ ap (λ l. l ++ rest.entries) (ap values s.mints ∙ values-append c.mints _)
            ∙ append_assoc (values c.mints) (s.entry ∷ []) rest.entries;
        same = (s.same, rest.same);
      }

  new_sound :
      (tree : Bytes) (d s c : ℕ) {b : BatchMintBuilder x}
      → new x tree d s c ≡ ok b
      → (erase x b ≡ b) × (b.tree_account ≡ tree) × (b.mints ≡ [])
  unfolding new
  new_sound tree d s c e =
      let (t, made, e₁) = >>=-eq-ok (make_concurrent_merkle_tree x d s) _ e in
      let (init, initialized, e₂) =
        >>=-eq-ok (unwrap {F = BatchMintError x} (x.merkle.initialize t)) _ e₁ in
      subst (λ b. (erase x b ≡ b) × (b.tree_account ≡ tree) × (b.mints ≡ [])) (ok_injective e₂)
        (refl, refl, refl)

  restored_entries :
      (b : BatchMintBuilder x) (start : BatchMintBuilder x)
      → Reach x b
      → new x b.tree_account b.max_depth b.max_buffer_size b.canopy_depth ≡ ok start
      → Chain x start (values (erase x b).mints) (erase x b)
      → (b' : BatchMintBuilder x) × (restore_entries x start (values b.mints) ≡ ok b')
        × (erase x b' ≡ erase x b)
        × AllPairs (SameSignatures x) (values b.mints) (values b'.mints)
  unfolding values
  restored_entries b start r made chain =
      let (erased, tree, none_yet) =
        new_sound b.tree_account b.max_depth b.max_buffer_size b.canopy_depth made in
      let all =
        restore_entries_again start (values b.mints) (erase x b)
          (created b.tree_account b.max_depth b.max_buffer_size b.canopy_depth made)
          (Reach-HasSigners x laws r)
          (subst (λ t. All (IsMinted x t) (values b.mints)) (sym tree)
            (Reach-IsConsistent x laws r).minted)
          (subst₂ (λ c ms. Chain x c ms (erase x b)) (sym erased)
            (values-map_values (unsigned x) b.mints) chain) in
      (
        all.builder,
        all.restored,
        all.erased,
        subst (AllPairs (SameSignatures x) (values b.mints))
            (sym (all.mints ∙ ap (λ ms. values ms ++ all.entries) none_yet)) all.same,
      )

  -- If leaves are hashed as documented: from a batch mint that a builder built, and a tree
  -- account of the builder's sizes, a builder is restored. It is the same as the one that built
  -- the batch mint in everything but the collection and the signatures, and each asset has the
  -- same signature, or none, of each key.
  pub restore_batch_mint_builder-build :
      (account : Outcome x.ClientError Bytes) (b : BatchMintBuilder x) (bm : BatchMint x)
      → Reach x b
      → build_batch_mint x b ≡ ok bm
      → read_prepared_tree_size x account
        ≡ ok (record {
          max_depth = b.max_depth;
          max_buffer_size = b.max_buffer_size;
          canopy_depth = b.canopy_depth;
        })
      → (b' : BatchMintBuilder x) × (restore_batch_mint_builder x account bm ≡ ok b')
        × (erase x b' ≡ erase x b)
        × AllPairs (SameSignatures x) (values b.mints) (values b'.mints)
  unfolding restore_batch_mint_builder
  restore_batch_mint_builder-build account b bm r built sized =
      let (start, made, chain) = Reach-IsReplay x laws r in
      let (b', restored, erased, same) = restored_entries b start r made chain in
      let (tree, mints) = build_batch_mint_sound x b built in
      (b', rw (sized, tree, mints, made) restored, erased, same)
