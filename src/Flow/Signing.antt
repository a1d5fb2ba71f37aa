-- ===== src/Flow/Signing.antt =====
-- `add_signatures_for_verified_creators` of src/batch_mint_builder.rs against the well-formedness of
-- a builder.
use bubblegum_batch_sdk.Base.{
  ℕ, ◌≡◌, refl, sym, ap, ◌∙◌, subst, true, some, List, [], ◌∷◌, Outcome, ok, err, panic, inl, inr,
  Bool-cases, Option-cases, some_injective, guard, >>=-eq-ok, ok_injective, guard-eq-ok,
}
use bubblegum_batch_sdk.Base.Bytes.{Bytes, bytes_eq, bytes_eq→eq}
use bubblegum_batch_sdk.Base.Maps.{HashMap, get, add, get-add, lookup, put, CountsFrom-put}
use bubblegum_batch_sdk.Deps.{Deps}
use bubblegum_batch_sdk.Deps.Data.{Creator}
use bubblegum_batch_sdk.Errors.{BatchMintError}
use bubblegum_batch_sdk.Model.{BatchMintInstruction}
use bubblegum_batch_sdk.Builder.Hashing.{MetadataArgsHash, metadata_args_hash_new, get_message}
use bubblegum_batch_sdk.Builder.State.{BatchMintBuilder}
use bubblegum_batch_sdk.Builder.Signatures.{
  check_extra_creators, verify_signature, sign_creator, sign_creators, sign_asset,
  signatures_or_default, or_return, add_signatures_for_verified_creators,
}
use bubblegum_batch_sdk.Validations.Spec.{message_of}
use bubblegum_batch_sdk.Validations.Assets.{metadata_args_hash_new_lem}
use bubblegum_batch_sdk.Flow.Runs.{Run-put, All-put, All-lookup}
use bubblegum_batch_sdk.Flow.Invariant.{AllVerify, IsMinted, IsRecorded, IsConsistent}

module _ (x : Deps) where
  AllVerify-add :
      (msg key : Bytes) (s : x.Signature) (signatures : HashMap x.Signature)
      → x.verify s key msg ≡ true
      → AllVerify x msg signatures
      → AllVerify x msg (add key s signatures)
  AllVerify-add msg key s signatures valid all k s' found =
      let found' = rw (get-add k key s signatures) at found in
      elim (Bool-cases (bytes_eq k key)) [
        | inl same ↦
            let s_eq : s ≡ s' = some_injective (rw same at found') in
            subst (λ (p : x.Signature). x.verify p k msg ≡ true) s_eq
              (rw (bytes_eq→eq k key same) valid)
        | inr other ↦ all k s' (rw other at found')
      ]

  sign_creator-AllVerify :
      (msg : Bytes) (received : HashMap x.Signature) (c : Creator)
      (signatures : HashMap x.Signature) {signatures' : HashMap x.Signature}
      → AllVerify x msg signatures
      → sign_creator x msg received c signatures ≡ ok signatures'
      → AllVerify x msg signatures'
  unfolding sign_creator
  sign_creator-AllVerify msg received c signatures all h =
      elim (Option-cases (get c.address received)) [
        | inl absent ↦ subst (AllVerify x msg) (ok_injective (rw (absent, sign_creator) at h)) all
        | inr (s, present) ↦
            let (u, verified, h₁) =
              >>=-eq-ok (guard c.verified _) _ (rw (present, sign_creator) at h) in
            let (v, valid, h₂) = >>=-eq-ok (guard (verify_signature x c.address msg s) _) _ h₁ in
            subst (AllVerify x msg) (ok_injective h₂)
              (AllVerify-add msg c.address s signatures (guard-eq-ok _ _ valid) all)
      ]

  sign_creators-AllVerify :
      (msg : Bytes) (received : HashMap x.Signature) (cs : List Creator)
      (signatures : HashMap x.Signature) {signatures' : HashMap x.Signature}
      → AllVerify x msg signatures
      → sign_creators x msg received cs signatures ≡ ok signatures'
      → AllVerify x msg signatures'
  unfolding sign_creators
  sign_creators-AllVerify msg received [] signatures all h =
      subst (AllVerify x msg) (ok_injective h) all
  sign_creators-AllVerify msg received (c ∷ cs) signatures all h =
      let (next, first, rest) = >>=-eq-ok (sign_creator x msg received c signatures) _ h in
      sign_creators-AllVerify msg received cs next
        (sign_creator-AllVerify msg received c signatures all first) rest

  -- What a successful `sign_asset` has done.
  pub record Signed (b : BatchMintBuilder x) (k : ℕ) (received : HashMap x.Signature)
      (b' : BatchMintBuilder x) : Type 0 where
    pub entry : BatchMintInstruction x
    pub found : lookup k b.mints ≡ some entry
    pub hash : MetadataArgsHash
    pub hashed :
        metadata_args_hash_new x {E = BatchMintError x} entry.leaf_update b.tree_account
          entry.mint_args
        ≡ ok hash
    pub signatures : HashMap x.Signature
    pub signed :
        sign_creators x
          (get_message hash)
          received
          entry.mint_args.creators
          (signatures_or_default entry.creator_signature)
        ≡ ok signatures
    pub state_eq :
        record b { mints = put k (record entry { creator_signature = some signatures }) b.mints }
        ≡ b'

  pub sign_asset_sound :
      (b : BatchMintBuilder x) (k : ℕ) (received : HashMap x.Signature) {b' : BatchMintBuilder x}
      → sign_asset x b k received ≡ ok b'
      → Signed b k received b'
  unfolding sign_asset
  sign_asset_sound b k received h = elim (Option-cases (lookup k b.mints)) [
    | inl missing ↦ cc (rw missing at h)
    | inr (m, found) ↦
        let (u, extra, h₁) =
          >>=-eq-ok (check_extra_creators x m.mint_args.creators received) _ (rw found at h) in
        let (hash, hashed, h₂) =
          >>=-eq-ok
            (metadata_args_hash_new x {E = BatchMintError x} m.leaf_update b.tree_account
              m.mint_args)
            _ h₁ in
        let (signatures, signed, h₃) =
          >>=-eq-ok
            (sign_creators x (get_message hash) received m.mint_args.creators
              (signatures_or_default m.creator_signature))
            _ h₂ in
        record {
          entry = m;
          found = found;
          hash = hash;
          hashed = hashed;
          signatures = signatures;
          signed = signed;
          state_eq = ok_injective h₃;
        }
  ]

  -- The message that `sign_asset` verifies is that of the entry.
  message-hash :
      (tree_id args : Bytes) (m : BatchMintInstruction x) (hash : MetadataArgsHash)
      → x.try_to_vec m.mint_args ≡ ok args
      → metadata_args_hash_new x {E = BatchMintError x} m.leaf_update tree_id m.mint_args ≡ ok hash
      → message_of x tree_id m args ≡ get_message hash
  unfolding message_of
  message-hash tree_id args m hash serialized hashed = ap get_message (
      ok_injective (
        sym (metadata_args_hash_new_lem x {E = BatchMintError x} tree_id m args serialized)
        ∙ hashed))

  signed-IsMinted :
      (b : BatchMintBuilder x) (m : BatchMintInstruction x)
      (received signatures : HashMap x.Signature) (hash : MetadataArgsHash)
      → IsMinted x b.tree_account m
      → metadata_args_hash_new x {E = BatchMintError x} m.leaf_update b.tree_account m.mint_args
        ≡ ok hash
      → sign_creators x
          (get_message hash)
          received
          m.mint_args.creators
          (signatures_or_default m.creator_signature)
        ≡ ok signatures
      → IsMinted x b.tree_account (record m { creator_signature = some signatures })
  signed-IsMinted b m received signatures hash minted hashed signed =
      let msg_eq = message-hash b.tree_account minted.args m hash minted.hashed.serialized hashed in
      record {
        args = minted.args;
        hashed = record {
          serialized = minted.hashed.serialized;
          id_eq = minted.hashed.id_eq;
          data_hash_eq = minted.hashed.data_hash_eq;
          creator_hash_eq = minted.hashed.creator_hash_eq;
        };
        signed =
            unfold message_of signatures_or_default in
            subst (λ msg. AllVerify x msg signatures) (sym msg_eq)
              (sign_creators-AllVerify (get_message hash) received m.mint_args.creators _
                (subst (λ msg. AllVerify x msg (signatures_or_default m.creator_signature)) msg_eq
                  minted.signed)
                signed);
      }

  pub sign_asset-IsConsistent :
      (b : BatchMintBuilder x) (k : ℕ) (received : HashMap x.Signature) {b' : BatchMintBuilder x}
      → IsConsistent x b
      → sign_asset x b k received ≡ ok b'
      → IsConsistent x b'
  sign_asset-IsConsistent b k received v h =
      let s = sign_asset_sound b k received h in
      let minted = All-lookup (IsMinted x b.tree_account) k b.mints s.found v.minted in
      let m' : BatchMintInstruction x = record s.entry { creator_signature = some s.signatures } in
      subst (IsConsistent x) s.state_eq (record {
        empty_tree = v.empty_tree;
        made = v.made;
        first_root = v.first_root;
        start = v.start;
        initialized = v.initialized;
        counted = CountsFrom-put 0 k m' b.mints v.counted;
        minted =
            All-put (IsMinted x b.tree_account) k m' b.mints
              (signed-IsMinted b s.entry received s.signatures s.hash minted s.hashed s.signed)
              v.minted;
        run =
            Run-put x (IsRecorded x b.tree_account) v.start b.merkle k b.mints s.entry m' s.found
              refl (λ u c p. p) v.run;
      })

  or_return_elim {ℓ} :
      (P : BatchMintBuilder x → Type ℓ) (b : BatchMintBuilder x)
      (o : Outcome (BatchMintError x) (BatchMintBuilder x))
      (next : BatchMintBuilder x → Outcome (BatchMintError x) (Unit {0}) × BatchMintBuilder x)
      → P b
      → ((b' : BatchMintBuilder x) → o ≡ ok b' → P (next b').1)
      → P (or_return x b o next).1
  unfolding or_return
  or_return_elim P b (ok b') next p keep = keep b' refl
  or_return_elim P b (err e) next p keep = p
  or_return_elim P b panic next p keep = p

  -- What every `sign_asset` that succeeds keeps holds of the builder that the call leaves behind,
  -- however the call ends.
  pub add_signatures_elim {ℓ} :
      (P : BatchMintBuilder x → Type ℓ)
      → ((b : BatchMintBuilder x) (k : ℕ) (received : HashMap x.Signature) (b' : BatchMintBuilder x)
          → P b
          → sign_asset x b k received ≡ ok b'
          → P b')
      → (b : BatchMintBuilder x) (entries : List (ℕ × HashMap x.Signature)) → P b
      → P (add_signatures_for_verified_creators x b entries).1
  unfolding add_signatures_for_verified_creators
  add_signatures_elim P keeps b [] p = p
  add_signatures_elim P keeps b ((k, []) ∷ rest) p = add_signatures_elim P keeps b rest p
  add_signatures_elim P keeps b ((k, s ∷ received) ∷ rest) p =
      or_return_elim P b (sign_asset x b k (s ∷ received)) _ p
        (λ b' e. add_signatures_elim P keeps b' rest (keeps b k (s ∷ received) b' p e))

  pub add_signatures-IsConsistent :
      (b : BatchMintBuilder x) (entries : List (ℕ × HashMap x.Signature))
      → IsConsistent x b
      → IsConsistent x (add_signatures_for_verified_creators x b entries).1
  add_signatures-IsConsistent =
      add_signatures_elim (IsConsistent x)
        (λ b k received b' v e. sign_asset-IsConsistent b k received v e)
