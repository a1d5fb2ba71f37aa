-- ===== src/Validations/Assets.antt =====
-- The checks of one asset in src/batch_mint_validations.rs against the description of an authentic
-- one.
use bubblegum_batch_sdk.Base.{
  ◌≡◌, refl, sym, ap, ◌∙◌, Option, none, some, List, [], ◌∷◌, ◌++◌, All, ok, arith, >>=-eq-ok,
  guard-eq-ok, map_err-eq-ok, inl, inr, Bool-cases, Option-cases,
}
use bubblegum_batch_sdk.Base.Bytes.{Bytes, bytes_eq_iff, bytes_eq→eq}
use bubblegum_batch_sdk.Base.Maps.{HashMap, get}
use mathlib.Core.List.{append-nil, append_assoc}
use bubblegum_batch_sdk.Deps.{Deps}
use bubblegum_batch_sdk.Deps.Data.{Creator, Collection}
use bubblegum_batch_sdk.Model.{BatchMintInstruction}
use bubblegum_batch_sdk.Builder.Hashing.{
  data_hash_of, creator_hash_of, hashes_of, metadata_args_hash_new, hash_metadata_args,
}
use bubblegum_batch_sdk.Builder.Signatures.{verify_signature, signatures_or_default}
use bubblegum_batch_sdk.Validations.{
  get_leaf_hash, verify_creator, verify_creators, verify_creators_signatures, validate_collection,
  validate_asset, validate_assets,
}
use bubblegum_batch_sdk.Validations.Spec.{message_of, IsHashed, HasSigned, IsExpected, IsAuthentic}

module _ (x : Deps) where
  get_leaf_hash_complete :
      (tree_id : Bytes) (m : BatchMintInstruction x) (args : Bytes)
      → IsHashed x tree_id m args
      → get_leaf_hash x m tree_id ≡ ok (x.leaf_hash m.leaf_update)
  unfolding get_leaf_hash
  get_leaf_hash_complete tree_id m args h = ground (
    arith,
    h.serialized,
    bytes_eq_iff (x.get_asset_id tree_id m.leaf_update.nonce) m.leaf_update.id,
    bytes_eq_iff m.leaf_update.data_hash (data_hash_of x args m.mint_args.seller_fee_basis_points),
    bytes_eq_iff m.leaf_update.creator_hash (creator_hash_of x m.mint_args.creators),
  )

  get_leaf_hash_sound :
      (tree_id : Bytes) (m : BatchMintInstruction x) {leaf : Bytes}
      → get_leaf_hash x m tree_id ≡ ok leaf
      → (args : Bytes) × IsHashed x tree_id m args × (leaf ≡ x.leaf_hash m.leaf_update)
  unfolding get_leaf_hash
  get_leaf_hash_sound tree_id m h =
      let (u, id_ok, h₁) = >>=-eq-ok _ _ h in
      let (args, ser, h₂) = >>=-eq-ok _ _ h₁ in
      let (v, data_ok, h₃) = >>=-eq-ok _ _ h₂ in
      let (w, creators_ok, h₄) = >>=-eq-ok _ _ h₃ in
      (
        args,
        record {
          serialized = map_err-eq-ok _ _ ser;
          id_eq = sym (bytes_eq→eq _ _ (guard-eq-ok _ _ id_ok));
          data_hash_eq = bytes_eq→eq _ _ (guard-eq-ok _ _ data_ok);
          creator_hash_eq = bytes_eq→eq _ _ (guard-eq-ok _ _ creators_ok);
        },
        cc,
      )

  verify_creators_complete :
      (msg : Bytes) (signatures : HashMap x.Signature) (cs : List Creator)
      → All (HasSigned x msg signatures) cs
      → verify_creators x msg signatures cs ≡ ok tt
  unfolding verify_creators verify_creator verify_signature
  verify_creators_complete msg signatures [] h = refl
  verify_creators_complete msg signatures (c ∷ cs) h = elim (Bool-cases c.verified) [
    | inl y ↦
        let (s, found, valid) = h.0 y in
        rw (y, found, valid) (verify_creators_complete msg signatures cs h.1)
    | inr n ↦ rw n (verify_creators_complete msg signatures cs h.1)
  ]

  verify_creator_sound :
      (msg : Bytes) (signatures : HashMap x.Signature) (c : Creator)
      → verify_creator x msg signatures c ≡ ok tt
      → HasSigned x msg signatures c
  unfolding verify_creator verify_signature
  verify_creator_sound msg signatures c h y = elim (Option-cases (get c.address signatures)) [
    | inl missing ↦ cc (rw (y, missing) at h)
    | inr (s, found) ↦ (s, found, guard-eq-ok _ _ (rw (y, found) at h))
  ]

  verify_creators_sound :
      (msg : Bytes) (signatures : HashMap x.Signature) (cs : List Creator)
      → verify_creators x msg signatures cs ≡ ok tt
      → All (HasSigned x msg signatures) cs
  unfolding verify_creators
  verify_creators_sound msg signatures [] h = tt
  verify_creators_sound msg signatures (c ∷ cs) h =
      let (u, first, rest) = >>=-eq-ok _ _ h in
      (verify_creator_sound msg signatures c first, verify_creators_sound msg signatures cs rest)

  -- The message depends on the asset alone.
  pub metadata_args_hash_new_lem :
      {E : Type 0} (tree_id : Bytes) (m : BatchMintInstruction x) (args : Bytes)
      → x.try_to_vec m.mint_args ≡ ok args
      → metadata_args_hash_new x {E = E} m.leaf_update tree_id m.mint_args
        ≡ ok (
            hashes_of x m.leaf_update.nonce tree_id m.leaf_update.owner m.leaf_update.delegate
              m.mint_args args)
  unfolding metadata_args_hash_new hash_metadata_args
  metadata_args_hash_new_lem tree_id m args e = rw e

  validate_collection_complete :
      (mint : Option Bytes) (c : Option Collection)
      → IsExpected x mint c
      → validate_collection x mint c ≡ ok tt
  unfolding validate_collection
  validate_collection_complete mint none h = refl
  validate_collection_complete none (some c) h = ground arith
  validate_collection_complete (some mint) (some c) h = ground (arith, h, bytes_eq_iff mint c.key)

  validate_collection_sound :
      (mint : Option Bytes) (c : Option Collection)
      → validate_collection x mint c ≡ ok tt
      → IsExpected x mint c
  unfolding validate_collection
  validate_collection_sound mint none h = tt
  validate_collection_sound none (some c) h = λ v. ground arith
  validate_collection_sound (some mint) (some c) h = λ v. ground (arith, bytes_eq_iff mint c.key)

  verify_creators_signatures_lem :
      (tree_id : Bytes) (m : BatchMintInstruction x) (args : Bytes)
      (signatures : HashMap x.Signature)
      → x.try_to_vec m.mint_args ≡ ok args
      → verify_creators_signatures x tree_id m signatures
        ≡ verify_creators x (message_of x tree_id m args) signatures m.mint_args.creators
  unfolding verify_creators_signatures message_of
  verify_creators_signatures_lem tree_id m args signatures e =
      rw (metadata_args_hash_new_lem tree_id m args e)

  -- An authentic asset passes, with its hash.
  pub validate_asset_complete :
      (tree_id : Bytes) (mint : Option Bytes) (m : BatchMintInstruction x)
      → IsAuthentic x tree_id mint m
      → validate_asset x tree_id mint m ≡ ok (x.leaf_hash m.leaf_update)
  unfolding validate_asset
  validate_asset_complete tree_id mint m h = rw (
    get_leaf_hash_complete tree_id m h.args h.hashed,
    validate_collection_complete mint m.mint_args.collection h.collection,
    verify_creators_signatures_lem tree_id m h.args _ h.hashed.serialized,
    verify_creators_complete _ _ _ h.signed,
  )

  -- What passes is authentic, and the result is its hash.
  pub validate_asset_sound :
      (tree_id : Bytes) (mint : Option Bytes) (m : BatchMintInstruction x) {leaf : Bytes}
      → validate_asset x tree_id mint m ≡ ok leaf
      → IsAuthentic x tree_id mint m × (leaf ≡ x.leaf_hash m.leaf_update)
  unfolding validate_asset
  validate_asset_sound tree_id mint m h =
      let (l, hash_ok, h₁) = >>=-eq-ok (get_leaf_hash x m tree_id) _ h in
      let (u, collection_ok, h₂) =
        >>=-eq-ok (validate_collection x mint m.mint_args.collection) _ h₁ in
      let (v, creators_ok, h₃) =
        >>=-eq-ok
          (verify_creators_signatures x tree_id m (signatures_or_default m.creator_signature)) _
          h₂ in
      let (args, hashed, leaf_eq) = get_leaf_hash_sound tree_id m hash_ok in
      (
        record {
          args = args;
          hashed = hashed;
          collection = validate_collection_sound mint m.mint_args.collection collection_ok;
          signed = verify_creators_sound _ _ _ (
              rw (verify_creators_signatures_lem tree_id m args _ hashed.serialized) at
                creators_ok);
        },
        cc,
      )

  unfoldable pub leaves : List (BatchMintInstruction x) → List Bytes
  leaves [] = []
  leaves (m ∷ ms) = x.leaf_hash m.leaf_update ∷ leaves ms

  pub validate_assets_complete :
      (tree_id : Bytes) (mint : Option Bytes) (ms : List (BatchMintInstruction x))
      (before : List Bytes)
      → All (IsAuthentic x tree_id mint) ms
      → validate_assets x tree_id mint ms before ≡ ok (before ++ leaves ms)
  unfolding validate_assets leaves
  validate_assets_complete tree_id mint [] before h = ap ok (sym (append-nil before))
  validate_assets_complete tree_id mint (m ∷ ms) before h =
      rw (validate_asset_complete tree_id mint m h.0) (
        validate_assets_complete tree_id mint ms (before ++ x.leaf_hash m.leaf_update ∷ []) h.1
        ∙ ap ok (append_assoc before (x.leaf_hash m.leaf_update ∷ []) (leaves ms)))

  pub validate_assets_sound :
      (tree_id : Bytes) (mint : Option Bytes) (ms : List (BatchMintInstruction x))
      (before : List Bytes) {hashes : List Bytes}
      → validate_assets x tree_id mint ms before ≡ ok hashes
      → All (IsAuthentic x tree_id mint) ms × (hashes ≡ before ++ leaves ms)
  unfolding validate_assets leaves
  validate_assets_sound tree_id mint [] before h = (tt, rw (append-nil before) (cc))
  validate_assets_sound tree_id mint (m ∷ ms) before h =
      let (leaf, first, rest) = >>=-eq-ok _ _ h in
      let (authentic, leaf_eq) = validate_asset_sound tree_id mint m first in
      let (all, hashes_eq) = validate_assets_sound tree_id mint ms _ rest in
      (
        (authentic, all),
        hashes_eq
            ∙ append_assoc before (leaf ∷ []) (leaves ms)
            ∙ ap (λ (l : Bytes). before ++ l ∷ leaves ms) leaf_eq,
      )
