-- ===== src/Validations/Tampered.antt =====
-- What the validator of src/batch_mint_validations.rs reports of a valid batch mint that was tampered
-- with.
use bubblegum_batch_sdk.Base.{
  ℕ, ◌≡◌, ◌≢◌, refl, sym, ◌∙◌, subst, true, false, Option, List, [], ◌∷◌, ◌++◌, ok, err, All,
  Bool-cases, inl, inr,
}
use bubblegum_batch_sdk.Base.Bytes.{Bytes, bytes_eq, bytes_eq_iff, bytes_eq→eq}
use bubblegum_batch_sdk.Deps.{Deps}
use bubblegum_batch_sdk.Deps.Data.{LeafSchema}
use bubblegum_batch_sdk.Errors.{
  BatchMintValidationError, unexpected_tree_size, from_batch_mint_error, invalid_root,
  pda_check_fail, invalid_data_hash, invalid_creators_hash,
}
use bubblegum_batch_sdk.Model.{BatchMint, BatchMintInstruction}
use bubblegum_batch_sdk.MerkleTree.Sizes.{is_supported, make_concurrent_merkle_tree_lem}
use bubblegum_batch_sdk.Builder.Hashing.{data_hash_of, creator_hash_of}
use bubblegum_batch_sdk.Validations.{
  get_leaf_hash, validate_asset, validate_assets, validate_change_logs, validate_batch_mint,
}
use bubblegum_batch_sdk.Validations.Spec.{IsAuthentic, IsHashed, IsValidBatch}
use bubblegum_batch_sdk.Validations.Assets.{
  leaves, validate_asset_complete, validate_assets_complete,
}
use bubblegum_batch_sdk.Validations.Replay.{replay_leaves_complete}
use bubblegum_batch_sdk.Validations.Ignored.{replay_leaves_ignores}
use bubblegum_batch_sdk.Validations.Exact.{validate_sound}

bytes_neq : (a b : Bytes) → a ≢ b → bytes_eq a b ≡ false
bytes_neq a b differ = elim (Bool-cases (bytes_eq a b)) [
  | inl same ↦ absurd (differ (bytes_eq→eq a b same))
  | inr other ↦ other
]

module _ (x : Deps) where
  -- The batch mint with another leaf for one of its assets.
  abbrev pub with_leaf :
      BatchMint x
      → List (BatchMintInstruction x)
      → BatchMintInstruction x
      → List (BatchMintInstruction x)
      → LeafSchema
      → BatchMint x
  with_leaf bm before m after leaf = record bm {
    batch_mints = before ++ record m { leaf_update = leaf } ∷ after;
  }

  -- The first asset that fails is reported.
  validate_assets_fails :
      (tree_id : Bytes) (mint : Option Bytes) (before after : List (BatchMintInstruction x))
      (m m' : BatchMintInstruction x) (hashes : List Bytes) {e : BatchMintValidationError x}
      → All (IsAuthentic x tree_id mint) (before ++ m ∷ after)
      → get_leaf_hash x m' tree_id ≡ err e
      → validate_assets x tree_id mint (before ++ m' ∷ after) hashes ≡ err e
  unfolding validate_assets validate_asset
  validate_assets_fails tree_id mint [] after m m' hashes h fails = rw fails refl
  validate_assets_fails tree_id mint (n ∷ before) after m m' hashes (first, others) fails =
      rw (validate_asset_complete x tree_id mint n first) (
        validate_assets_fails tree_id mint before after m m'
          (hashes ++ x.leaf_hash n.leaf_update ∷ []) others fails)

  id_accepted :
      (tree_id : Bytes) (m : BatchMintInstruction x) (args : Bytes)
      → IsHashed x tree_id m args
      → bytes_eq (x.get_asset_id tree_id m.leaf_update.nonce) m.leaf_update.id ≡ true
  id_accepted tree_id m args h = (bytes_eq_iff _ _).1 (sym h.id_eq)

  entry-IsAuthentic :
      (tree_id : Bytes) (mint : Option Bytes) (before after : List (BatchMintInstruction x))
      (m : BatchMintInstruction x)
      → All (IsAuthentic x tree_id mint) (before ++ m ∷ after)
      → IsAuthentic x tree_id mint m
  entry-IsAuthentic tree_id mint [] after m h = h.0
  entry-IsAuthentic tree_id mint (n ∷ before) after m h =
      entry-IsAuthentic tree_id mint before after m h.1

  wrong_id :
      (tree_id : Bytes) (m : BatchMintInstruction x) (args id : Bytes)
      → IsHashed x tree_id m args
      → id ≢ m.leaf_update.id
      → get_leaf_hash x (record m { leaf_update = record m.leaf_update { id = id } }) tree_id
        ≡ err (pda_check_fail (x.key_to_string m.leaf_update.id) (x.key_to_string id))
  unfolding get_leaf_hash
  wrong_id tree_id m args id h differ =
      let fails =
        bytes_neq (x.get_asset_id tree_id m.leaf_update.nonce) id
          (λ e. differ (sym (h.id_eq ∙ e))) in
      rw (fails, h.id_eq) refl

  wrong_data_hash :
      (tree_id : Bytes) (m : BatchMintInstruction x) (args hash : Bytes)
      → IsHashed x tree_id m args
      → hash ≢ m.leaf_update.data_hash
      → get_leaf_hash x
          (record m { leaf_update = record m.leaf_update { data_hash = hash } })
          tree_id
        ≡ err (invalid_data_hash (x.hash_to_string m.leaf_update.data_hash) (x.hash_to_string hash))
  unfolding get_leaf_hash
  wrong_data_hash tree_id m args hash h differ =
      let fails =
        bytes_neq hash (data_hash_of x args m.mint_args.seller_fee_basis_points)
          (λ e. differ (e ∙ sym h.data_hash_eq)) in
      rw (id_accepted tree_id m args h, h.serialized, fails, h.data_hash_eq) refl

  wrong_creator_hash :
      (tree_id : Bytes) (m : BatchMintInstruction x) (args hash : Bytes)
      → IsHashed x tree_id m args
      → hash ≢ m.leaf_update.creator_hash
      → get_leaf_hash x
          (record m { leaf_update = record m.leaf_update { creator_hash = hash } })
          tree_id
        ≡ err (
            invalid_creators_hash
              (x.hash_to_string m.leaf_update.creator_hash)
              (x.hash_to_string hash))
  unfolding get_leaf_hash
  wrong_creator_hash tree_id m args hash h differ =
      let fails =
        bytes_neq hash (creator_hash_of x m.mint_args.creators)
          (λ e. differ (e ∙ sym h.creator_hash_eq)) in
      rw
        (
          id_accepted tree_id m args h,
          h.serialized,
          (bytes_eq_iff m.leaf_update.data_hash
                (data_hash_of x args m.mint_args.seller_fee_basis_points)).1
              h.data_hash_eq,
          fails,
          h.creator_hash_eq,
        )
        refl

  tampered_leaf :
      (bm : BatchMint x) (mint : Option Bytes) (before after : List (BatchMintInstruction x))
      (m : BatchMintInstruction x) (leaf : LeafSchema) {e : BatchMintValidationError x}
      → IsValidBatch x bm mint
      → bm.batch_mints ≡ before ++ m ∷ after
      → get_leaf_hash x (record m { leaf_update = leaf }) bm.tree_id ≡ err e
      → validate_batch_mint x (with_leaf bm before m after leaf) mint ≡ err e
  unfolding validate_batch_mint
  tampered_leaf bm mint before after m leaf v split fails =
      let all = subst (All (IsAuthentic x bm.tree_id mint)) split v.authentic in
      rw
        (validate_assets_fails bm.tree_id mint before after m (record m { leaf_update = leaf }) []
          all fails)
        refl

  tampered_root :
      (bm : BatchMint x) (mint : Option Bytes) (root : Bytes)
      → IsValidBatch x bm mint
      → root ≢ bm.merkle_root
      → validate_batch_mint x (record bm { merkle_root = root }) mint
        ≡ err (invalid_root (x.hash_to_string bm.merkle_root) (x.hash_to_string root))
  unfolding validate_batch_mint validate_change_logs
  tampered_root bm mint root v differ =
      rw
        (
          validate_assets_complete x bm.tree_id mint bm.batch_mints [] v.authentic,
          v.made,
          v.initialized,
          replay_leaves_ignores x bm root bm.last_leaf_hash 0 (leaves x bm.batch_mints) v.start
              ∙ replay_leaves_complete x bm [] bm.batch_mints v.start v.final refl v.run,
          v.root_eq,
          bytes_neq bm.merkle_root root (λ e. differ (sym e)),
        )
        refl

  tampered_size :
      (bm : BatchMint x) (mint : Option Bytes) (d s : ℕ)
      → IsValidBatch x bm mint
      → is_supported d s ≡ false
      → validate_batch_mint x (record bm { max_depth = d; max_buffer_size = s }) mint
        ≡ err (from_batch_mint_error (unexpected_tree_size d s))
  unfolding validate_batch_mint validate_change_logs
  tampered_size bm mint d s v unsupported =
      rw
        (
          validate_assets_complete x bm.tree_id mint bm.batch_mints [] v.authentic,
          make_concurrent_merkle_tree_lem x d s,
          unsupported,
        )
        refl

  -- What is reported if a valid batch mint is tampered with. For another root: that the root is
  -- wrong, with both. For sizes that no tree has: the sizes. For another id, data hash or
  -- creator hash of one of its assets: that this one is wrong, with what it was and what it is
  -- now.
  pub validate_tampered :
      (bm : BatchMint x) (mint : Option Bytes)
      → validate_batch_mint x bm mint ≡ ok tt
      → ((root : Bytes)
          → root ≢ bm.merkle_root
          → validate_batch_mint x (record bm { merkle_root = root }) mint
            ≡ err (invalid_root (x.hash_to_string bm.merkle_root) (x.hash_to_string root)))
        × ((d s : ℕ)
            → is_supported d s ≡ false
            → validate_batch_mint x (record bm { max_depth = d; max_buffer_size = s }) mint
              ≡ err (from_batch_mint_error (unexpected_tree_size d s)))
        × ((before after : List (BatchMintInstruction x)) (m : BatchMintInstruction x)
              (other : Bytes)
            → bm.batch_mints ≡ before ++ m ∷ after
            → (other ≢ m.leaf_update.id
                → validate_batch_mint x
                    (with_leaf bm before m after (record m.leaf_update { id = other }))
                    mint
                  ≡ err (pda_check_fail (x.key_to_string m.leaf_update.id) (x.key_to_string other)))
              × (other ≢ m.leaf_update.data_hash
                  → validate_batch_mint x
                      (with_leaf bm before m after (record m.leaf_update { data_hash = other }))
                      mint
                    ≡ err (
                        invalid_data_hash
                          (x.hash_to_string m.leaf_update.data_hash)
                          (x.hash_to_string other)))
              × (other ≢ m.leaf_update.creator_hash
                  → validate_batch_mint x
                      (with_leaf bm before m after (record m.leaf_update { creator_hash = other }))
                      mint
                    ≡ err (
                        invalid_creators_hash
                          (x.hash_to_string m.leaf_update.creator_hash)
                          (x.hash_to_string other))))
  validate_tampered bm mint valid =
      let v = validate_sound x bm mint valid in
      (
        λ root differ. tampered_root bm mint root v differ,
        λ d s unsupported. tampered_size bm mint d s v unsupported,
        λ before after m other split.
            let a =
              entry-IsAuthentic bm.tree_id mint before after m
                (subst (All (IsAuthentic x bm.tree_id mint)) split v.authentic) in
            (
              λ differ.
                  tampered_leaf bm mint before after m _ v split
                    (wrong_id bm.tree_id m a.args other a.hashed differ),
              λ differ.
                  tampered_leaf bm mint before after m _ v split
                    (wrong_data_hash bm.tree_id m a.args other a.hashed differ),
              λ differ.
                  tampered_leaf bm mint before after m _ v split
                    (wrong_creator_hash bm.tree_id m a.args other a.hashed differ),
            ),
      )
