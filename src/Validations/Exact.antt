-- ===== src/Validations/Exact.antt =====
-- `validate_batch_mint` of src/batch_mint_validations.rs against the description of a valid batch mint.
use bubblegum_batch_sdk.Base.{
  ◌≡◌, ◌↔◌, refl, ok, Option, >>=-eq-ok, guard-eq-ok, map_err-eq-ok, map_err, [],
}
use bubblegum_batch_sdk.Base.Bytes.{Bytes, bytes_eq_iff, bytes_eq→eq}
use bubblegum_batch_sdk.Deps.{Deps}
use bubblegum_batch_sdk.Errors.{spl_compression, from_batch_mint_error}
use bubblegum_batch_sdk.Model.{BatchMint}
use bubblegum_batch_sdk.MerkleTree.{make_concurrent_merkle_tree}
use bubblegum_batch_sdk.Validations.{
  validate_assets, replay_leaves, validate_change_logs, validate_batch_mint,
}
use bubblegum_batch_sdk.Validations.Spec.{IsValidBatch}
use bubblegum_batch_sdk.Validations.Assets.{validate_assets_complete, validate_assets_sound}
use bubblegum_batch_sdk.Validations.Replay.{replay_leaves_complete, replay_leaves_sound}

module _ (x : Deps) where
  pub validate_complete :
      (bm : BatchMint x) (mint : Option Bytes)
      → IsValidBatch x bm mint
      → validate_batch_mint x bm mint ≡ ok tt
  unfolding validate_batch_mint validate_change_logs
  validate_complete bm mint v = rw (
    validate_assets_complete x bm.tree_id mint bm.batch_mints [] v.authentic,
    v.made,
    v.initialized,
    replay_leaves_complete x bm [] bm.batch_mints v.start v.final refl v.run,
    (bytes_eq_iff _ _).1 v.root_eq,
  )

  pub validate_sound :
      (bm : BatchMint x) (mint : Option Bytes)
      → validate_batch_mint x bm mint ≡ ok tt
      → IsValidBatch x bm mint
  unfolding validate_batch_mint validate_change_logs
  validate_sound bm mint h =
      let (hashes, assets_ok, h₁) =
        >>=-eq-ok (validate_assets x bm.tree_id mint bm.batch_mints []) _ h in
      let (authentic, hashes_eq) =
        validate_assets_sound x bm.tree_id mint bm.batch_mints [] assets_ok in
      let (tree, made, h₂) =
        >>=-eq-ok
          (map_err from_batch_mint_error
            (make_concurrent_merkle_tree x bm.max_depth bm.max_buffer_size))
          _ h₁ in
      let (init, initialized, h₃) =
        >>=-eq-ok (map_err spl_compression (x.merkle.initialize tree)) _ h₂ in
      let (final, replayed, h₄) = >>=-eq-ok (replay_leaves x bm 0 hashes init.1) _ h₃ in
      record {
        authentic = authentic;
        empty_tree = tree;
        made = map_err-eq-ok from_batch_mint_error _ made;
        first_root = init.0;
        start = init.1;
        initialized = map_err-eq-ok spl_compression _ initialized;
        final = final;
        run =
            replay_leaves_sound x bm [] bm.batch_mints init.1 final refl (rw hashes_eq at replayed);
        root_eq = bytes_eq→eq _ _ (guard-eq-ok _ _ h₄);
      }

  -- The validator accepts a batch mint exactly when it is valid: each asset authentic, each
  -- changelog that of a run of the merkle tree over the assets' hashes, and the root that of the
  -- run's end.
  pub validate_batch_mint_iff :
      (bm : BatchMint x) (mint : Option Bytes)
      → (validate_batch_mint x bm mint ≡ ok tt) ↔ IsValidBatch x bm mint
  validate_batch_mint_iff bm mint = (validate_sound bm mint, validate_complete bm mint)
