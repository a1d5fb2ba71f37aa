-- ===== src/Validations.antt =====
-- src/batch_mint_validations.rs: the checks of a batch mint by those that did not build it.
pub mod Spec
pub mod Assets
pub mod Replay
pub mod Exact
pub mod Ignored
pub mod Tampered
pub mod Same
pub mod Equal
pub mod Indexed
pub mod Generate
use bubblegum_batch_sdk.Base.{
  ℕ, zero, suc, Bool, true, false, not, ◌&&◌, Option, none, some, List, [], ◌∷◌, ◌++◌, map,
  get_elem?, ◌==◌, if◌then◌else◌, Outcome, ok, err, ok_or, expect, map_err, guard, ◌>>=◌, ◌>>◌,
}
use bubblegum_batch_sdk.Base.Bytes.{Bytes, bytes_eq}
use bubblegum_batch_sdk.Base.Maps.{HashMap, get}
use bubblegum_batch_sdk.Deps.{Deps}
use bubblegum_batch_sdk.Deps.Data.{Creator, Collection, ChangeLog}
use bubblegum_batch_sdk.Errors.{
  BatchMintValidationError, pda_check_fail, invalid_data_hash, invalid_creators_hash, invalid_root,
  no_relevant_rolled_mint, wrong_asset_path, wrong_tree_id_for_change_log, wrong_change_log_index,
  spl_compression, failed_creator_verification, missing_creator_signature,
  wrong_collection_verified, verified_collection_mismatch, from_io, from_batch_mint_error,
}
use bubblegum_batch_sdk.Model.{BatchMint, BatchMintInstruction, from_spl, path_eq}
use bubblegum_batch_sdk.MerkleTree.{make_concurrent_merkle_tree}
use bubblegum_batch_sdk.Builder.Hashing.{
  data_hash_of, creator_hash_of, metadata_args_hash_new, get_message,
}
use bubblegum_batch_sdk.Builder.Changelog.{make_changelog_path}
use bubblegum_batch_sdk.Builder.Signatures.{verify_signature, signatures_or_default}

module _ (x : Deps) where
  -- The comparisons of one entry with the changelog of the tree.
  unfoldable pub check_change_log :
      BatchMint x
      → BatchMintInstruction x
      → ChangeLog
      → Outcome (BatchMintValidationError x) (Unit {0})
  check_change_log batch_mint mint changelog = do
    guard (path_eq mint.tree_update.path (map from_spl (make_changelog_path changelog)))
        (wrong_asset_path (x.key_to_string mint.leaf_update.id))
    guard (bytes_eq mint.tree_update.id batch_mint.tree_id) (
        wrong_tree_id_for_change_log (x.key_to_string mint.leaf_update.id)
          (x.key_to_string batch_mint.tree_id) (x.key_to_string mint.tree_update.id))
    guard (mint.tree_update.index == changelog.index) (
        wrong_change_log_index (x.key_to_string mint.leaf_update.id) changelog.index
          mint.tree_update.index)

  -- The loop of `validate_change_logs` from leaf `i` on. It returns the tree.
  unfoldable pub replay_leaves :
      BatchMint x → ℕ → List Bytes → x.Tree → Outcome (BatchMintValidationError x) x.Tree
  unfolding check_change_log
  replay_leaves batch_mint i [] tree = ok tree
  replay_leaves batch_mint i (leaf_hash ∷ leaves) tree = do
    appended ← map_err spl_compression (x.merkle.append tree leaf_hash)
    changelog ← expect (x.merkle.change_logs appended.1 (x.merkle.active_index appended.1))
    mint ← ok_or (get_elem? batch_mint.batch_mints i) (no_relevant_rolled_mint i)
    check_change_log batch_mint mint changelog
    replay_leaves batch_mint (suc i) leaves appended.1

  unfoldable pub validate_change_logs :
      ℕ → ℕ → List Bytes → BatchMint x → Outcome (BatchMintValidationError x) (Unit {0})
  validate_change_logs max_depth max_buffer_size leaves batch_mint = do
    tree ← map_err from_batch_mint_error (make_concurrent_merkle_tree x max_depth max_buffer_size)
    initialized ← map_err spl_compression (x.merkle.initialize tree)
    replayed ← replay_leaves batch_mint 0 leaves initialized.1
    guard (bytes_eq (x.merkle.get_root replayed) batch_mint.merkle_root) (
        invalid_root (x.hash_to_string (x.merkle.get_root replayed))
          (x.hash_to_string batch_mint.merkle_root))

  unfoldable pub get_leaf_hash :
      BatchMintInstruction x → Bytes → Outcome (BatchMintValidationError x) Bytes
  get_leaf_hash asset tree_id = do
    let asset_id = x.get_asset_id tree_id asset.leaf_update.nonce
    guard (bytes_eq asset_id asset.leaf_update.id)
        (pda_check_fail (x.key_to_string asset_id) (x.key_to_string asset.leaf_update.id))
    args ← map_err from_io (x.try_to_vec asset.mint_args)
    let data_hash = data_hash_of x args asset.mint_args.seller_fee_basis_points
    guard (bytes_eq asset.leaf_update.data_hash data_hash) (
        invalid_data_hash (x.hash_to_string data_hash)
          (x.hash_to_string asset.leaf_update.data_hash))
    let creator_hash = creator_hash_of x asset.mint_args.creators
    guard (bytes_eq asset.leaf_update.creator_hash creator_hash) (
        invalid_creators_hash (x.hash_to_string creator_hash)
          (x.hash_to_string asset.leaf_update.creator_hash))
    ok (x.leaf_hash asset.leaf_update)

  unfoldable pub verify_creator :
      Bytes → HashMap x.Signature → Creator → Outcome (BatchMintValidationError x) (Unit {0})
  verify_creator msg creator_signatures creator =
      if creator.verified
      then elim (get creator.address creator_signatures) [
        | some signature ↦
            guard (verify_signature x creator.address msg signature)
              (failed_creator_verification (x.key_to_string creator.address))
        | none ↦ err (missing_creator_signature (x.key_to_string creator.address))
      ]
      else ok tt

  unfoldable pub verify_creators :
      Bytes → HashMap x.Signature → List Creator → Outcome (BatchMintValidationError x) (Unit {0})
  unfolding verify_creator
  verify_creators msg creator_signatures [] = ok tt
  verify_creators msg creator_signatures (c ∷ cs) = do
    verify_creator msg creator_signatures c
    verify_creators msg creator_signatures cs

  unfoldable pub verify_creators_signatures :
      Bytes
      → BatchMintInstruction x
      → HashMap x.Signature
      → Outcome (BatchMintValidationError x) (Unit {0})
  verify_creators_signatures tree_key batch_mint creator_signatures = do
    metadata_hash ← metadata_args_hash_new x batch_mint.leaf_update tree_key batch_mint.mint_args
    verify_creators (get_message metadata_hash) creator_signatures batch_mint.mint_args.creators

  unfoldable pub validate_collection :
      Option Bytes → Option Collection → Outcome (BatchMintValidationError x) (Unit {0})
  validate_collection collection_mint none = ok tt
  validate_collection none (some collection) =
      guard (not collection.verified) (wrong_collection_verified (x.key_to_string collection.key))
  validate_collection (some mint) (some collection) =
      guard (not (collection.verified && not (bytes_eq mint collection.key)))
        (verified_collection_mismatch (x.key_to_string mint) (x.key_to_string collection.key))

  -- The body of the loop over the assets.
  unfoldable pub validate_asset :
      Bytes → Option Bytes → BatchMintInstruction x → Outcome (BatchMintValidationError x) Bytes
  validate_asset tree_id collection_mint asset = do
    leaf_hash ← get_leaf_hash asset tree_id
    validate_collection collection_mint asset.mint_args.collection
    verify_creators_signatures tree_id asset (signatures_or_default asset.creator_signature)
    ok leaf_hash

  -- The loop, with the leaf hashes that it collects.
  unfoldable pub validate_assets :
      Bytes
      → Option Bytes
      → List (BatchMintInstruction x)
      → List Bytes
      → Outcome (BatchMintValidationError x) (List Bytes)
  validate_assets tree_id collection_mint [] leaf_hashes = ok leaf_hashes
  validate_assets tree_id collection_mint (asset ∷ assets) leaf_hashes = do
    leaf_hash ← validate_asset tree_id collection_mint asset
    validate_assets tree_id collection_mint assets (leaf_hashes ++ leaf_hash ∷ [])

  unfoldable pub validate_batch_mint :
      BatchMint x → Option Bytes → Outcome (BatchMintValidationError x) (Unit {0})
  validate_batch_mint batch_mint collection_mint = do
    leaf_hashes ← validate_assets batch_mint.tree_id collection_mint batch_mint.batch_mints []
    validate_change_logs batch_mint.max_depth batch_mint.max_buffer_size leaf_hashes batch_mint
