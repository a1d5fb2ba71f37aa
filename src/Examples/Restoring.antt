-- ===== src/Examples/Restoring.antt =====
-- The theorems on the client's reading and restoring, and on what the validator does not read, at
-- concrete inputs.
use bubblegum_batch_sdk.Base.{
  ◌≡◌, ap, sym, none, [], ◌∷◌, replicate, arith, ok, ◌>>=◌, ok_injective,
}
use bubblegum_batch_sdk.Base.Bytes.{Bytes, bytes_eq, to_le_bytes}
use bubblegum_batch_sdk.Base.Maps.{insert, values}
use bubblegum_batch_sdk.Model.{BatchMint}
use bubblegum_batch_sdk.MerkleTree.{
  match_size, tree_impls, creator_arms, size_arms, make_concurrent_merkle_tree, calc_canopy_size,
  calc_merkle_tree_size, restore_canopy_depth_from_buffer,
}
use bubblegum_batch_sdk.Builder.Hashing.{
  hashes_of, hash_metadata_args, data_hash_of, creator_hash_of,
}
use bubblegum_batch_sdk.Builder.State.{BatchMintBuilder, new}
use bubblegum_batch_sdk.Builder.Assets.{update_canopy, record_asset, add_asset}
use bubblegum_batch_sdk.Builder.Building.{
  check_creators, check_collection, check_mints, build_batch_mint,
}
use bubblegum_batch_sdk.Validations.{validate_batch_mint}
use bubblegum_batch_sdk.TreeData.{from_bytes}
use bubblegum_batch_sdk.Flow.Accepted.{expected_mint}
use bubblegum_batch_sdk.Flow.Entries.{assets_of}
use bubblegum_batch_sdk.Flow.Reach.{Reach}
use bubblegum_batch_sdk.Client.Tree.{parse_tree_size, read_prepared_tree_size}
use bubblegum_batch_sdk.Client.Parsers.{size_of, SplitsHeader, parse_tree_size-from_bytes}
use bubblegum_batch_sdk.Client.Restore.{restore_entry, restore_entries, restore_batch_mint_builder}
use bubblegum_batch_sdk.Client.Restored.{restore_batch_mint_builder-Reach, validate_restored}
use bubblegum_batch_sdk.Examples.Reference.{reference, reference_hash_laws}
use bubblegum_batch_sdk.Examples.Runs.{IsOk, result, result-eq, plain}

-- A tree of depth 3 with no canopy.
abbrev account : Bytes
account = 3 ∷ 8 ∷ replicate 4 0

account-SplitsHeader : SplitsHeader reference account
account-SplitsHeader t e = (omega arith, ap (λ t. t.serialized_tree) (sym (ok_injective e)))

parse_tree_size-from_bytes_example :
    parse_tree_size reference account ≡ (from_bytes reference account >>= λ info. ok (size_of info))
parse_tree_size-from_bytes_example =
    parse_tree_size-from_bytes reference account account-SplitsHeader

-- Nothing in it is true but the owner and the arguments of its asset.
abbrev forged : BatchMint reference
forged = record {
  tree_id = 7 ∷ [];
  batch_mints =
      record {
        tree_update = record { id = []; path = []; seq = 0; index = 9 };
        leaf_update = record {
          id = [];
          owner = 5 ∷ [];
          delegate = 6 ∷ [];
          nonce = 9;
          data_hash = [];
          creator_hash = [];
        };
        mint_args = plain;
        authority = [];
        creator_signature = none;
      }
      ∷ [];
  raw_metadata_map = [];
  max_depth = 30;
  max_buffer_size = 2048;
  merkle_root = [];
  last_leaf_hash = [];
}

restore-IsOk : IsOk (restore_batch_mint_builder reference (ok account) forged)
unfolding restore_batch_mint_builder restore_entries restore_entry read_prepared_tree_size
    parse_tree_size calc_merkle_tree_size size_arms calc_canopy_size
    restore_canopy_depth_from_buffer new make_concurrent_merkle_tree match_size creator_arms
    tree_impls add_asset hash_metadata_args hashes_of update_canopy record_asset bytes_eq
    to_le_bytes data_hash_of creator_hash_of
restore-IsOk = tt

abbrev restored : BatchMintBuilder reference
restored = result (restore_batch_mint_builder reference (ok account) forged) restore-IsOk

restored_eq : restore_batch_mint_builder reference (ok account) forged ≡ ok restored
restored_eq = result-eq (restore_batch_mint_builder reference (ok account) forged) restore-IsOk

restore_batch_mint_builder-Reach_example :
    Reach reference restored
    × (assets_of reference (values restored.mints) ≡ assets_of reference forged.batch_mints)
restore_batch_mint_builder-Reach_example =
    restore_batch_mint_builder-Reach reference reference_hash_laws (ok account) forged restored
      restored_eq

build-IsOk : IsOk (build_batch_mint reference restored)
unfolding restore_batch_mint_builder restore_entries restore_entry read_prepared_tree_size
    parse_tree_size calc_merkle_tree_size size_arms calc_canopy_size
    restore_canopy_depth_from_buffer new make_concurrent_merkle_tree match_size creator_arms
    tree_impls add_asset hash_metadata_args hashes_of update_canopy record_asset bytes_eq
    to_le_bytes data_hash_of creator_hash_of insert values build_batch_mint check_mints
    check_creators check_collection
build-IsOk = tt

abbrev built : BatchMint reference
built = result (build_batch_mint reference restored) build-IsOk

validate_restored_example :
    validate_batch_mint reference built (expected_mint reference restored.collection_config) ≡ ok tt
validate_restored_example =
    validate_restored reference reference_hash_laws (ok account) forged built restored restored_eq
      (result-eq (build_batch_mint reference restored) build-IsOk)
