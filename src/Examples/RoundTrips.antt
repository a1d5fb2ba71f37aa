-- ===== src/Examples/RoundTrips.antt =====
-- A builder with a signed asset, restored from its batch mint.
use bubblegum_batch_sdk.Validations.Same.{unsigned, SameSignatures}
use bubblegum_batch_sdk.Base.{
  ◌≡◌, ◌↔◌, refl, none, some, [], ◌∷◌, map, replicate, ok, All, AllPairs, Succeeds,
}
use bubblegum_batch_sdk.Base.Bytes.{Bytes, bytes_eq, to_le_bytes, to_be_bytes}
use bubblegum_batch_sdk.Base.Maps.{HashMap, insert, lookup, put, get, add, values}
use bubblegum_batch_sdk.Base.Pow.{ilog2}
use bubblegum_batch_sdk.Model.{BatchMint, BatchMintInstruction}
use bubblegum_batch_sdk.MerkleTree.{
  match_size, tree_impls, creator_arms, size_arms, make_concurrent_merkle_tree, calc_canopy_size,
  calc_merkle_tree_size, restore_canopy_depth_from_buffer,
}
use bubblegum_batch_sdk.Builder.Hashing.{
  metadata_args_hash_new, hashes_of, hash_metadata_args, get_message, data_hash_of, creator_hash_of,
  creator_bytes,
}
use bubblegum_batch_sdk.Builder.State.{BatchMintBuilder, new, setup_collection_config}
use bubblegum_batch_sdk.Builder.Assets.{
  add_canopy_leaf, update_canopy, record_asset, add_asset, leaf_schema,
}
use bubblegum_batch_sdk.Builder.Signatures.{
  is_creator, no_extra_creators, signatures_or_default, check_extra_creators, verify_signature,
  sign_creator, sign_creators, sign_asset, or_return, add_signatures_for_verified_creators,
}
use bubblegum_batch_sdk.Builder.Building.{build_batch_mint}
use bubblegum_batch_sdk.Flow.Erased.{erase}
use bubblegum_batch_sdk.Flow.Signed.{IsSignable, latest, sign_asset_iff}
use bubblegum_batch_sdk.Flow.Signers.{HasSigners, Reach-HasSigners}
use bubblegum_batch_sdk.Client.Tree.{parse_tree_size, read_prepared_tree_size}
use bubblegum_batch_sdk.Client.Restore.{restore_batch_mint_builder}
use bubblegum_batch_sdk.Client.RoundTrip.{restore_batch_mint_builder-build}
use bubblegum_batch_sdk.Client.Unconfigured.{NeedsConfig}
use bubblegum_batch_sdk.Client.Rebuilt.{configure, build-restore_batch_mint_builder}
use bubblegum_batch_sdk.Examples.Reference.{reference, reference_hash_laws}
use bubblegum_batch_sdk.Examples.Runs.{
  configured_builder, signed_builder, signed-Reach, batch_mint, build_eq, hashes_at, creative,
}

-- A tree of depth 3 with a canopy of depth 2.
abbrev account : Bytes
account = 3 ∷ 8 ∷ replicate 196 0

account_size :
    read_prepared_tree_size reference (ok account)
    ≡ ok (record {
      max_depth = signed_builder.max_depth;
      max_buffer_size = signed_builder.max_buffer_size;
      canopy_depth = signed_builder.canopy_depth;
    })
unfolding read_prepared_tree_size parse_tree_size calc_merkle_tree_size size_arms calc_canopy_size
    restore_canopy_depth_from_buffer ilog2 new make_concurrent_merkle_tree match_size creator_arms
    tree_impls add_asset hash_metadata_args hashes_of update_canopy add_canopy_leaf record_asset
    bytes_eq to_le_bytes data_hash_of creator_hash_of insert creator_bytes setup_collection_config
    add_signatures_for_verified_creators or_return sign_asset sign_creators sign_creator
    verify_signature check_extra_creators no_extra_creators is_creator signatures_or_default
    metadata_args_hash_new get_message to_be_bytes lookup put get add leaf_schema
account_size = refl

restore_batch_mint_builder-build_example :
    (b' : BatchMintBuilder reference) × (restore_batch_mint_builder reference
        (ok account)
        batch_mint
      ≡ ok b')
    × (erase reference b' ≡ erase reference signed_builder)
    × AllPairs (SameSignatures reference) (values signed_builder.mints) (values b'.mints)
restore_batch_mint_builder-build_example =
    restore_batch_mint_builder-build reference reference_hash_laws (ok account) signed_builder
      batch_mint signed-Reach build_eq account_size

build-restore_batch_mint_builder_example :
    (b' : BatchMintBuilder reference) × (bm' : BatchMint reference) × (restore_batch_mint_builder
        reference
        (ok account)
        batch_mint
      ≡ ok b')
    × (b'.collection_config ≡ none)
    × (build_batch_mint reference (configure reference signed_builder.collection_config b')
        ≡ ok bm')
    × NeedsConfig reference bm'.batch_mints bm' (build_batch_mint reference b')
    × (bm' ≡ record batch_mint { batch_mints = bm'.batch_mints })
    × (map (unsigned reference) bm'.batch_mints ≡ map (unsigned reference) batch_mint.batch_mints)
    × AllPairs (SameSignatures reference) batch_mint.batch_mints bm'.batch_mints
build-restore_batch_mint_builder_example =
    build-restore_batch_mint_builder reference reference_hash_laws (ok account) signed_builder
      batch_mint signed-Reach build_eq account_size

abbrev received : HashMap Bytes
received = (3 ∷ [], 3 ∷ get_message (hashes_at 1 creative)) ∷ []

sign_asset_iff_example :
    (Succeeds (sign_asset reference configured_builder 1 received)
      ↔ IsSignable reference configured_builder 1 received)
    × ((b' : BatchMintBuilder reference)
        → sign_asset reference configured_builder 1 received ≡ ok b'
        → (m : BatchMintInstruction reference) × (signatures : HashMap Bytes) × (lookup 1
              configured_builder.mints
            ≡ some m)
          × (b' ≡ record configured_builder {
            mints =
                put 1 (record m { creator_signature = some signatures }) configured_builder.mints;
          })
          × ((key : Bytes)
              → get key signatures
                ≡ latest m.mint_args.creators received
                    (signatures_or_default m.creator_signature)
                    key))
sign_asset_iff_example = sign_asset_iff reference configured_builder 1 received

Reach-HasSigners_example : All (HasSigners reference) (values signed_builder.mints)
Reach-HasSigners_example = Reach-HasSigners reference reference_hash_laws signed-Reach
