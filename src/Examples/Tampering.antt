-- ===== src/Examples/Tampering.antt =====
-- A valid batch mint that is tampered with.
use bubblegum_batch_sdk.Base.{ℕ, ◌≡◌, ◌≢◌, false, List, ◌∷◌, ◌++◌, err, Option}
use bubblegum_batch_sdk.Base.Bytes.{Bytes}
use bubblegum_batch_sdk.Errors.{
  unexpected_tree_size, from_batch_mint_error, invalid_root, pda_check_fail, invalid_data_hash,
  invalid_creators_hash,
}
use bubblegum_batch_sdk.Model.{BatchMintInstruction}
use bubblegum_batch_sdk.MerkleTree.Sizes.{is_supported}
use bubblegum_batch_sdk.Validations.{validate_batch_mint}
use bubblegum_batch_sdk.Validations.Tampered.{with_leaf, validate_tampered}
use bubblegum_batch_sdk.Flow.Accepted.{expected_mint, validate-build_batch_mint}
use bubblegum_batch_sdk.Examples.Reference.{reference, reference_hash_laws}
use bubblegum_batch_sdk.Examples.Runs.{signed_builder, signed-Reach, batch_mint, build_eq}

abbrev expected : Option Bytes
expected = expected_mint reference signed_builder.collection_config

validate_tampered_example :
    ((root : Bytes)
      → root ≢ batch_mint.merkle_root
      → validate_batch_mint reference (record batch_mint { merkle_root = root }) expected
        ≡ err (invalid_root "hash" "hash"))
    × ((d s : ℕ)
        → is_supported d s ≡ false
        → validate_batch_mint reference
            (record batch_mint { max_depth = d; max_buffer_size = s })
            expected
          ≡ err (from_batch_mint_error (unexpected_tree_size d s)))
    × ((before after : List (BatchMintInstruction reference)) (m : BatchMintInstruction reference)
          (other : Bytes)
        → batch_mint.batch_mints ≡ before ++ m ∷ after
        → (other ≢ m.leaf_update.id
            → validate_batch_mint reference
                (with_leaf reference batch_mint before m after
                  (record m.leaf_update { id = other }))
                expected
              ≡ err (pda_check_fail "key" "key"))
          × (other ≢ m.leaf_update.data_hash
              → validate_batch_mint reference
                  (with_leaf reference batch_mint before m after
                    (record m.leaf_update { data_hash = other }))
                  expected
                ≡ err (invalid_data_hash "hash" "hash"))
          × (other ≢ m.leaf_update.creator_hash
              → validate_batch_mint reference
                  (with_leaf reference batch_mint before m after
                    (record m.leaf_update { creator_hash = other }))
                  expected
                ≡ err (invalid_creators_hash "hash" "hash")))
validate_tampered_example = validate_tampered reference batch_mint expected (
    validate-build_batch_mint reference reference_hash_laws signed_builder batch_mint signed-Reach
      build_eq)
