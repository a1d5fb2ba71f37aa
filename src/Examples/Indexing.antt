-- ===== src/Examples/Indexing.antt =====
-- The built batch mint, as it is converted for an indexer.
use bubblegum_batch_sdk.Base.{◌≡◌, map, ok}
use bubblegum_batch_sdk.Base.Bytes.{Bytes}
use bubblegum_batch_sdk.Model.Instruction.{to_bubblegum_instruction}
use bubblegum_batch_sdk.MerkleTree.{make_concurrent_merkle_tree}
use bubblegum_batch_sdk.Validations.Indexed.{Indexes, validate-to_bubblegum_instruction}
use bubblegum_batch_sdk.Flow.Accepted.{expected_mint, validate-build_batch_mint}
use bubblegum_batch_sdk.Examples.Reference.{reference, reference_hash_laws}
use bubblegum_batch_sdk.Examples.Runs.{signed_builder, signed-Reach, batch_mint, build_eq}

validate-to_bubblegum_instruction_example :
    (empty_tree start final : reference.Tree) × (first_root : Bytes) × (make_concurrent_merkle_tree
        reference batch_mint.max_depth batch_mint.max_buffer_size
      ≡ ok empty_tree)
    × (reference.merkle.initialize empty_tree ≡ ok (first_root, start))
    × Indexes reference batch_mint.tree_id start
        (map (to_bubblegum_instruction reference) batch_mint.batch_mints)
        final
    × (reference.merkle.get_root final ≡ batch_mint.merkle_root)
validate-to_bubblegum_instruction_example =
    validate-to_bubblegum_instruction reference batch_mint
      (expected_mint reference signed_builder.collection_config)
      (validate-build_batch_mint reference reference_hash_laws signed_builder batch_mint
        signed-Reach build_eq)
