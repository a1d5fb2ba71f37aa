-- ===== src/Examples/Sending.antt =====
-- The theorems on what the client sends at concrete inputs.
use bubblegum_batch_sdk.Base.{
  ℕ, ◌+◌, ◌≡◌, ◌↔◌, ap, true, List, [], ◌∷◌, ◌++◌, length, replicate, Outcome, ok, map,
}
use bubblegum_batch_sdk.Base.Bytes.{Bytes, bytes_eq, to_le_bytes, to_be_bytes}
use bubblegum_batch_sdk.Model.{BatchMint}
use bubblegum_batch_sdk.Errors.{BatchMintError}
use bubblegum_batch_sdk.MerkleTree.{
  calc_canopy_size, calc_tree_data_account_size, calc_merkle_tree_size, match_size, size_arms,
  restore_canopy_depth_from_buffer, creator_arms, tree_impls, make_concurrent_merkle_tree,
}
use bubblegum_batch_sdk.TreeData.{
  TreeDataInfo, from_bytes, split_at, non_empty_canopy_leaves, read_leaves,
}
use bubblegum_batch_sdk.Builder.Building.{
  build_batch_mint, check_collection, check_creator, check_creators, check_mints,
}
use bubblegum_batch_sdk.Validations.{validate_batch_mint}
use bubblegum_batch_sdk.Flow.Accepted.{expected_mint}
use bubblegum_batch_sdk.Client.Canopy.{
  AddCanopy, calc_canopy_to_add, skip_existing, add_canopy_from, add_canopy_instructions, chunks,
  same_nodes,
}
use bubblegum_batch_sdk.Client.Network.{
  create_account, prepare_tree_with, Transaction, Network, and_then, derive_tree_config_account,
  send_and_confirm_transaction, new_transaction, sign_transaction, get_mining_key,
  get_registrar_key, get_voter_key,
}
use bubblegum_batch_sdk.Client.Prepare.{check_tree_size, prepare_tree}
use bubblegum_batch_sdk.Client.Prepared.{
  CanPrepare, account_size, check_tree_size_iff, prepare_tree_sends,
}
use bubblegum_batch_sdk.Client.Finalize.{
  finalize_args, with_collection, finalize_tree_instruction, canopy_instructions, read_tree_data,
  finalize_tree, send_canopy, collection_signers,
}
use bubblegum_batch_sdk.Client.Expected.{CompletesCanopy}
use bubblegum_batch_sdk.Client.Sent.{
  instructions_of, order_of, canopy_order, final_order, finalize_tree_sends,
}
use bubblegum_batch_sdk.Base.Pow.{ilog2}
use bubblegum_batch_sdk.Base.Maps.{add, contains_key, get, lookup, put, values, insert}
use bubblegum_batch_sdk.Builder.Hashing.{
  creator_bytes, creator_hash_of, data_hash_of, get_message, hash_metadata_args, hashes_of,
  metadata_args_hash_new,
}
use bubblegum_batch_sdk.Builder.Signatures.{
  add_signatures_for_verified_creators, check_extra_creators, is_creator, no_extra_creators,
  or_return, sign_asset, sign_creator, sign_creators, signatures_or_default, verify_signature,
}
use bubblegum_batch_sdk.Builder.State.{new, setup_collection_config}
use bubblegum_batch_sdk.Builder.Assets.{
  add_asset, update_canopy, add_canopy_leaf, record_asset, leaf_schema,
}
use bubblegum_batch_sdk.Examples.Reference.{reference, reference_hash_laws, reference_tree_laws}
use bubblegum_batch_sdk.Examples.Runs.{IsOk, result, result-eq, signed_builder, signed-Reach}

-- An RPC node that knows one account, of a tree of depth 3 with an empty canopy of depth 2.
abbrev pub network : Network reference
network = record {
  get_account = λ sent key. ok (3 ∷ 8 ∷ replicate 196 0);
  get_minimum_balance = λ sent size. ok (2 + size);
  get_latest_blockhash = λ sent. ok (length sent ∷ []);
  send_and_confirm = λ sent tx. ok tx.blockhash;
  can_sign = λ tx. true;
  find_program_address = λ seeds program. program;
  find_mining_program_address = λ program staker pool. staker;
  dao_pubkey = 1 ∷ [];
  dao_governing_mint = 2 ∷ [];
  staking_id = 3 ∷ [];
  rewards_id = 4 ∷ [];
  bubblegum_id = 5 ∷ [];
  fee_receiver = 6 ∷ [];
  registrar_seed = 7 ∷ [];
  voter_seed = 8 ∷ [];
  reward_pool_address = 9 ∷ [];
}

check_tree_size_iff_example :
    (check_tree_size reference 20 256 5 ≡ ok 9000)
    ↔ (CanPrepare reference 20 256 5 × (9000 ≡ account_size reference 20 256 5))
check_tree_size_iff_example = check_tree_size_iff reference 20 256 5 9000

abbrev prepared : Outcome (BatchMintError reference) Bytes × List (Transaction reference)
prepared = prepare_tree reference network (1 ∷ []) (2 ∷ []) (3 ∷ []) 3 8 2 []

prepared-IsOk : IsOk prepared.0
unfolding prepare_tree and_then check_tree_size calc_tree_data_account_size calc_merkle_tree_size
    match_size size_arms send_and_confirm_transaction new_transaction sign_transaction
prepared-IsOk = tt

prepare_tree_sends_example :
    CanPrepare reference 3 8 2
    × (balance : ℕ) × (network.get_minimum_balance [] (account_size reference 3 8 2) ≡ ok balance)
    × (instructions_of prepared.1
        ≡ instructions_of {x = reference} []
          ++ (create_account (1 ∷ []) (3 ∷ []) balance (account_size reference 3 8 2)
              ∷ prepare_tree_with (record {
                payer = 2 ∷ [];
                tree_creator = 2 ∷ [];
                max_depth = 3;
                max_buffer_size = 8;
                merkle_tree = 3 ∷ [];
                tree_config = derive_tree_config_account reference network (3 ∷ []);
              })
              ∷ [])
            ∷ [])
prepare_tree_sends_example =
    prepare_tree_sends reference network (1 ∷ []) (2 ∷ []) (3 ∷ []) 3 8 2 [] prepared.1
      (result prepared.0 prepared-IsOk)
      (ap (λ o. (o, prepared.1)) (result-eq prepared.0 prepared-IsOk))

abbrev finalized : Outcome (BatchMintError reference) Bytes × List (Transaction reference)
finalized =
    finalize_tree reference network (1 ∷ []) "url" "hash" signed_builder (2 ∷ []) (3 ∷ []) []

finalized-IsOk : IsOk finalized.0
unfolding calc_tree_data_account_size calc_merkle_tree_size match_size size_arms calc_canopy_size
    restore_canopy_depth_from_buffer creator_arms tree_impls make_concurrent_merkle_tree from_bytes
    split_at non_empty_canopy_leaves read_leaves ilog2 bytes_eq to_be_bytes to_le_bytes add
    contains_key get lookup put values insert calc_canopy_to_add skip_existing add_canopy_from
    add_canopy_instructions chunks same_nodes build_batch_mint check_collection check_creator
    check_creators check_mints creator_bytes creator_hash_of data_hash_of get_message
    hash_metadata_args hashes_of metadata_args_hash_new add_signatures_for_verified_creators
    check_extra_creators is_creator no_extra_creators or_return sign_asset sign_creator
    sign_creators signatures_or_default verify_signature new setup_collection_config add_asset
    update_canopy add_canopy_leaf record_asset leaf_schema finalize_tree read_tree_data
    canopy_instructions collection_signers finalize_args finalize_tree_instruction send_canopy
    with_collection and_then derive_tree_config_account get_mining_key get_registrar_key
    get_voter_key new_transaction send_and_confirm_transaction sign_transaction
finalized-IsOk = tt

finalize_tree_sends_example :
    (info : TreeDataInfo) × (is : List AddCanopy) × (bm : BatchMint reference) × (read_tree_data
        reference network signed_builder.tree_account []
      ≡ ok info)
    × CompletesCanopy reference network info signed_builder is
    × (build_batch_mint reference signed_builder ≡ ok bm)
    × (validate_batch_mint reference bm (expected_mint reference signed_builder.collection_config)
        ≡ ok tt)
    × (map order_of finalized.1
        ≡ (map (order_of {x = reference}) []
            ++ map (canopy_order reference network signed_builder.tree_account (2 ∷ [])) is)
          ++ final_order reference network (1 ∷ []) "url" "hash" signed_builder (2 ∷ []) (3 ∷ [])
            ∷ [])
finalize_tree_sends_example =
    finalize_tree_sends reference network reference_tree_laws reference_hash_laws (1 ∷ []) "url"
      "hash" signed_builder (2 ∷ []) (3 ∷ []) [] finalized.1 (result finalized.0 finalized-IsOk)
      signed-Reach (ap (λ o. (o, finalized.1)) (result-eq finalized.0 finalized-IsOk))
