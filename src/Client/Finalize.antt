-- ===== src/Client/Finalize.antt =====
-- src/batch_mint_client.rs: `finalize_tree`.
use Prim.Native.String.{String}
use bubblegum_batch_sdk.Base.{
  ◌-◌, ◌%◌, ◌^◌, Option, none, some, List, [], ◌∷◌, ◌++◌, length, ltb, if◌then◌else◌, Outcome, ok,
  map_err, ◌>>=◌,
}
use bubblegum_batch_sdk.Base.Bytes.{Bytes}
use bubblegum_batch_sdk.Deps.{Deps}
use bubblegum_batch_sdk.Errors.{BatchMintError, solana_client_err}
use bubblegum_batch_sdk.Model.{BatchMint, CollectionConfig}
use bubblegum_batch_sdk.TreeData.{TreeDataInfo, from_bytes}
use bubblegum_batch_sdk.Builder.State.{BatchMintBuilder}
use bubblegum_batch_sdk.Builder.Building.{build_batch_mint}
use bubblegum_batch_sdk.Client.Canopy.{AddCanopy, add_canopy_instructions, calc_canopy_to_add}
use bubblegum_batch_sdk.Client.Network.{
  Instruction, set_compute_unit_limit, add_canopy, finalize_tree_with_root,
  finalize_tree_with_root_and_collection, FinalizeTree, Transaction, Network, Call, and_then,
  derive_tree_config_account, get_registrar_key, get_voter_key, get_mining_key,
  send_and_confirm_transaction,
}

module _ (x : Deps) (net : Network x) where
  -- What both builders are given.
  unfoldable pub finalize_args :
      x.Keypair → BatchMint x → String → String → List Bytes → Bytes → Bytes → Bytes → FinalizeTree
  finalize_args payer batch_mint metadata_url metadata_hash remaining_accounts tree_config_account
        staker tree_creator =
      record {
        merkle_tree = batch_mint.tree_id;
        tree_config = tree_config_account;
        staker = staker;
        fee_receiver = net.fee_receiver;
        tree_creator_or_delegate = tree_creator;
        registrar = get_registrar_key x net;
        voter = get_voter_key x net (get_registrar_key x net) (x.pubkey payer);
        root = batch_mint.merkle_root;
        rightmost_leaf = batch_mint.last_leaf_hash;
        rightmost_index = length batch_mint.batch_mints % 2 ^ 32 - 1;
        metadata_url = metadata_url;
        metadata_hash = metadata_hash;
        remaining_accounts = remaining_accounts;
        mining = get_mining_key x net staker;
        payer = x.pubkey payer;
      }

  unfoldable pub with_collection : Option (CollectionConfig x) → FinalizeTree → Instruction
  with_collection none args = finalize_tree_with_root args
  with_collection (some config) args = finalize_tree_with_root_and_collection args (record {
    collection_authority = x.pubkey config.collection_authority;
    collection_mint = config.collection_mint;
    collection_edition = config.edition_account;
    collection_metadata = config.collection_metadata;
    collection_authority_record_pda = config.collection_authority_record_pda;
  })

  unfoldable pub finalize_tree_instruction :
      x.Keypair
      → BatchMintBuilder x
      → String
      → String
      → List Bytes
      → Bytes
      → Bytes
      → Bytes
      → Outcome (BatchMintError x) Instruction
  finalize_tree_instruction payer b metadata_url metadata_hash remaining_accounts
        tree_config_account staker tree_creator =
      do
        batch_mint ← build_batch_mint x b
        ok (
            with_collection b.collection_config (
              finalize_args payer batch_mint metadata_url metadata_hash remaining_accounts
                tree_config_account staker tree_creator))

  -- The loop over the chunks of the canopy: one transaction for each.
  unfoldable pub send_canopy : Bytes → Bytes → x.Keypair → List AddCanopy → Call x (Unit {0})
  send_canopy tree_config_account tree_account tree_creator [] sent = (ok tt, sent)
  send_canopy tree_config_account tree_account tree_creator (i ∷ is) sent =
      and_then
        (send_and_confirm_transaction x net
          (set_compute_unit_limit 1000000
            ∷ add_canopy tree_config_account tree_account (x.pubkey tree_creator) i
            ∷ [])
          (x.pubkey tree_creator) (tree_creator ∷ []) sent)
        (λ signature. send_canopy tree_config_account tree_account tree_creator is)

  -- The nodes that the account lacks, as instructions.
  unfoldable pub canopy_instructions :
      TreeDataInfo → BatchMintBuilder x → Outcome (BatchMintError x) (List AddCanopy)
  canopy_instructions tree_data_info b =
      if ltb 0 tree_data_info.canopy_depth
      then (do
        to_add ← calc_canopy_to_add x tree_data_info b
        ok (add_canopy_instructions to_add.0 to_add.1))
      else ok []

  unfoldable pub collection_signers : Option (CollectionConfig x) → List x.Keypair
  collection_signers none = []
  collection_signers (some config) = config.collection_authority ∷ []

  -- The account as it is now.
  unfoldable pub read_tree_data :
      Bytes → List (Transaction x) → Outcome (BatchMintError x) TreeDataInfo
  read_tree_data tree_account sent = do
    account ← map_err solana_client_err (net.get_account sent tree_account)
    from_bytes x account

  unfoldable pub finalize_tree :
      x.Keypair → String → String → BatchMintBuilder x → x.Keypair → x.Keypair → Call x x.Signature
  finalize_tree payer metadata_url metadata_hash b tree_creator staker sent =
      let tree_config_account = derive_tree_config_account x net b.tree_account in
      and_then (read_tree_data b.tree_account sent, sent)
        (λ tree_data_info sent.
          and_then (canopy_instructions tree_data_info b, sent)
            (λ instructions sent.
              and_then
                (send_canopy tree_config_account b.tree_account tree_creator instructions sent)
                (λ done sent.
                  and_then
                    (
                      finalize_tree_instruction payer b metadata_url metadata_hash
                          (x.merkle.get_rightmost_proof b.merkle) tree_config_account
                          (x.pubkey staker) (x.pubkey tree_creator),
                      sent,
                    )
                    (λ finalize_instruction.
                      send_and_confirm_transaction x net
                        (set_compute_unit_limit 1000000 ∷ finalize_instruction ∷ [])
                        (x.pubkey tree_creator)
                        (payer ∷ tree_creator ∷ staker ∷ []
                          ++ collection_signers b.collection_config)))))
