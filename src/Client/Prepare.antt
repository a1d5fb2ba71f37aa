-- ===== src/Client/Prepare.antt =====
-- src/batch_mint_client.rs: `prepare_tree`.
use Prim.Native.String.{◌++◌}
use bubblegum_batch_sdk.Base.{ℕ, ◌-◌, [], ◌∷◌, ltb, leb, Outcome, guard, ok_or, map_err, ◌>>◌}
use bubblegum_batch_sdk.Base.Text.{show_ℕ}
use bubblegum_batch_sdk.Deps.{Deps}
use bubblegum_batch_sdk.Errors.{
  BatchMintError, solana_client_err, illegal_argumets, unexpected_tree_size,
}
use bubblegum_batch_sdk.MerkleTree.{calc_tree_data_account_size}
use bubblegum_batch_sdk.Client.Network.{
  create_account, prepare_tree_with, Network, Call, and_then, derive_tree_config_account,
  send_and_confirm_transaction,
}

module _ (x : Deps) where
  -- The checks before anything is asked of the network. The answer is the size of the account.
  unfoldable pub check_tree_size : ℕ → ℕ → ℕ → Outcome (BatchMintError x) ℕ
  check_tree_size max_depth max_buf_size canopy_depth = do
    guard (ltb canopy_depth max_depth)
        (illegal_argumets "Canopy depth should be less than tree maximum depth")
    let required_canopy = max_depth - x.max_acc_proofs_size
    guard (leb required_canopy canopy_depth) (
        illegal_argumets (
          "Three of depth="
          ++ show_ℕ max_depth
          ++ " requires as least canopy="
          ++ show_ℕ required_canopy))
    ok_or (calc_tree_data_account_size x max_depth max_buf_size canopy_depth)
        (unexpected_tree_size max_depth max_buf_size)

module _ (x : Deps) (net : Network x) where
  unfoldable pub prepare_tree : x.Keypair → x.Keypair → x.Keypair → ℕ → ℕ → ℕ → Call x x.Signature
  prepare_tree payer tree_creator tree_data_account max_depth max_buf_size canopy_depth sent =
      and_then (check_tree_size x max_depth max_buf_size canopy_depth, sent)
        (λ merkle_tree_size sent.
          and_then (map_err solana_client_err (net.get_minimum_balance sent merkle_tree_size), sent)
            (λ balance.
              send_and_confirm_transaction x net
                (create_account (x.pubkey payer) (x.pubkey tree_data_account) balance
                    merkle_tree_size
                  ∷ prepare_tree_with (record {
                    payer = x.pubkey tree_creator;
                    tree_creator = x.pubkey tree_creator;
                    max_depth = max_depth;
                    max_buffer_size = max_buf_size;
                    merkle_tree = x.pubkey tree_data_account;
                    tree_config = derive_tree_config_account x net (x.pubkey tree_data_account);
                  })
                  ∷ [])
                (x.pubkey payer) (payer ∷ tree_creator ∷ tree_data_account ∷ [])))
