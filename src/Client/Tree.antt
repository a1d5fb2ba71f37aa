-- ===== src/Client/Tree.antt =====
-- src/batch_mint_client.rs: `parse_tree_size` and `create_batch_mint_builder`.
use bubblegum_batch_sdk.Base.{
  ℕ, ◌-◌, ◌%◌, ◌^◌, length, leb, Outcome, ok, assert, ok_or, map_err, ◌>>=◌, ◌>>◌,
}
use bubblegum_batch_sdk.Base.Bytes.{Bytes}
use bubblegum_batch_sdk.Deps.{Deps}
use bubblegum_batch_sdk.Errors.{
  BatchMintError, solana_client_err, unable_to_parse_tree_err, unexpected_tree_size,
}
use bubblegum_batch_sdk.MerkleTree.{calc_merkle_tree_size, restore_canopy_depth_from_buffer}
use bubblegum_batch_sdk.Builder.State.{BatchMintBuilder, new}

pub record TreeSize : Type 0 where
  pub max_depth : ℕ
  pub max_buffer_size : ℕ
  pub canopy_depth : ℕ

module _ (x : Deps) where
  -- The data of an account.
  unfoldable pub parse_tree_size : Bytes → Outcome (BatchMintError x) TreeSize
  parse_tree_size data' = do
    merkle_tree ← map_err unable_to_parse_tree_err (x.merkle_tree_from_bytes data')
    let max_depth = merkle_tree.max_depth
    let max_buffer_size = merkle_tree.max_buffer_size
    merkle_tree_size ←
        ok_or (calc_merkle_tree_size x max_depth max_buffer_size 0)
          (unexpected_tree_size max_depth max_buffer_size)
    assert (leb merkle_tree_size (length merkle_tree.serialized_tree))
    let canopy_buf_size = length merkle_tree.serialized_tree - merkle_tree_size
    ok (record {
      max_depth = max_depth;
      max_buffer_size = max_buffer_size;
      canopy_depth = restore_canopy_depth_from_buffer (canopy_buf_size % 2 ^ 32);
    })

  -- `account` is the answer of the RPC node.
  unfoldable pub read_prepared_tree_size :
      Outcome x.ClientError Bytes → Outcome (BatchMintError x) TreeSize
  read_prepared_tree_size account = do
    data' ← map_err solana_client_err account
    parse_tree_size data'

  unfoldable pub create_batch_mint_builder :
      Outcome x.ClientError Bytes → Bytes → Outcome (BatchMintError x) (BatchMintBuilder x)
  create_batch_mint_builder account tree_account = do
    size ← read_prepared_tree_size account
    new x tree_account size.max_depth size.max_buffer_size size.canopy_depth
