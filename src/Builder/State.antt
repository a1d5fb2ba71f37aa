-- ===== src/Builder/State.antt =====
-- src/batch_mint_builder.rs: the state of the builder, `new` and `setup_collection_config`.
use bubblegum_batch_sdk.Base.{
  ℕ, Option, none, some, List, [], replicate, Outcome, ok, unwrap, ◌>>=◌,
}
use bubblegum_batch_sdk.Base.Bytes.{Bytes}
use bubblegum_batch_sdk.Base.Maps.{BTreeMap}
use bubblegum_batch_sdk.Deps.{Deps}
use bubblegum_batch_sdk.Errors.{BatchMintError}
use bubblegum_batch_sdk.Model.{BatchMintInstruction, CollectionConfig}
use bubblegum_batch_sdk.MerkleTree.{make_concurrent_merkle_tree}

pub record BatchMintBuilder (x : Deps) : Type 0 where
  pub tree_account : Bytes
  pub max_depth : ℕ
  pub max_buffer_size : ℕ
  pub canopy_depth : ℕ
  pub merkle : x.Tree
  pub mints : BTreeMap (BatchMintInstruction x)
  pub last_leaf_hash : Bytes
  pub canopy_leaves : List Bytes
  pub collection_config : Option (CollectionConfig x)

module _ (x : Deps) where
  unfoldable pub new : Bytes → ℕ → ℕ → ℕ → Outcome (BatchMintError x) (BatchMintBuilder x)
  new tree_account max_depth max_buffer_size canopy_depth = do
    merkle ← make_concurrent_merkle_tree x max_depth max_buffer_size
    initialized ← unwrap (x.merkle.initialize merkle)
    ok (record {
      tree_account = tree_account;
      max_depth = max_depth;
      max_buffer_size = max_buffer_size;
      canopy_depth = canopy_depth;
      merkle = initialized.1;
      mints = [];
      last_leaf_hash = replicate 32 0;
      canopy_leaves = [];
      collection_config = none;
    })

  unfoldable pub setup_collection_config :
      BatchMintBuilder x → CollectionConfig x → BatchMintBuilder x
  setup_collection_config b collection_config = record b {
    collection_config = some collection_config;
  }
