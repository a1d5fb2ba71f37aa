-- ===== src/Builder/Assets.antt =====
-- src/batch_mint_builder.rs: `add_asset`.
use bubblegum_batch_sdk.Base.{
  ℕ, ◌+◌, ◌-◌, ◌/◌, ◌^◌, none, List, [], ◌∷◌, ◌++◌, map, length, get_elem?, set, ltb, leb,
  if◌then◌else◌, Outcome, ok, unwrap, assert, expect, ◌>>=◌, ◌>>◌,
}
use bubblegum_batch_sdk.Base.Bytes.{Bytes}
use bubblegum_batch_sdk.Base.Maps.{insert}
use bubblegum_batch_sdk.Deps.{Deps, Metadata}
use bubblegum_batch_sdk.Deps.Data.{ChangeLog, LeafSchema}
use bubblegum_batch_sdk.Errors.{BatchMintError}
use bubblegum_batch_sdk.Model.{BatchMintInstruction, from_spl}
use bubblegum_batch_sdk.Builder.Hashing.{MetadataArgsHash, hash_metadata_args}
use bubblegum_batch_sdk.Builder.Changelog.{make_changelog_path}
use bubblegum_batch_sdk.Builder.State.{BatchMintBuilder}

-- The branch of `add_asset` under `canopy_depth > 0`. The two subtractions panic on an underflow,
-- and so does the access to the path.
unfoldable pub add_canopy_leaf :
    {E : Type 0} → ℕ → ℕ → List Bytes → ChangeLog → Outcome E (List Bytes)
add_canopy_leaf max_depth canopy_depth canopy_leaves changelog = do
  assert (leb canopy_depth (length changelog.path))
  let path_ind = length changelog.path - canopy_depth
  assert (leb canopy_depth max_depth)
  let canopy_ind = changelog.index / 2 ^ (max_depth - canopy_depth)
  node ← expect (get_elem? changelog.path path_ind)
  ok (
      if ltb (length canopy_leaves) (canopy_ind + 1)
      then canopy_leaves ++ node ∷ []
      else set canopy_leaves canopy_ind node)

module _ (x : Deps) where
  -- The leaf that the hashes describe.
  unfoldable pub leaf_schema : MetadataArgsHash → Bytes → Bytes → LeafSchema
  leaf_schema h owner delegate = record {
    id = h.id;
    owner = owner;
    delegate = delegate;
    nonce = h.nonce;
    data_hash = h.data_hash;
    creator_hash = h.creator_hash;
  }

  -- The entry and the new state, when the tree has taken the leaf and the canopy is up to date.
  unfoldable pub record_asset :
      BatchMintBuilder x
      → Bytes
      → Bytes
      → Metadata x
      → MetadataArgsHash
      → x.Tree
      → ChangeLog
      → List Bytes
      → MetadataArgsHash × BatchMintBuilder x
  record_asset b owner delegate metadata_args h merkle changelog canopy_leaves =
      let batch_mint : BatchMintInstruction x = record {
        tree_update = record {
          id = b.tree_account;
          path = map from_spl (make_changelog_path changelog);
          seq = x.merkle.sequence_number merkle;
          index = changelog.index;
        };
        leaf_update = leaf_schema h owner delegate;
        mint_args = metadata_args;
        authority = owner;
        creator_signature = none;
      } in
      (
        h,
        record b {
          merkle = merkle;
          last_leaf_hash = h.hashed_leaf;
          canopy_leaves = canopy_leaves;
          mints = insert h.nonce batch_mint b.mints;
        },
      )

  -- The canopy that goes with the changelog.
  unfoldable pub update_canopy :
      BatchMintBuilder x → ChangeLog → Outcome (BatchMintError x) (List Bytes)
  update_canopy b changelog =
      if ltb 0 b.canopy_depth
      then add_canopy_leaf b.max_depth b.canopy_depth b.canopy_leaves changelog
      else ok b.canopy_leaves

  unfoldable pub add_asset :
      BatchMintBuilder x
      → Bytes
      → Bytes
      → Metadata x
      → Outcome (BatchMintError x) (MetadataArgsHash × BatchMintBuilder x)
  add_asset b owner delegate metadata_args = do
    h ← hash_metadata_args x (length b.mints) b.tree_account owner delegate metadata_args
    appended ← unwrap (x.merkle.append b.merkle h.hashed_leaf)
    changelog ← expect (x.merkle.change_logs appended.1 (x.merkle.active_index appended.1))
    canopy_leaves ← update_canopy b changelog
    ok (record_asset b owner delegate metadata_args h appended.1 changelog canopy_leaves)
