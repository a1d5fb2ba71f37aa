-- ===== src/Flow/Total.antt =====
-- When `new` and `add_asset` of src/batch_mint_builder.rs succeed, and the root of `build_batch_mint`.
use bubblegum_batch_sdk.Base.{
  ℕ, suc, ◌^◌, ◌≤◌, ◌<◌, ◌≡◌, ◌≢◌, refl, sym, ap, ◌∙◌, true, false, none, List, [], ◌∷◌, ◌++◌,
  length, arith, ltb, ltb→lt, Bool-cases, inl, inr, ok, err, ok_injective, unwrap, >>=-eq-ok,
  Succeeds, bind-Succeeds, map,
}
use bubblegum_batch_sdk.Base.Bytes.{Bytes}
use bubblegum_batch_sdk.Base.Maps.{values, length-values}
use bubblegum_batch_sdk.Deps.{Deps, Metadata}
use bubblegum_batch_sdk.Deps.Data.{ChangeLog}
use bubblegum_batch_sdk.Deps.Merkle.{node}
use bubblegum_batch_sdk.Deps.Laws.{HashLaws, TreeLaws}
use bubblegum_batch_sdk.Errors.{BatchMintError, unexpected_tree_size}
use bubblegum_batch_sdk.Model.{BatchMint, from_spl}
use bubblegum_batch_sdk.Builder.Changelog.{make_changelog_path}
use bubblegum_batch_sdk.MerkleTree.{make_concurrent_merkle_tree}
use bubblegum_batch_sdk.MerkleTree.Sizes.{is_supported, make_concurrent_merkle_tree_lem}
use bubblegum_batch_sdk.Builder.Hashing.{hash_metadata_args, hashes_of}
use bubblegum_batch_sdk.Builder.State.{BatchMintBuilder, new}
use bubblegum_batch_sdk.Builder.Assets.{leaf_schema, update_canopy, record_asset, add_asset}
use bubblegum_batch_sdk.Builder.Building.{check_mints, build_batch_mint}
use bubblegum_batch_sdk.Builder.Canopy.{log_of, add_canopy_leaf_total}
use bubblegum_batch_sdk.Flow.Canopy.{asset_hashes, length-leaves, Reach-IsTracked, entry_hashes}
use bubblegum_batch_sdk.Flow.Invariant.{IsConsistent, leaf_hash-leaf_schema}
use bubblegum_batch_sdk.Flow.Reach.{Reach, Reach-IsConsistent}

module _ (x : Deps) where
  -- The hashes and the count once an asset is recorded.
  pub recorded_hashes :
      HashLaws x
      → (b : BatchMintBuilder x) (owner delegate : Bytes) (metadata_args : Metadata x)
        (args : Bytes) (next : x.Tree) (log : ChangeLog) (canopy : List Bytes)
      → IsConsistent x b
      → let h = hashes_of x (length b.mints) b.tree_account owner delegate metadata_args args in
        let b' = (record_asset x b owner delegate metadata_args h next log canopy).1 in
        (asset_hashes x b' ≡ asset_hashes x b ++ h.hashed_leaf ∷ [])
        × (length b'.mints ≡ suc (length b.mints))
  unfolding record_asset
  recorded_hashes laws b owner delegate metadata_args args next log canopy v =
      let n : ℕ = length b.mints in
      let h = hashes_of x n b.tree_account owner delegate metadata_args args in
      entry_hashes x b
        (record {
          tree_update = record {
            id = b.tree_account;
            path = map from_spl (make_changelog_path log);
            seq = x.merkle.sequence_number next;
            index = log.index;
          };
          leaf_update = leaf_schema x h owner delegate;
          mint_args = metadata_args;
          authority = owner;
          creator_signature = none;
        })
        h.hashed_leaf (record_asset x b owner delegate metadata_args h next log canopy).1 v
        (leaf_hash-leaf_schema x laws n b.tree_account owner delegate args metadata_args)
        (unfold hashes_of in refl)

module _ (x : Deps) (trees : TreeLaws x) where
  -- Over a tree that behaves as documented, a builder can be made exactly for the supported
  -- sizes. For any other the error names the size.
  pub new_total :
      (tree : Bytes) (d s c : ℕ)
      → (is_supported d s ≡ true → Succeeds (new x tree d s c))
        × (is_supported d s ≡ false → new x tree d s c ≡ err (unexpected_tree_size d s))
  unfolding new
  new_total tree d s c = (
    λ supported.
        let (root, t, initialized) = trees.initialize_total d s supported in
        bind-Succeeds (make_concurrent_merkle_tree x d s) _ (x.new_tree d s)
          (rw (make_concurrent_merkle_tree_lem x d s, supported))
          (bind-Succeeds (unwrap {F = BatchMintError x} (x.merkle.initialize (x.new_tree d s))) _
            (root, t) (rw initialized) (_, refl)),
    λ unsupported. rw (make_concurrent_merkle_tree_lem x d s, unsupported),
  )

  update_canopy_total :
      (b : BatchMintBuilder x) (leaf : Bytes)
      → b.canopy_depth ≤ b.max_depth
      → (canopy : List Bytes) × (update_canopy x b (log_of x b.max_depth (asset_hashes x b) leaf)
          ≡ ok canopy)
  unfolding update_canopy
  update_canopy_total b leaf le = elim (Bool-cases (ltb 0 b.canopy_depth)) [
    | inl some_canopy ↦
        let (canopy, e) =
          add_canopy_leaf_total x {E = BatchMintError x} b.max_depth b.canopy_depth
            (asset_hashes x b) b.canopy_leaves leaf (ltb→lt 0 b.canopy_depth some_canopy) le in
        (canopy, rw some_canopy e)
    | inr no_canopy ↦ (b.canopy_leaves, rw no_canopy)
  ]

  -- Over a tree and hashes that behave as documented, on a builder that can be reached: while the
  -- tree has room, an asset whose arguments can be serialized and whose hash is not the
  -- empty node is added, if the canopy is not deeper than the tree. It gets the next number.
  pub add_asset_total :
      HashLaws x
      → (b : BatchMintBuilder x) (owner delegate : Bytes) (metadata_args : Metadata x)
        (args : Bytes)
      → Reach x b
      → b.canopy_depth ≤ b.max_depth
      → length b.mints < 2 ^ b.max_depth
      → x.try_to_vec metadata_args ≡ ok args
      → (hashes_of x (length b.mints) b.tree_account owner delegate metadata_args args).hashed_leaf
        ≢ x.empty
      → (b' : BatchMintBuilder x) × (add_asset x b owner delegate metadata_args
          ≡ ok (hashes_of x (length b.mints) b.tree_account owner delegate metadata_args args, b'))
        × (length b'.mints ≡ suc (length b.mints))
        × (asset_hashes x b'
            ≡ asset_hashes x b
              ++ (hashes_of x
                  (length b.mints)
                  b.tree_account
                  owner
                  delegate
                  metadata_args
                  args).hashed_leaf
                ∷ [])
  unfolding add_asset hash_metadata_args
  add_asset_total laws b owner delegate metadata_args args r le room serialized nonempty =
      let n : ℕ = length b.mints in
      let h = hashes_of x n b.tree_account owner delegate metadata_args args in
      let leaf = h.hashed_leaf in
      let t = Reach-IsTracked x trees laws r in
      let v = Reach-IsConsistent x laws r in
      let count = length-leaves x (values b.mints) ∙ length-values b.mints in
      let (root, next, appended) =
        trees.append_total b.max_depth b.merkle (asset_hashes x b) leaf t.holds
          (omega (arith, count)) nonempty in
      let (holds, fits, logged) =
        trees.append_lem b.max_depth b.merkle next (asset_hashes x b) leaf root t.holds appended in
      let log = log_of x b.max_depth (asset_hashes x b) leaf in
      let (canopy, canopy_eq) = update_canopy_total b leaf le in
      let result = record_asset x b owner delegate metadata_args h next log canopy in
      let (hashes_eq, length_eq) =
        recorded_hashes x laws b owner delegate metadata_args args next log canopy v in
      (
        result.1,
        rw (serialized, appended, logged, canopy_eq) (unfold record_asset in refl),
        length_eq,
        hashes_eq,
      )

  -- Over a tree and hashes that behave as documented, the root of a batch mint that is built
  -- from a builder that can be reached is that of the merkle tree over its assets' hashes.
  pub merkle_root_lem :
      HashLaws x
      → (b : BatchMintBuilder x) (bm : BatchMint x) → Reach x b
      → build_batch_mint x b ≡ ok bm
      → bm.merkle_root ≡ node x b.max_depth 0 (asset_hashes x b)
  unfolding build_batch_mint
  merkle_root_lem laws b bm r h =
      let (u, checked, built) =
        >>=-eq-ok (check_mints x b.collection_config (values b.mints)) _ h in
      ap (λ m. m.merkle_root) (sym (ok_injective built))
      ∙ trees.get_root_lem b.max_depth b.merkle (asset_hashes x b)
          (Reach-IsTracked x trees laws r).holds
