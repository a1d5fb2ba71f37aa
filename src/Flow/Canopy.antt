-- ===== src/Flow/Canopy.antt =====
-- The tree and the canopy of a builder of src/batch_mint_builder.rs against the merkle tree over its
-- assets' hashes.
use bubblegum_batch_sdk.Base.{
  ℕ, suc, ◌-◌, ◌<◌, ◌≡◌, refl, sym, ap, ◌∙◌, subst, none, some, List, [], ◌∷◌, ◌++◌, length,
  length-snoc, map, arith, ltb, ltb→lt, Bool-cases, inl, inr, ok, >>=-eq-ok, unwrap-eq-ok,
  ok_injective, unwrap, some_injective, ◌==◌,
}
use bubblegum_batch_sdk.Base.Bytes.{Bytes}
use bubblegum_batch_sdk.Base.Maps.{HashMap, BTreeMap, lookup, put, values, insert}
use mathlib.Core.Path.{subst₃}
use bubblegum_batch_sdk.Deps.{Deps, Metadata}
use bubblegum_batch_sdk.Deps.Data.{ChangeLog}
use bubblegum_batch_sdk.Deps.Laws.{HashLaws, TreeLaws}
use bubblegum_batch_sdk.Errors.{BatchMintError}
use bubblegum_batch_sdk.Model.{BatchMintInstruction, CollectionConfig, from_spl}
use bubblegum_batch_sdk.Builder.Changelog.{make_changelog_path}
use bubblegum_batch_sdk.MerkleTree.{make_concurrent_merkle_tree}
use bubblegum_batch_sdk.MerkleTree.Sizes.{make_concurrent_merkle_tree_supported}
use bubblegum_batch_sdk.Builder.Hashing.{MetadataArgsHash, hashes_of}
use bubblegum_batch_sdk.Builder.State.{BatchMintBuilder, new, setup_collection_config}
use bubblegum_batch_sdk.Builder.Assets.{leaf_schema, record_asset, update_canopy, add_asset}
use bubblegum_batch_sdk.Builder.AddAsset.{add_asset_sound}
use bubblegum_batch_sdk.Builder.Signatures.{sign_asset}
use bubblegum_batch_sdk.Builder.Canopy.{IsCanopy, log_of, empty-IsCanopy, add_canopy_leaf-IsCanopy}
use bubblegum_batch_sdk.Validations.Assets.{leaves}
use bubblegum_batch_sdk.Flow.Invariant.{
  IsConsistent, leaf_hash-leaf_schema, insert_entry, values-snoc,
}
use bubblegum_batch_sdk.Flow.Signing.{sign_asset_sound, add_signatures_elim}
use bubblegum_batch_sdk.Flow.Reach.{Reach, created, added, signed, configured, Reach-IsConsistent}

module _ (x : Deps) where
  -- The hashes of the builder's assets, in the order of their numbers.
  abbrev pub asset_hashes : BatchMintBuilder x → List Bytes
  asset_hashes b = leaves x (values b.mints)

  -- No canopy is kept at depth 0. At depth c it is the level max_depth - c of the tree.
  abbrev pub HasCanopy : BatchMintBuilder x → Type 0
  HasCanopy b =
      (b.canopy_depth ≡ 0 → b.canopy_leaves ≡ [])
      × (0 < b.canopy_depth
          → IsCanopy x (b.max_depth - b.canopy_depth) (asset_hashes b) b.canopy_leaves)

  leaves-snoc :
      (ms : List (BatchMintInstruction x)) (m : BatchMintInstruction x)
      → leaves x (ms ++ m ∷ []) ≡ leaves x ms ++ x.leaf_hash m.leaf_update ∷ []
  unfolding leaves
  leaves-snoc [] m = refl
  leaves-snoc (n ∷ ms) m = ap (λ r. x.leaf_hash n.leaf_update ∷ r) (leaves-snoc ms m)

  pub length-leaves : (ms : List (BatchMintInstruction x)) → length (leaves x ms) ≡ length ms
  unfolding leaves
  length-leaves [] = refl
  length-leaves (m ∷ ms) = ap suc (length-leaves ms)

  pub leaves-put :
      (k : ℕ) (mints : BTreeMap (BatchMintInstruction x)) (m m' : BatchMintInstruction x)
      → lookup k mints ≡ some m
      → m'.leaf_update ≡ m.leaf_update
      → leaves x (values (put k m' mints)) ≡ leaves x (values mints)
  unfolding leaves lookup put values
  leaves-put k [] m m' found e = refl
  leaves-put k ((j, n) ∷ mints) m m' found e = elim (Bool-cases (k == j)) [
    | inl here ↦
        let same : n ≡ m = some_injective (rw here at found) in
        rw here (
          ap (λ l. x.leaf_hash l ∷ leaves x (values mints))
            (e ∙ ap (λ r. r.leaf_update) (sym same)))
    | inr on ↦
        rw on (ap (λ r. x.leaf_hash n.leaf_update ∷ r) (leaves-put k mints m m' (rw on at found) e))
  ]

  -- The hashes and the count after a new entry.
  pub entry_hashes :
      (b : BatchMintBuilder x) (m : BatchMintInstruction x) (leaf : Bytes) (b' : BatchMintBuilder x)
      → IsConsistent x b
      → x.leaf_hash m.leaf_update ≡ leaf
      → b'.mints ≡ insert (length b.mints) m b.mints
      → (asset_hashes b' ≡ asset_hashes b ++ leaf ∷ []) × (length b'.mints ≡ suc (length b.mints))
  entry_hashes b m leaf b' v leaf_eq mints =
      let at_end = mints ∙ insert_entry x b m v.counted in
      (
        ap (λ ms. leaves x (values ms)) at_end
            ∙ ap (leaves x) (values-snoc x b m)
            ∙ leaves-snoc (values b.mints) m
            ∙ ap (λ l. asset_hashes b ++ l ∷ []) leaf_eq,
        ap length at_end ∙ length-snoc b.mints (length b.mints, m),
      )

module _ (x : Deps) (trees : TreeLaws x) where
  pub record IsTracked (b : BatchMintBuilder x) : Type 0 where
    pub holds : trees.Holds b.max_depth b.merkle (asset_hashes x b)
    pub canopy : HasCanopy x b

  new-IsTracked :
      (tree : Bytes) (d s c : ℕ) {b : BatchMintBuilder x} → new x tree d s c ≡ ok b → IsTracked b
  unfolding new
  new-IsTracked tree d s c h =
      let E : Type 0 = BatchMintError x in
      let (t, made, h₁) = >>=-eq-ok (make_concurrent_merkle_tree x d s) _ h in
      let (init, initialized, h₂) = >>=-eq-ok (unwrap {F = E} (x.merkle.initialize t)) _ h₁ in
      let (supported, t_eq) = make_concurrent_merkle_tree_supported x d s made in
      subst IsTracked (ok_injective h₂) (record {
        holds =
            unfold leaves values in
            trees.initialize_lem d s init.0 init.1 supported (
              subst (λ t'. x.merkle.initialize t' ≡ ok init) t_eq
                (unwrap-eq-ok {F = E} _ initialized));
        canopy = unfold leaves values in (λ e. refl, λ pos. empty-IsCanopy x (d - c));
      })

  update_canopy-HasCanopy :
      (b : BatchMintBuilder x) (leaf : Bytes) {canopy : List Bytes}
      → HasCanopy x b
      → update_canopy x b (log_of x b.max_depth (asset_hashes x b) leaf) ≡ ok canopy
      → (b.canopy_depth ≡ 0 → canopy ≡ [])
        × (0 < b.canopy_depth
            → IsCanopy x (b.max_depth - b.canopy_depth) (asset_hashes x b ++ leaf ∷ []) canopy)
  unfolding update_canopy
  update_canopy-HasCanopy b leaf v h = elim (Bool-cases (ltb 0 b.canopy_depth)) [
    | inl some_canopy ↦
        let pos = ltb→lt 0 b.canopy_depth some_canopy in
        (
          λ e. absurd (omega arith),
          λ _.
              add_canopy_leaf-IsCanopy x {E = BatchMintError x} b.max_depth b.canopy_depth
                (asset_hashes x b) b.canopy_leaves leaf pos (v.1 pos) (rw some_canopy at h),
        )
    | inr no_canopy ↦
        (λ e. sym (ok_injective (rw no_canopy at h)) ∙ v.0 e, λ pos. absurd (ground arith))
  ]

  with_entry-IsTracked :
      (b : BatchMintBuilder x) (m : BatchMintInstruction x) (root leaf : Bytes) (next : x.Tree)
      (log : ChangeLog) (b' : BatchMintBuilder x)
      → IsConsistent x b
      → IsTracked b
      → x.leaf_hash m.leaf_update ≡ leaf
      → x.merkle.append b.merkle leaf ≡ ok (root, next)
      → x.merkle.change_logs next (x.merkle.active_index next) ≡ some log
      → update_canopy x b log ≡ ok b'.canopy_leaves
      → b'.max_depth ≡ b.max_depth
      → b'.canopy_depth ≡ b.canopy_depth
      → b'.merkle ≡ next
      → b'.mints ≡ insert (length b.mints) m b.mints
      → IsTracked b'
  with_entry-IsTracked b m root leaf next log b' v t leaf_eq appended logged canopy d c merkle
        mints =
      let hashes_eq = (entry_hashes x b m leaf b' v leaf_eq mints).0 in
      let (holds, fits, log_eq) =
        trees.append_lem b.max_depth b.merkle next (asset_hashes x b) leaf root t.holds appended in
      let same_log : log ≡ log_of x b.max_depth (asset_hashes x b) leaf =
        some_injective (sym logged ∙ log_eq) in
      let (none_kept, level) = update_canopy-HasCanopy b leaf t.canopy (rw same_log at canopy) in
      record {
        holds = subst₃ trees.Holds (sym d) (sym merkle) (sym hashes_eq) holds;
        canopy =
            subst₃
              (λ depth canopy_depth hashes.
                (canopy_depth ≡ 0 → b'.canopy_leaves ≡ [])
                × (0 < canopy_depth → IsCanopy x (depth - canopy_depth) hashes b'.canopy_leaves))
              (sym d) (sym c) (sym hashes_eq) (none_kept, level);
      }

  add_asset-IsTracked :
      HashLaws x
      → (b : BatchMintBuilder x) (owner delegate : Bytes) (metadata_args : Metadata x)
        {result : MetadataArgsHash × BatchMintBuilder x}
      → IsConsistent x b
      → IsTracked b
      → add_asset x b owner delegate metadata_args ≡ ok result
      → IsTracked result.1
  unfolding record_asset
  add_asset-IsTracked laws b owner delegate metadata_args v t e =
      let a = add_asset_sound x b owner delegate metadata_args e in
      let n : ℕ = length b.mints in
      let h = hashes_of x n b.tree_account owner delegate metadata_args a.args in
      let m : BatchMintInstruction x = record {
        tree_update = record {
          id = b.tree_account;
          path = map from_spl (make_changelog_path a.log);
          seq = x.merkle.sequence_number a.next;
          index = a.log.index;
        };
        leaf_update = leaf_schema x h owner delegate;
        mint_args = metadata_args;
        authority = owner;
        creator_signature = none;
      } in
      subst (λ r. IsTracked r.1)
        (ap (λ h'. record_asset x b owner delegate metadata_args h' a.next a.log a.canopy)
            (sym a.hashes_eq)
          ∙ a.result_eq)
        (with_entry-IsTracked b m a.root a.hashes.hashed_leaf a.next a.log
          (record_asset x b owner delegate metadata_args h a.next a.log a.canopy).1 v t
          (leaf_hash-leaf_schema x laws n b.tree_account owner delegate a.args metadata_args
            ∙ ap (λ h'. h'.hashed_leaf) (sym a.hashes_eq))
          a.appended a.logged a.canopy_eq refl refl refl (unfold hashes_of in refl))

  sign_asset-IsTracked :
      (b : BatchMintBuilder x) (k : ℕ) (received : HashMap x.Signature) {b' : BatchMintBuilder x}
      → IsTracked b
      → sign_asset x b k received ≡ ok b'
      → IsTracked b'
  sign_asset-IsTracked b k received t h =
      let s = sign_asset_sound x b k received h in
      let m' : BatchMintInstruction x = record s.entry { creator_signature = some s.signatures } in
      let hashes_eq = leaves-put x k b.mints s.entry m' s.found refl in
      subst IsTracked s.state_eq (record {
        holds = subst (trees.Holds b.max_depth b.merkle) (sym hashes_eq) t.holds;
        canopy = (
          t.canopy.0,
          λ pos.
              subst (λ hashes. IsCanopy x (b.max_depth - b.canopy_depth) hashes b.canopy_leaves)
                (sym hashes_eq) (t.canopy.1 pos),
        );
      })

  setup_collection_config-IsTracked :
      (b : BatchMintBuilder x) (config : CollectionConfig x)
      → IsTracked b
      → IsTracked (setup_collection_config x b config)
  unfolding setup_collection_config
  setup_collection_config-IsTracked b config t = record { holds = t.holds; canopy = t.canopy }

  pub Reach-IsTracked : HashLaws x → {b : BatchMintBuilder x} → Reach x b → IsTracked b
  Reach-IsTracked laws (created tree d s c e) = new-IsTracked tree d s c e
  Reach-IsTracked laws (added owner delegate metadata_args h r e) =
      add_asset-IsTracked laws _ owner delegate metadata_args (Reach-IsConsistent x laws r)
        (Reach-IsTracked laws r) e
  Reach-IsTracked laws (signed entries r e) = rw (← e) (
      add_signatures_elim x IsTracked
        (λ c k received c' t e'. sign_asset-IsTracked c k received t e') _ entries
        (Reach-IsTracked laws r))
  Reach-IsTracked laws (configured config r e) =
      rw (← e) (setup_collection_config-IsTracked _ config (Reach-IsTracked laws r))

  -- Over a tree and hashes that behave as documented: whatever calls led to a builder with a canopy,
  -- its canopy leaves are the first nodes of the level
  -- max_depth - canopy_depth of the merkle tree over its assets' hashes, just enough to cover them.
  pub canopy_leaves-IsCanopy :
      HashLaws x
      → (b : BatchMintBuilder x) → Reach x b
      → 0 < b.canopy_depth
      → IsCanopy x (b.max_depth - b.canopy_depth) (asset_hashes x b) b.canopy_leaves
  canopy_leaves-IsCanopy laws b r pos = (Reach-IsTracked laws r).canopy.1 pos
