-- ===== src/Validations/Indexed.antt =====
-- What a batch mint that the validator of src/batch_mint_validations.rs accepts gives an indexer: the
-- instructions that src/model.rs converts its entries to.
use bubblegum_batch_sdk.Base.{◌≡◌, refl, ap, ◌∙◌, Option, some, List, [], ◌∷◌, map, ok}
use bubblegum_batch_sdk.Base.Bytes.{Bytes}
use bubblegum_batch_sdk.Deps.{Deps}
use bubblegum_batch_sdk.Deps.Data.{ChangeLog}
use bubblegum_batch_sdk.Model.{
  BatchMint, BatchMintInstruction, BlockbusterChangeLogEventV1, to_spl, to_blockbuster,
}
use bubblegum_batch_sdk.Model.Instruction.{
  v1, LeafSchemaEvent, Payload, BubblegumInstruction, to_bubblegum_instruction,
}
use bubblegum_batch_sdk.Model.Conversions.{to_spl-from_spl}
use bubblegum_batch_sdk.MerkleTree.{make_concurrent_merkle_tree}
use bubblegum_batch_sdk.Builder.Changelog.{make_changelog_path}
use bubblegum_batch_sdk.Validations.{validate_batch_mint}
use bubblegum_batch_sdk.Validations.Spec.{Run, IsLogged}
use bubblegum_batch_sdk.Validations.Exact.{validate_sound}

module _ (x : Deps) where
  -- The instruction has the hash of the next leaf, and the changelog and the tree that go with it.
  pub record IsIndexed (tree_id : Bytes) (t next : x.Tree) (ins : BubblegumInstruction x)
      : Type 0 where
    pub event : LeafSchemaEvent
    pub update : BlockbusterChangeLogEventV1
    pub payload : Payload x
    pub root : Bytes
    pub log : ChangeLog
    pub leaf_update_eq : ins.leaf_update ≡ some event
    pub tree_update_eq : ins.tree_update ≡ some update
    pub payload_eq : ins.payload ≡ some payload
    pub appended : x.merkle.append t event.leaf_hash ≡ ok (root, next)
    pub logged : x.merkle.change_logs next (x.merkle.active_index next) ≡ some log
    pub path_eq : update.path ≡ make_changelog_path log
    pub index_eq : update.index ≡ log.index
    pub update_tree : update.id ≡ tree_id
    pub payload_tree : payload.tree_id ≡ tree_id

  -- A tree that is replayed from the instructions alone.
  abbrev pub Indexes : Bytes → x.Tree → List (BubblegumInstruction x) → x.Tree → Type 0
  Indexes tree_id t [] t' = t ≡ t'
  Indexes tree_id t (ins ∷ rest) t' =
      (next : x.Tree) × IsIndexed tree_id t next ins × Indexes tree_id next rest t'

  entry-IsIndexed :
      (tree_id : Bytes) (t next : x.Tree) (m : BatchMintInstruction x) (root : Bytes)
      (c : ChangeLog)
      → x.merkle.append t (x.leaf_hash m.leaf_update) ≡ ok (root, next)
      → x.merkle.change_logs next (x.merkle.active_index next) ≡ some c
      → IsLogged x tree_id next c m
      → IsIndexed tree_id t next (to_bubblegum_instruction x m)
  unfolding to_bubblegum_instruction to_blockbuster
  entry-IsIndexed tree_id t next m root c appended logged (path, id, index) = record {
    event = record { version = v1; schema = m.leaf_update; leaf_hash = x.leaf_hash m.leaf_update };
    update = to_blockbuster m.tree_update;
    payload = record { args = m.mint_args; authority = m.authority; tree_id = m.tree_update.id };
    root = root;
    log = c;
    leaf_update_eq = refl;
    tree_update_eq = refl;
    payload_eq = refl;
    appended = appended;
    logged = logged;
    path_eq = ap (map to_spl) path ∙ to_spl-from_spl (make_changelog_path c);
    index_eq = index;
    update_tree = id;
    payload_tree = id;
  }

  Run-Indexes :
      (tree_id : Bytes) (t : x.Tree) (ms : List (BatchMintInstruction x)) (t' : x.Tree)
      → Run x (IsLogged x tree_id) t ms t'
      → Indexes tree_id t (map (to_bubblegum_instruction x) ms) t'
  Run-Indexes tree_id t [] t' r = r
  Run-Indexes tree_id t (m ∷ ms) t' (root, next, c, appended, logged, entry, r) = (
    next,
    entry-IsIndexed tree_id t next m root c appended logged entry,
    Run-Indexes tree_id next ms t' r,
  )

  -- If the validator accepts a batch mint, the instructions that its entries are converted to
  -- are enough for an indexer: their leaf hashes, appended in order to the empty tree of the
  -- batch mint's sizes, give a tree with its root; and each instruction has the path and index
  -- of the changelog of its append, with the batch mint's tree in the changelog and in the
  -- payload.
  pub validate-to_bubblegum_instruction :
      (bm : BatchMint x) (mint : Option Bytes)
      → validate_batch_mint x bm mint ≡ ok tt
      → (empty_tree start final : x.Tree) × (first_root : Bytes) × (make_concurrent_merkle_tree x
            bm.max_depth bm.max_buffer_size
          ≡ ok empty_tree)
        × (x.merkle.initialize empty_tree ≡ ok (first_root, start))
        × Indexes bm.tree_id start (map (to_bubblegum_instruction x) bm.batch_mints) final
        × (x.merkle.get_root final ≡ bm.merkle_root)
  validate-to_bubblegum_instruction bm mint h =
      let valid = validate_sound x bm mint h in
      (
        valid.empty_tree,
        valid.start,
        valid.final,
        valid.first_root,
        valid.made,
        valid.initialized,
        Run-Indexes bm.tree_id valid.start bm.batch_mints valid.final valid.run,
        valid.root_eq,
      )
