-- ===== src/Flow/Invariant.antt =====
-- The well-formedness of a builder of src/batch_mint_builder.rs, and `new`, `add_asset` and
-- `setup_collection_config` against it.
use bubblegum_batch_sdk.Base.{
  ℕ, ◌≡◌, refl, sym, ap, ◌∙◌, subst, true, none, some, [], ◌∷◌, ◌++◌, map, length, All, All-append,
  ok, unwrap, >>=-eq-ok, unwrap-eq-ok, ok_injective,
}
use bubblegum_batch_sdk.Base.Bytes.{Bytes}
use bubblegum_batch_sdk.Base.Maps.{
  HashMap, get, values, insert, CountsFrom, insert_next, CountsFrom-snoc, values-append,
}
use mathlib.Core.Path.{subst₂, subst₃}
use native.Mathlib.Nat.{zero-add}
use bubblegum_batch_sdk.Deps.{Deps, Metadata}
use bubblegum_batch_sdk.Deps.Data.{ChangeLog}
use bubblegum_batch_sdk.Deps.Laws.{HashLaws}
use bubblegum_batch_sdk.Errors.{BatchMintError}
use bubblegum_batch_sdk.Model.{BatchMintInstruction, from_spl, CollectionConfig}
use bubblegum_batch_sdk.MerkleTree.{make_concurrent_merkle_tree}
use bubblegum_batch_sdk.Builder.Hashing.{MetadataArgsHash, hashes_of}
use bubblegum_batch_sdk.Builder.Changelog.{make_changelog_path}
use bubblegum_batch_sdk.Builder.State.{BatchMintBuilder, new, setup_collection_config}
use bubblegum_batch_sdk.Builder.Assets.{leaf_schema, record_asset, add_asset}
use bubblegum_batch_sdk.Builder.Signatures.{signatures_or_default}
use bubblegum_batch_sdk.Builder.AddAsset.{add_asset_sound}
use bubblegum_batch_sdk.Validations.Spec.{message_of, IsHashed, Run}
use bubblegum_batch_sdk.Flow.Runs.{Run-snoc}

module _ (x : Deps) where
  -- Every signature in the map is a signature of the message by its key.
  abbrev pub AllVerify : Bytes → HashMap x.Signature → Type 0
  AllVerify msg signatures =
      (k : Bytes) (s : x.Signature) → get k signatures ≡ some s → x.verify s k msg ≡ true

  pub record IsMinted (tree_id : Bytes) (m : BatchMintInstruction x) : Type 0 where
    pub args : Bytes
    pub hashed : IsHashed x tree_id m args
    pub signed : AllVerify (message_of x tree_id m args) (signatures_or_default m.creator_signature)

  -- The entry holds the event of the changelog, its sequence number included.
  abbrev pub IsRecorded : Bytes → x.Tree → ChangeLog → BatchMintInstruction x → Type 0
  IsRecorded tree_id t c m = m.tree_update ≡ record {
    id = tree_id;
    path = map from_spl (make_changelog_path c);
    seq = x.merkle.sequence_number t;
    index = c.index;
  }

  pub record IsConsistent (b : BatchMintBuilder x) : Type 0 where
    pub empty_tree : x.Tree
    pub made : make_concurrent_merkle_tree x b.max_depth b.max_buffer_size ≡ ok empty_tree
    pub first_root : Bytes
    pub start : x.Tree
    pub initialized : x.merkle.initialize empty_tree ≡ ok (first_root, start)
    pub counted : CountsFrom 0 b.mints
    pub minted : All (IsMinted b.tree_account) (values b.mints)
    pub run : Run x (IsRecorded b.tree_account) start (values b.mints) b.merkle

  pub new-IsConsistent :
      (tree : Bytes) (d s c : ℕ) {b : BatchMintBuilder x} → new x tree d s c ≡ ok b → IsConsistent b
  unfolding new
  new-IsConsistent tree d s c h =
      let E : Type 0 = BatchMintError x in
      let (t, made, h₁) = >>=-eq-ok (make_concurrent_merkle_tree x d s) _ h in
      let (init, initialized, h₂) = >>=-eq-ok (unwrap {F = E} (x.merkle.initialize t)) _ h₁ in
      subst IsConsistent (ok_injective h₂) (record {
        empty_tree = t;
        made = made;
        first_root = init.0;
        start = init.1;
        initialized = unwrap-eq-ok {F = E} _ initialized;
        counted = tt;
        minted = unfold values in tt;
        run = unfold values in refl;
      })

  pub setup_collection_config-IsConsistent :
      (b : BatchMintBuilder x) (config : CollectionConfig x)
      → IsConsistent b
      → IsConsistent (setup_collection_config x b config)
  unfolding setup_collection_config
  setup_collection_config-IsConsistent b config v = record {
    empty_tree = v.empty_tree;
    made = v.made;
    first_root = v.first_root;
    start = v.start;
    initialized = v.initialized;
    counted = v.counted;
    minted = v.minted;
    run = v.run;
  }

  -- A new entry is derived from its asset, and nobody has signed it yet.
  entry-IsMinted :
      (tree_id : Bytes) (m : BatchMintInstruction x) (owner delegate args : Bytes) (nonce : ℕ)
      → x.try_to_vec m.mint_args ≡ ok args
      → m.leaf_update
        ≡ leaf_schema x (hashes_of x nonce tree_id owner delegate m.mint_args args) owner delegate
      → m.creator_signature ≡ none
      → IsMinted tree_id m
  unfolding leaf_schema hashes_of
  entry-IsMinted tree_id m owner delegate args nonce serialized leaf unsigned = record {
    args = args;
    hashed = record {
      serialized = serialized;
      id_eq = ap (λ l. l.id) leaf ∙ ap (λ l. x.get_asset_id tree_id l.nonce) (sym leaf);
      data_hash_eq = ap (λ l. l.data_hash) leaf;
      creator_hash_eq = ap (λ l. l.creator_hash) leaf;
    };
    signed = λ k s found. unfold get signatures_or_default in cc (rw unsigned at found);
  }

  pub leaf_hash-leaf_schema :
      HashLaws x
      → (nonce : ℕ) (tree_id owner delegate args : Bytes) (metadata_args : Metadata x)
      → let h = hashes_of x nonce tree_id owner delegate metadata_args args in
        x.leaf_hash (leaf_schema x h owner delegate) ≡ h.hashed_leaf
  unfolding leaf_schema hashes_of
  leaf_hash-leaf_schema laws nonce tree_id owner delegate args metadata_args = laws.leaf_hash_lem _

  -- The entry goes to the end of the map.
  pub insert_entry :
      (b : BatchMintBuilder x) (m : BatchMintInstruction x)
      → CountsFrom 0 b.mints
      → insert (length b.mints) m b.mints ≡ b.mints ++ (length b.mints, m) ∷ []
  insert_entry b m counted = rw zero-add at (insert_next 0 m b.mints counted)

  pub values-snoc :
      (b : BatchMintBuilder x) (m : BatchMintInstruction x)
      → values (b.mints ++ (length b.mints, m) ∷ []) ≡ values b.mints ++ m ∷ []
  values-snoc b m = values-append b.mints ((length b.mints, m) ∷ []) ∙ (unfold values in refl)

  -- The consistency of a builder whose map, tree and canopy are those after a new entry.
  with_entry-IsConsistent :
      (b : BatchMintBuilder x) (m : BatchMintInstruction x) (root : Bytes) (next : x.Tree)
      (log : ChangeLog) (b' : BatchMintBuilder x)
      → IsConsistent b
      → IsMinted b.tree_account m
      → x.merkle.append b.merkle (x.leaf_hash m.leaf_update) ≡ ok (root, next)
      → x.merkle.change_logs next (x.merkle.active_index next) ≡ some log
      → IsRecorded b.tree_account next log m
      → b'.tree_account ≡ b.tree_account
      → b'.max_depth ≡ b.max_depth
      → b'.max_buffer_size ≡ b.max_buffer_size
      → b'.merkle ≡ next
      → b'.mints ≡ insert (length b.mints) m b.mints
      → IsConsistent b'
  with_entry-IsConsistent b m root next log b' v minted appended logged recorded tree d s merkle
        mints =
      let mints_eq = mints ∙ insert_entry b m v.counted in
      let values_eq = ap values mints_eq ∙ values-snoc b m in
      record {
        empty_tree = v.empty_tree;
        made = rw (d, s) v.made;
        first_root = v.first_root;
        start = v.start;
        initialized = v.initialized;
        counted =
            subst (CountsFrom 0) (sym mints_eq)
              (rw zero-add at (CountsFrom-snoc 0 m b.mints v.counted));
        minted =
            subst₂ (λ id ms. All (IsMinted id) ms) (sym tree) (sym values_eq)
              (All-append (IsMinted b.tree_account) (values b.mints) (m ∷ []) v.minted
                (minted, tt));
        run =
            subst₃ (λ id ms t. Run x (IsRecorded id) v.start ms t) (sym tree) (sym values_eq)
              (sym merkle)
              (Run-snoc x (IsRecorded b.tree_account) v.start b.merkle (values b.mints) m root next
                log v.run appended logged recorded);
      }

  -- Adding an asset keeps the builder consistent.
  pub add_asset-IsConsistent :
      HashLaws x
      → (b : BatchMintBuilder x) (owner delegate : Bytes) (metadata_args : Metadata x)
        {result : MetadataArgsHash × BatchMintBuilder x}
      → IsConsistent b
      → add_asset x b owner delegate metadata_args ≡ ok result
      → IsConsistent result.1
  unfolding record_asset
  add_asset-IsConsistent laws b owner delegate metadata_args v e =
      let a = add_asset_sound x b owner delegate metadata_args e in
      let n : ℕ = length b.mints in
      let h = hashes_of x n b.tree_account owner delegate metadata_args a.args in
      let after = record_asset x b owner delegate metadata_args h a.next a.log a.canopy in
      let m : BatchMintInstruction x = record {
        tree_update = record {
          id = b.tree_account;
          path = map from_spl (make_changelog_path a.log);
          seq = x.merkle.sequence_number a.next;
          index = a.log.index;
        };
        leaf_update = leaf_schema x h owner delegate;
        mint_args = metadata_args;
        authority = owner;
        creator_signature = none;
      } in
      subst (λ r. IsConsistent r.1)
        (ap (λ h'. record_asset x b owner delegate metadata_args h' a.next a.log a.canopy)
            (sym a.hashes_eq)
          ∙ a.result_eq)
        (with_entry-IsConsistent b m a.root a.next a.log after.1 v
          (entry-IsMinted b.tree_account m owner delegate a.args n a.serialized refl refl)
          (ap (x.merkle.append b.merkle) (
              leaf_hash-leaf_schema laws n b.tree_account owner delegate a.args metadata_args
              ∙ ap (λ h'. h'.hashed_leaf) (sym a.hashes_eq))
            ∙ a.appended)
          a.logged refl refl refl refl refl (unfold hashes_of in refl))
