-- ===== src/Flow/Generated.antt =====
-- `generate_batch_mint` of src/batch_mint_validations.rs against the builder of
-- src/batch_mint_builder.rs.
use bubblegum_batch_sdk.Base.{
  ℕ, zero, suc, ◌+◌, ◌-◌, ◌/◌, ◌%◌, ◌^◌, ◌≡◌, refl, sym, ap, ◌∙◌, subst, arith, false, none, List,
  [], ◌∷◌, ◌++◌, map, length, All, replicate, inl, inr, Option-cases, Outcome, ok, unwrap, ◌>>=◌,
  Outcome-cases, bind_congr,
}
use bubblegum_batch_sdk.Base.Bytes.{Bytes}
use bubblegum_batch_sdk.Base.Maps.{values}
use bubblegum_batch_sdk.Deps.{Deps, Metadata}
use bubblegum_batch_sdk.Deps.Data.{Creator, ChangeLog}
use bubblegum_batch_sdk.Deps.Laws.{HashLaws}
use bubblegum_batch_sdk.Errors.{BatchMintError}
use bubblegum_batch_sdk.Model.{BatchMint}
use bubblegum_batch_sdk.Builder.Hashing.{
  creator_bytes, data_hash_of, creator_hash_of, hashes_of, hash_metadata_args,
}
use bubblegum_batch_sdk.Builder.Changelog.{path_nodes, make_changelog_path}
use bubblegum_batch_sdk.Builder.State.{BatchMintBuilder, new}
use bubblegum_batch_sdk.Builder.Assets.{leaf_schema, update_canopy, record_asset, add_asset}
use bubblegum_batch_sdk.Builder.Building.{build_batch_mint}
use bubblegum_batch_sdk.MerkleTree.{match_size, creator_arms, make_concurrent_merkle_tree}
use bubblegum_batch_sdk.Flow.Entries.{assets_of}
use bubblegum_batch_sdk.Flow.Reach.{created, Reach-IsConsistent}
use bubblegum_batch_sdk.Validations.Generate.{
  Draws, Generator, Generated, random_creators, random_args, generated_nodes, generated_path,
  generate_asset, generate_assets, generate_batch_mint,
}
use bubblegum_batch_sdk.Flow.Invariant.{IsConsistent, insert_entry, values-snoc}
use bubblegum_batch_sdk.Flow.Growing.{add_assets, add_asset-Extended, Grown, add_assets_sound}
use bubblegum_batch_sdk.Flow.Unverified.{IsUnverified, check_mints-IsUnverified}

nodes_same :
    (len index lvl : ℕ) (ns : List Bytes)
    → generated_nodes len index lvl ns ≡ path_nodes len index lvl ns
unfolding generated_nodes path_nodes
nodes_same len index lvl [] = refl
nodes_same len index lvl (n ∷ ns) =
    ap (λ r. record { node = n; index = (2 ^ (len - lvl) + index / 2 ^ lvl) % 2 ^ 32 } ∷ r)
      (nodes_same len index (suc lvl) ns)

path_same : (c : ChangeLog) → generated_path c ≡ make_changelog_path c
unfolding generated_path make_changelog_path
path_same c = rw (nodes_same (length c.path) c.index 0 c.path)

module _ (x : Deps) where
  -- The part of a builder that the generator keeps.
  abbrev state_of : BatchMintBuilder x → Generated x
  state_of b = record {
    mints = values b.mints;
    merkle = b.merkle;
    last_leaf_hash = b.last_leaf_hash;
  }

  generate_asset-add_asset :
      (b : BatchMintBuilder x) (owner : Bytes) (m : Metadata x)
      → IsConsistent x b
      → b.canopy_depth ≡ 0
      → generate_asset x {E = BatchMintError x} owner b.tree_account m (length b.mints) (state_of b)
        ≡ (add_asset x b owner owner m >>= λ r. ok (state_of r.1))
  unfolding generate_asset add_asset hash_metadata_args hashes_of data_hash_of creator_hash_of
      creator_bytes update_canopy record_asset leaf_schema
  generate_asset-add_asset b owner m v flat = elim (Outcome-cases (x.try_to_vec m)) [
    | inl (args, e) ↦
        let leaf = (hashes_of x (length b.mints) b.tree_account owner owner m args).hashed_leaf in
        elim (Outcome-cases (x.merkle.append b.merkle leaf)) [
          | inl (step, a) ↦
              elim (Option-cases (x.merkle.change_logs step.1 (x.merkle.active_index step.1))) [
                | inl missing ↦ rw (e, a, missing)
                | inr (log, found) ↦
                    rw (e, a, found, flat, path_same log)
                      (ap (λ ms. ok (record { mints = ms; merkle = step.1; last_leaf_hash = leaf }))
                        (sym (ap values (insert_entry x b _ v.counted) ∙ values-snoc x b _)))
              ]
          | inr (inl (failure, a)) ↦ rw (e, a)
          | inr (inr a) ↦ rw (e, a)
        ]
    | inr (inl (failure, e)) ↦ rw e
    | inr (inr e) ↦ rw e
  ]

module _ (x : Deps) (g : Generator x) where
  -- The arguments of the assets that are drawn from number i on.
  unfoldable pub drawn_args : ℕ → ℕ → List (Metadata x)
  drawn_args zero i = []
  drawn_args (suc n) i = random_args x g (g.draws i) ∷ drawn_args n (suc i)

  -- The batch mint of a builder to which the drawn assets are added.
  unfoldable pub build_drawn : ℕ → Outcome (BatchMintError x) (BatchMint x)
  build_drawn size = do
    authority ← unwrap (g.pubkey_from_str "3VvLDXqJbw3heyRwFxv8MmurPznmDVUJS9gPMX2BDqfM")
    tree ← unwrap (g.pubkey_from_str "HxhCw9g3kZvrdg9zZvctmh6qpSDg1FfsBXfFvRkbCHB7")
    b ← new x tree 10 32 0
    b' ← add_assets x b authority (drawn_args size 0)
    build_batch_mint x b'

  generate_assets-add_assets :
      HashLaws x
      → (n : ℕ) (b : BatchMintBuilder x) (owner tree : Bytes) (i : ℕ) → IsConsistent x b
      → b.canopy_depth ≡ 0
      → tree ≡ b.tree_account
      → i ≡ length b.mints
      → generate_assets x g {E = BatchMintError x} owner tree n i (state_of x b)
        ≡ (add_assets x b owner (drawn_args n i) >>= λ b'. ok (state_of x b'))
  unfolding generate_assets add_assets drawn_args
  generate_assets-add_assets laws zero b owner tree i v flat tree_eq i_eq = refl
  generate_assets-add_assets laws (suc n) b owner tree i v flat tree_eq i_eq =
      let m = random_args x g (g.draws i) in
      let same : generate_asset x {E = BatchMintError x} owner tree m i (state_of x b)
          ≡ (add_asset x b owner owner m >>= λ r. ok (state_of x r.1)) =
        ap (λ t. generate_asset x owner t m i (state_of x b)) tree_eq
        ∙ ap (λ k. generate_asset x owner b.tree_account m k (state_of x b)) i_eq
        ∙ generate_asset-add_asset x b owner m v flat in
      elim (Outcome-cases (add_asset x b owner owner m)) [
        | inl (r, e) ↦
            let one = add_asset-Extended x laws b owner owner m v e in
            rw (same, e)
              (generate_assets-add_assets laws n r.1 owner tree (suc i) one.consistent
                (one.canopy_depth ∙ flat) (tree_eq ∙ sym one.tree_account)
                (ap suc i_eq ∙ sym one.count))
        | inr (inl (failure, e)) ↦ rw (same, e)
        | inr (inr e) ↦ rw (same, e)
      ]

  random_creators-unverified :
      (r : Draws) (n j : ℕ) → All (λ (c : Creator). c.verified ≡ false) (random_creators r n j)
  unfolding random_creators
  random_creators-unverified r zero j = tt
  random_creators-unverified r (suc n) j = (refl, random_creators-unverified r n (suc j))

  random_args-IsUnverified : (r : Draws) → IsUnverified x (random_args x g r)
  unfolding random_args
  random_args-IsUnverified r = record {
    creators = random_creators-unverified r r.creator_count 0;
    collection = λ c e. ground arith;
  }

  drawn_args-IsUnverified :
      (owner : Bytes) (n i : ℕ)
      → All
          (λ (a : Bytes × Bytes × Metadata x). IsUnverified x a.2)
          (map (λ m. (owner, owner, m)) (drawn_args n i))
  unfolding drawn_args
  drawn_args-IsUnverified owner zero i = tt
  drawn_args-IsUnverified owner (suc n) i =
      (random_args-IsUnverified (g.draws i), drawn_args-IsUnverified owner n (suc i))

  pub build_unverified :
      (b b' : BatchMintBuilder x) (owner : Bytes) (n i : ℕ)
      → assets_of x (values b.mints) ≡ []
      → Grown x b b' owner (drawn_args n i)
      → build_batch_mint x b'
        ≡ ok (record {
          tree_id = b.tree_account;
          batch_mints = values b'.mints;
          raw_metadata_map = [];
          max_depth = b.max_depth;
          max_buffer_size = b.max_buffer_size;
          merkle_root = x.merkle.get_root b'.merkle;
          last_leaf_hash = b'.last_leaf_hash;
        })
  unfolding build_batch_mint
  build_unverified b b' owner n i empty grown =
      let unverified =
        subst (All (λ (a : Bytes × Bytes × Metadata x). IsUnverified x a.2))
          (sym (grown.assets ∙ ap (λ l. l ++ map (λ m. (owner, owner, m)) (drawn_args n i)) empty))
          (drawn_args-IsUnverified owner n i) in
      rw (check_mints-IsUnverified x b'.collection_config (values b'.mints) unverified) (λ j.
        ok (record {
          tree_id = grown.tree_account j;
          batch_mints = values b'.mints;
          raw_metadata_map = [];
          max_depth = grown.max_depth j;
          max_buffer_size = grown.max_buffer_size j;
          merkle_root = x.merkle.get_root b'.merkle;
          last_leaf_hash = b'.last_leaf_hash;
        }))

  -- The builder that the generator's tree stands for.
  abbrev pub empty_builder : Bytes → x.Tree → BatchMintBuilder x
  empty_builder tree merkle = record {
    tree_account = tree;
    max_depth = 10;
    max_buffer_size = 32;
    canopy_depth = 0;
    merkle = merkle;
    mints = [];
    last_leaf_hash = replicate 32 0;
    canopy_leaves = [];
    collection_config = none;
  }

  pub new_lem :
      (tree : Bytes)
      → new x tree 10 32 0
        ≡ (unwrap (x.merkle.initialize (x.new_tree 10 32)) >>= λ i. ok (empty_builder tree i.1))
  unfolding new make_concurrent_merkle_tree match_size creator_arms
  new_lem tree = refl

  generated_from :
      HashLaws x
      → (size : ℕ) (authority tree : Bytes)
      → (do
        initialized ← unwrap {F = BatchMintError x} (x.merkle.initialize (x.new_tree 10 32))
        s ←
            generate_assets x g authority tree size 0
              (record { mints = []; merkle = initialized.1; last_leaf_hash = replicate 32 0 })
        ok (record {
          tree_id = tree;
          raw_metadata_map = [];
          max_depth = 10;
          batch_mints = s.mints;
          merkle_root = x.merkle.get_root s.merkle;
          last_leaf_hash = s.last_leaf_hash;
          max_buffer_size = 32;
        }))
        ≡ (do
          b ← new x tree 10 32 0
          b' ← add_assets x b authority (drawn_args size 0)
          build_batch_mint x b')
  unfolding values
  generated_from laws size authority tree =
      elim (Outcome-cases (x.merkle.initialize (x.new_tree 10 32))) [
        | inl (init, e) ↦
            let b = empty_builder tree init.1 in
            let new_eq : new x tree 10 32 0 ≡ ok b = new_lem tree ∙ (rw e) in
            let start = created tree 10 32 0 new_eq in
            let same =
              generate_assets-add_assets laws size b authority tree 0
                (Reach-IsConsistent x laws start) refl refl refl in
            elim (Outcome-cases (add_assets x b authority (drawn_args size 0))) [
              | inl (b', a) ↦
                  let grown = add_assets_sound x laws b authority (drawn_args size 0) start a in
                  rw (e, new_eq, same, a) (sym (build_unverified b b' authority size 0 refl grown))
              | inr (inl (failure, a)) ↦ rw (e, new_eq, same, a)
              | inr (inr a) ↦ rw (e, new_eq, same, a)
            ]
        | inr (inl (failure, e)) ↦ let new_eq = new_lem tree in rw (new_eq, e)
        | inr (inr e) ↦ let new_eq = new_lem tree in rw (new_eq, e)
      ]

  -- If leaves are hashed as documented, the generator is the builder: on every draw, failures
  -- and panics included, it returns the batch mint of a builder for a tree of depth 10 and
  -- buffer size 32 with no canopy, to which the drawn assets are added.
  pub generate_batch_mint-build :
      HashLaws x → (size : ℕ) → generate_batch_mint x g size ≡ build_drawn size
  unfolding generate_batch_mint build_drawn
  generate_batch_mint-build laws size =
      bind_congr (unwrap (g.pubkey_from_str "3VvLDXqJbw3heyRwFxv8MmurPznmDVUJS9gPMX2BDqfM")) _ _
        (λ authority.
          bind_congr (unwrap (g.pubkey_from_str "HxhCw9g3kZvrdg9zZvctmh6qpSDg1FfsBXfFvRkbCHB7")) _ _
            (λ tree. generated_from laws size authority tree))
