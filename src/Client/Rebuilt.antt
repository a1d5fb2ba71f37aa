-- ===== src/Client/Rebuilt.antt =====
-- What is built from the builder that `restore_batch_mint_builder` of src/batch_mint_client.rs gives
-- back.
use bubblegum_batch_sdk.Validations.Same.{unsigned, SameSignatures}
use bubblegum_batch_sdk.Base.{
  ◌≡◌, refl, sym, ap, ◌∙◌, subst, true, none, some, Option, List, [], ◌∷◌, map, Outcome, ok,
  >>=-eq-ok, ok_injective, AllPairs, inl, inr, guard-eq-ok, Bool-cases,
}
use bubblegum_batch_sdk.Base.Bytes.{Bytes}
use bubblegum_batch_sdk.Base.Maps.{HashMap, get, values, contains_key, values-map_values}
use bubblegum_batch_sdk.Deps.{Deps}
use bubblegum_batch_sdk.Deps.Data.{Creator}
use bubblegum_batch_sdk.Deps.Laws.{HashLaws}
use bubblegum_batch_sdk.Model.{BatchMint, BatchMintInstruction, CollectionConfig}
use bubblegum_batch_sdk.Builder.State.{BatchMintBuilder, setup_collection_config}
use bubblegum_batch_sdk.Builder.Signatures.{signatures_or_default}
use bubblegum_batch_sdk.Builder.Building.{
  check_creator, check_creators, check_collection, check_mints, build_batch_mint,
}
use bubblegum_batch_sdk.Flow.Reach.{Reach}
use bubblegum_batch_sdk.Flow.Accepted.{contains_key_sound}
use bubblegum_batch_sdk.Client.Tree.{read_prepared_tree_size}
use bubblegum_batch_sdk.Client.Restore.{restore_batch_mint_builder}
use bubblegum_batch_sdk.Client.Unconfigured.{restore-unconfigured, NeedsConfig, built-NeedsConfig}
use bubblegum_batch_sdk.Flow.Erased.{erase}
use bubblegum_batch_sdk.Client.RoundTrip.{restore_batch_mint_builder-build}

module _ (x : Deps) where
  contains_key_again :
      (k : Bytes) (signatures signatures' : HashMap x.Signature)
      → get k signatures' ≡ get k signatures
      → contains_key k signatures ≡ true
      → contains_key k signatures' ≡ true
  unfolding contains_key
  contains_key_again k signatures signatures' same h =
      let (s, found) = contains_key_sound x k signatures h in rw (same ∙ found, contains_key) refl

  check_creator_again :
      (id : Bytes) (o o' : Option (HashMap x.Signature)) (c : Creator)
      → get c.address (signatures_or_default o') ≡ get c.address (signatures_or_default o)
      → c.verified ≡ true
      → check_creator x id o c ≡ ok tt
      → check_creator x id o' c ≡ ok tt
  unfolding check_creator signatures_or_default get
  check_creator_again id none o' c same verified h = cc (rw verified at h)
  check_creator_again id (some m) none c same verified h =
      let (s, found) = contains_key_sound x c.address m (guard-eq-ok _ _ (rw verified at h)) in
      let impossible : ◌≡◌ {A = Option x.Signature} none (some s) = same ∙ found in absurd (cc)
  check_creator_again id (some m) (some m') c same verified h =
      let here = guard-eq-ok _ _ (rw verified at h) in
      rw (verified, contains_key_again c.address m m' same here) refl

  check_creators_again :
      (id : Bytes) (o o' : Option (HashMap x.Signature)) (cs : List Creator)
      → ((k : Bytes) → get k (signatures_or_default o') ≡ get k (signatures_or_default o))
      → check_creators x id o cs ≡ ok tt
      → check_creators x id o' cs ≡ ok tt
  unfolding check_creators
  check_creators_again id o o' [] same h = refl
  check_creators_again id o o' (c ∷ cs) same h =
      let (u, first, rest) = >>=-eq-ok (check_creator x id o c) _ h in
      let first' : check_creator x id o' c ≡ ok tt = elim (Bool-cases c.verified) [
        | inl verified ↦ check_creator_again id o o' c (same c.address) verified first
        | inr unverified ↦ rw (unverified, check_creator) refl
      ] in
      rw first' (check_creators_again id o o' cs same rest)

  check_mints_again :
      (config : Option (CollectionConfig x)) (ms ns : List (BatchMintInstruction x))
      → AllPairs (SameSignatures x) ms ns
      → map (unsigned x) ns ≡ map (unsigned x) ms
      → check_mints x config ms ≡ ok tt
      → check_mints x config ns ≡ ok tt
  unfolding check_mints
  check_mints_again config [] [] same e h = refl
  check_mints_again config [] (n ∷ ns) same e h = cc
  check_mints_again config (m ∷ ms) [] same e h = cc
  check_mints_again config (m ∷ ms) (n ∷ ns) (s, same) e h =
      let here : unsigned x n ≡ unsigned x m = cc in
      let (u, creators, h₁) =
        >>=-eq-ok (check_creators x m.leaf_update.id m.creator_signature m.mint_args.creators) _
          h in
      let (v, collection, h₂) = >>=-eq-ok (check_collection x config m.mint_args.collection) _ h₁ in
      let creators' : check_creators x n.leaf_update.id n.creator_signature n.mint_args.creators
          ≡ ok tt =
        subst
          (λ r. check_creators x r.leaf_update.id n.creator_signature r.mint_args.creators ≡ ok tt)
          (sym here)
          (check_creators_again m.leaf_update.id m.creator_signature n.creator_signature
            m.mint_args.creators s creators) in
      let collection' : check_collection x config n.mint_args.collection ≡ ok tt =
        subst (λ r. check_collection x config r.mint_args.collection ≡ ok tt) (sym here)
          collection in
      rw (creators', collection') (check_mints_again config ms ns same (cc) h₂)

  -- `setup_collection_config` with the configuration, if there is one.
  abbrev pub configure : Option (CollectionConfig x) → BatchMintBuilder x → BatchMintBuilder x
  configure none b = b
  configure (some config) b = setup_collection_config x b config

  -- What a builder whose entries pass the checks holds for the validators.
  abbrev batch_of : BatchMintBuilder x → BatchMint x
  batch_of b = record {
    tree_id = b.tree_account;
    batch_mints = values b.mints;
    raw_metadata_map = [];
    max_depth = b.max_depth;
    max_buffer_size = b.max_buffer_size;
    merkle_root = x.merkle.get_root b.merkle;
    last_leaf_hash = b.last_leaf_hash;
  }

  build-configure :
      (config : Option (CollectionConfig x)) (b : BatchMintBuilder x)
      → b.collection_config ≡ none
      → check_mints x config (values b.mints) ≡ ok tt
      → build_batch_mint x (configure config b) ≡ ok (batch_of b)
  unfolding build_batch_mint setup_collection_config
  build-configure none b no_config h = rw (no_config, h) refl
  build-configure (some config) b no_config h = rw h refl

  build-unconfigured :
      (config : Option (CollectionConfig x)) (b : BatchMintBuilder x)
      → b.collection_config ≡ none
      → check_mints x config (values b.mints) ≡ ok tt
      → NeedsConfig x (values b.mints) (batch_of b) (build_batch_mint x b)
  unfolding build_batch_mint
  build-unconfigured config b no_config h =
      rw no_config (built-NeedsConfig x config (values b.mints) (batch_of b) h)

  batch_of_same :
      (b b' : BatchMintBuilder x)
      → erase x b' ≡ erase x b
      → batch_of b' ≡ record (batch_of b) { batch_mints = values b'.mints }
  batch_of_same b b' erased = λ i. record (batch_of b') {
    tree_id = (erased i).tree_account;
    max_depth = (erased i).max_depth;
    max_buffer_size = (erased i).max_buffer_size;
    merkle_root = x.merkle.get_root (erased i).merkle;
    last_leaf_hash = (erased i).last_leaf_hash;
  }

  -- If leaves are hashed as documented: from a batch mint that a builder built, and a tree
  -- account of the builder's sizes, a builder without a collection configuration is restored.
  -- After `setup_collection_config` with the configuration of the first builder, if it had one,
  -- it builds a batch mint again. Without that call it builds the same one if no collection is
  -- marked as verified, and else fails with MissingCollectionSignature for the first that is.
  -- The batch mint has the same tree, sizes, root and last leaf hash as the first, and the same
  -- entries but for the order of their signatures: in each, every key has the same signature, or
  -- none.
  pub build-restore_batch_mint_builder :
      HashLaws x
      → (account : Outcome x.ClientError Bytes) (b : BatchMintBuilder x) (bm : BatchMint x)
      → Reach x b
      → build_batch_mint x b ≡ ok bm
      → read_prepared_tree_size x account
        ≡ ok (record {
          max_depth = b.max_depth;
          max_buffer_size = b.max_buffer_size;
          canopy_depth = b.canopy_depth;
        })
      → (b' : BatchMintBuilder x) × (bm' : BatchMint x) × (restore_batch_mint_builder x account bm
          ≡ ok b')
        × (b'.collection_config ≡ none)
        × (build_batch_mint x (configure b.collection_config b') ≡ ok bm')
        × NeedsConfig x bm'.batch_mints bm' (build_batch_mint x b')
        × (bm' ≡ record bm { batch_mints = bm'.batch_mints })
        × (map (unsigned x) bm'.batch_mints ≡ map (unsigned x) bm.batch_mints)
        × AllPairs (SameSignatures x) bm.batch_mints bm'.batch_mints
  unfolding build_batch_mint
  build-restore_batch_mint_builder laws account b bm r built sized =
      let (b', restored, erased, same) =
        restore_batch_mint_builder-build x laws account b bm r built sized in
      let (u, checked, made) =
        >>=-eq-ok (check_mints x b.collection_config (values b.mints)) _ built in
      let entries : map (unsigned x) (values b'.mints) ≡ map (unsigned x) (values b.mints) =
        sym (values-map_values (unsigned x) b'.mints)
        ∙ ap (λ c. values c.mints) erased
        ∙ values-map_values (unsigned x) b.mints in
      let bm_eq = ok_injective made in
      let no_config = restore-unconfigured x account bm restored in
      let again =
        check_mints_again b.collection_config (values b.mints) (values b'.mints) same entries
          checked in
      (
        b',
        batch_of b',
        restored,
        no_config,
        build-configure b.collection_config b' no_config again,
        build-unconfigured b.collection_config b' no_config again,
        batch_of_same b b' erased
            ∙ ap (λ (m : BatchMint x). record m { batch_mints = values b'.mints }) bm_eq,
        entries ∙ ap (λ m. map (unsigned x) m.batch_mints) bm_eq,
        subst (λ m. AllPairs (SameSignatures x) m.batch_mints (values b'.mints)) bm_eq same,
      )
