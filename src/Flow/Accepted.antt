-- ===== src/Flow/Accepted.antt =====
-- `build_batch_mint` of src/batch_mint_builder.rs against the validator of
-- src/batch_mint_validations.rs.
use bubblegum_batch_sdk.Base.{
  ◌≡◌, refl, sym, ap, subst, true, none, some, List, [], ◌∷◌, ok, All, Option, inl, inr,
  Option-cases, >>=-eq-ok, ok_injective, guard-eq-ok,
}
use bubblegum_batch_sdk.Base.Bytes.{Bytes, bytes_eq→eq}
use bubblegum_batch_sdk.Base.Maps.{HashMap, get, values, contains_key}
use bubblegum_batch_sdk.Deps.{Deps}
use bubblegum_batch_sdk.Deps.Data.{Creator, Collection}
use bubblegum_batch_sdk.Deps.Laws.{HashLaws}
use bubblegum_batch_sdk.Model.{BatchMint, BatchMintInstruction, CollectionConfig}
use bubblegum_batch_sdk.Builder.State.{BatchMintBuilder}
use bubblegum_batch_sdk.Builder.Signatures.{signatures_or_default}
use bubblegum_batch_sdk.Builder.Building.{
  check_creator, check_creators, check_collection, check_mints, build_batch_mint,
}
use bubblegum_batch_sdk.Validations.{validate_batch_mint}
use bubblegum_batch_sdk.Validations.Spec.{
  HasSigned, IsExpected, IsAuthentic, IsLogged, IsValidBatch, Run, message_of,
}
use bubblegum_batch_sdk.Validations.Exact.{validate_complete}
use bubblegum_batch_sdk.Flow.Invariant.{AllVerify, IsMinted, IsRecorded, IsConsistent}
use bubblegum_batch_sdk.Flow.Reach.{Reach, Reach-IsConsistent}

module _ (x : Deps) where
  -- The mint that the validator is told to expect.
  abbrev pub expected_mint : Option (CollectionConfig x) → Option Bytes
  expected_mint none = none
  expected_mint (some config) = some config.collection_mint

  pub contains_key_sound :
      (k : Bytes) (m : HashMap x.Signature)
      → contains_key k m ≡ true
      → (s : x.Signature) × (get k m ≡ some s)
  unfolding contains_key
  contains_key_sound k m h = elim (Option-cases (get k m)) [
    | inl missing ↦ cc (rw (missing, contains_key) at h)
    | inr found ↦ found
  ]

  check_creator-HasSigned :
      (id msg : Bytes) (signatures : Option (HashMap x.Signature)) (c : Creator)
      → AllVerify x msg (signatures_or_default signatures)
      → check_creator x id signatures c ≡ ok tt
      → HasSigned x msg (signatures_or_default signatures) c
  unfolding check_creator signatures_or_default
  check_creator-HasSigned id msg none c all h verified = cc (rw verified at h)
  check_creator-HasSigned id msg (some m) c all h verified =
      let (s, found) = contains_key_sound c.address m (guard-eq-ok _ _ (rw verified at h)) in
      (s, found, all c.address s found)

  check_creators-HasSigned :
      (id msg : Bytes) (signatures : Option (HashMap x.Signature)) (cs : List Creator)
      → AllVerify x msg (signatures_or_default signatures)
      → check_creators x id signatures cs ≡ ok tt
      → All (HasSigned x msg (signatures_or_default signatures)) cs
  unfolding check_creators
  check_creators-HasSigned id msg signatures [] all h = tt
  check_creators-HasSigned id msg signatures (c ∷ cs) all h =
      let (u, first, rest) = >>=-eq-ok (check_creator x id signatures c) _ h in
      (
        check_creator-HasSigned id msg signatures c all first,
        check_creators-HasSigned id msg signatures cs all rest,
      )

  check_collection-IsExpected :
      (config : Option (CollectionConfig x)) (c : Option Collection)
      → check_collection x config c ≡ ok tt
      → IsExpected x (expected_mint config) c
  unfolding check_collection
  check_collection-IsExpected config none h = tt
  check_collection-IsExpected none (some c) h = λ verified. cc (rw verified at h)
  check_collection-IsExpected (some config) (some c) h = λ verified.
      ap some (sym (bytes_eq→eq c.key config.collection_mint (guard-eq-ok _ _ (rw verified at h))))

  check_mints-IsAuthentic :
      (tree_id : Bytes) (config : Option (CollectionConfig x)) (ms : List (BatchMintInstruction x))
      → All (IsMinted x tree_id) ms
      → check_mints x config ms ≡ ok tt
      → All (IsAuthentic x tree_id (expected_mint config)) ms
  unfolding check_mints
  check_mints-IsAuthentic tree_id config [] minted h = tt
  check_mints-IsAuthentic tree_id config (m ∷ ms) (first, others) h =
      let (u, creators_ok, h₁) =
        >>=-eq-ok (check_creators x m.leaf_update.id m.creator_signature m.mint_args.creators) _
          h in
      let (v, collection_ok, h₂) =
        >>=-eq-ok (check_collection x config m.mint_args.collection) _ h₁ in
      (
        record {
          args = first.args;
          hashed = first.hashed;
          collection = check_collection-IsExpected config m.mint_args.collection collection_ok;
          signed =
              check_creators-HasSigned m.leaf_update.id (message_of x tree_id m first.args)
                m.creator_signature m.mint_args.creators first.signed creators_ok;
        },
        check_mints-IsAuthentic tree_id config ms others h₂,
      )

  recorded-IsLogged :
      (tree_id : Bytes) (t t' : x.Tree) (ms : List (BatchMintInstruction x))
      → Run x (IsRecorded x tree_id) t ms t'
      → Run x (IsLogged x tree_id) t ms t'
  recorded-IsLogged tree_id t t' [] run = run
  recorded-IsLogged tree_id t t' (m ∷ ms) (root, next, c, a, l, recorded, run) = (
    root,
    next,
    c,
    a,
    l,
    (ap (λ u. u.path) recorded, ap (λ u. u.id) recorded, ap (λ u. u.index) recorded),
    recorded-IsLogged tree_id next t' ms run,
  )

  -- What is built from a consistent builder is valid.
  pub build_batch_mint-IsValidBatch :
      (b : BatchMintBuilder x) {bm : BatchMint x}
      → IsConsistent x b
      → build_batch_mint x b ≡ ok bm
      → IsValidBatch x bm (expected_mint b.collection_config)
  unfolding build_batch_mint
  build_batch_mint-IsValidBatch b v h =
      let (u, checked, built) =
        >>=-eq-ok (check_mints x b.collection_config (values b.mints)) _ h in
      subst (λ bm'. IsValidBatch x bm' (expected_mint b.collection_config)) (ok_injective built)
        (record {
          authentic =
              check_mints-IsAuthentic b.tree_account b.collection_config (values b.mints) v.minted
                checked;
          empty_tree = v.empty_tree;
          made = v.made;
          first_root = v.first_root;
          start = v.start;
          initialized = v.initialized;
          final = b.merkle;
          run = recorded-IsLogged b.tree_account v.start b.merkle (values b.mints) v.run;
          root_eq = refl;
        })

  -- If leaves are hashed as documented: whatever calls led to a builder, a batch mint that it
  -- builds is accepted by the validator, told to expect the builder's collection.
  pub validate-build_batch_mint :
      HashLaws x
      → (b : BatchMintBuilder x) (bm : BatchMint x) → Reach x b
      → build_batch_mint x b ≡ ok bm
      → validate_batch_mint x bm (expected_mint b.collection_config) ≡ ok tt
  validate-build_batch_mint laws b bm r h =
      validate_complete x bm (expected_mint b.collection_config)
        (build_batch_mint-IsValidBatch b (Reach-IsConsistent x laws r) h)
