-- ===== src/Client/Unconfigured.antt =====
-- `restore_batch_mint_builder` of src/batch_mint_client.rs leaves the builder without a collection:
-- what `build_batch_mint` does before `setup_collection_config` is called.
use bubblegum_batch_sdk.Base.{
  ℕ, ◌≡◌, refl, sym, ap, ◌∙◌, ◌⊎◌, inl, inr, true, false, none, some, Option, List, [], ◌∷◌, ◌++◌,
  All, Outcome, ok, err, ◌>>=◌, >>=-eq-ok, ok_injective, unwrap, Option-cases, Bool-cases,
}
use bubblegum_batch_sdk.Base.Bytes.{Bytes}
use bubblegum_batch_sdk.Deps.{Deps}
use bubblegum_batch_sdk.Deps.Data.{Collection}
use bubblegum_batch_sdk.Errors.{BatchMintError, missing_collection_signature}
use bubblegum_batch_sdk.Model.{BatchMint, BatchMintInstruction, CollectionConfig}
use bubblegum_batch_sdk.MerkleTree.{make_concurrent_merkle_tree}
use bubblegum_batch_sdk.Builder.State.{BatchMintBuilder, new}
use bubblegum_batch_sdk.Builder.Assets.{record_asset, add_asset}
use bubblegum_batch_sdk.Builder.AddAsset.{add_asset_sound}
use bubblegum_batch_sdk.Builder.Building.{check_creators, check_collection, check_mints}
use bubblegum_batch_sdk.Flow.Signing.{sign_asset_sound, add_signatures_elim}
use bubblegum_batch_sdk.Client.Tree.{read_prepared_tree_size}
use bubblegum_batch_sdk.Client.Restore.{restore_entry, restore_entries, restore_batch_mint_builder}
use bubblegum_batch_sdk.Client.Restored.{add_signatures_or_fail_sound}

module _ (x : Deps) where
  restore_entry-unconfigured :
      (b : BatchMintBuilder x) (m : BatchMintInstruction x) {b' : BatchMintBuilder x}
      → b.collection_config ≡ none
      → restore_entry x b m ≡ ok b'
      → b'.collection_config ≡ none
  unfolding restore_entry record_asset
  restore_entry-unconfigured b m no_config h =
      let (result, e, rest) =
        >>=-eq-ok (add_asset x b m.leaf_update.owner m.leaf_update.delegate m.mint_args) _ h in
      let a = add_asset_sound x b m.leaf_update.owner m.leaf_update.delegate m.mint_args e in
      let still : result.1.collection_config ≡ none =
        ap (λ r. r.1.collection_config) (sym a.result_eq) ∙ no_config in
      elim (Option-cases m.creator_signature) [
        | inl unsigned ↦
            ap (λ c. c.collection_config) (sym (ok_injective (rw unsigned at rest))) ∙ still
        | inr (signatures, some_signed) ↦
            let entries = (result.0.nonce, signatures) ∷ [] in
            ap (λ c. c.collection_config)
              (sym (add_signatures_or_fail_sound x result.1 entries (rw some_signed at rest)))
            ∙ add_signatures_elim x (λ c. c.collection_config ≡ none)
                (λ c k received c' kept signed.
                  ap (λ d. d.collection_config)
                    (sym (sign_asset_sound x c k received signed).state_eq)
                  ∙ kept)
                result.1 entries still
      ]

  restore_entries-unconfigured :
      (b : BatchMintBuilder x) (ms : List (BatchMintInstruction x)) {b' : BatchMintBuilder x}
      → b.collection_config ≡ none
      → restore_entries x b ms ≡ ok b'
      → b'.collection_config ≡ none
  unfolding restore_entries
  restore_entries-unconfigured b [] no_config h =
      ap (λ c. c.collection_config) (sym (ok_injective h)) ∙ no_config
  restore_entries-unconfigured b (m ∷ ms) no_config h =
      let (next, first, rest) = >>=-eq-ok (restore_entry x b m) _ h in
      restore_entries-unconfigured next ms (restore_entry-unconfigured b m no_config first) rest

  new-unconfigured :
      (tree : Bytes) (d s c : ℕ) {b : BatchMintBuilder x}
      → new x tree d s c ≡ ok b
      → b.collection_config ≡ none
  unfolding new
  new-unconfigured tree d s c h =
      let (t, made, h₁) = >>=-eq-ok (make_concurrent_merkle_tree x d s) _ h in
      let (i, initialized, h₂) =
        >>=-eq-ok (unwrap {F = BatchMintError x} (x.merkle.initialize t)) _ h₁ in
      ap (λ b. b.collection_config) (sym (ok_injective h₂))

  -- A restored builder has no collection configuration.
  pub restore-unconfigured :
      (account : Outcome x.ClientError Bytes) (bm : BatchMint x) {b : BatchMintBuilder x}
      → restore_batch_mint_builder x account bm ≡ ok b
      → b.collection_config ≡ none
  unfolding restore_batch_mint_builder
  restore-unconfigured account bm h =
      let (size, sized, h₁) = >>=-eq-ok (read_prepared_tree_size x account) _ h in
      let (start, made, h₂) =
        >>=-eq-ok (new x bm.tree_id size.max_depth size.max_buffer_size size.canopy_depth) _ h₁ in
      restore_entries-unconfigured start bm.batch_mints
        (new-unconfigured bm.tree_id size.max_depth size.max_buffer_size size.canopy_depth made) h₂

  -- The entry's collection is not marked as verified.
  abbrev pub IsPlain : BatchMintInstruction x → Type 0
  IsPlain m = (c : Collection) → m.mint_args.collection ≡ some c → c.verified ≡ false

  -- The entry is the first with a collection that is marked as verified.
  pub record IsFirstVerified (ms : List (BatchMintInstruction x)) (c : Collection) : Type 0 where
    pub before : List (BatchMintInstruction x)
    pub entry : BatchMintInstruction x
    pub after : List (BatchMintInstruction x)
    pub place : ms ≡ before ++ entry ∷ after
    pub plain : All IsPlain before
    pub collection : entry.mint_args.collection ≡ some c
    pub verified : c.verified ≡ true

  -- Without a configuration: success if no collection is marked as verified, and else the error
  -- that names the first one that is.
  abbrev pub NeedsConfig :
      {A : Type 0} → List (BatchMintInstruction x) → A → Outcome (BatchMintError x) A → Type 0
  NeedsConfig ms result o =
      (All IsPlain ms × (o ≡ ok result))
      ⊎ ((c : Collection) × IsFirstVerified ms c
          × (o ≡ err (missing_collection_signature (x.key_to_string c.key))))

  plain_or_verified :
      (m : BatchMintInstruction x)
      → IsPlain m ⊎ ((c : Collection) × (m.mint_args.collection ≡ some c) × (c.verified ≡ true))
  plain_or_verified m = elim (Option-cases m.mint_args.collection) [
    | inl absent ↦ inl (λ c e. absurd (cc))
    | inr (c, there) ↦ elim (Bool-cases c.verified) [
      | inl yes_verified ↦ inr (c, there, yes_verified)
      | inr unverified ↦ inl (λ d e. cc)
    ]
  ]

  check_collection-plain :
      (m : BatchMintInstruction x)
      → IsPlain m
      → check_collection x none m.mint_args.collection ≡ ok tt
  unfolding check_collection
  check_collection-plain m plain = elim (Option-cases m.mint_args.collection) [
    | inl absent ↦ rw absent refl
    | inr (c, there) ↦ rw (there, plain c there) refl
  ]

  check_collection-verified :
      (c : Collection)
      → c.verified ≡ true
      → check_collection x none (some c)
        ≡ err (missing_collection_signature (x.key_to_string c.key))
  unfolding check_collection
  check_collection-verified c verified = rw verified refl

  later :
      (m : BatchMintInstruction x) (ms : List (BatchMintInstruction x)) (c : Collection)
      → IsPlain m
      → IsFirstVerified ms c
      → IsFirstVerified (m ∷ ms) c
  later m ms c plain f = record {
    before = m ∷ f.before;
    entry = f.entry;
    after = f.after;
    place = ap (λ l. m ∷ l) f.place;
    plain = (plain, f.plain);
    collection = f.collection;
    verified = f.verified;
  }

  -- The checks of entries whose creators have all signed, without a configuration.
  check_mints-NeedsConfig :
      (ms : List (BatchMintInstruction x))
      → All
          (λ (m : BatchMintInstruction x).
            check_creators x m.leaf_update.id m.creator_signature m.mint_args.creators ≡ ok tt)
          ms
      → NeedsConfig ms tt (check_mints x none ms)
  unfolding check_mints
  check_mints-NeedsConfig [] signed = inl (tt, refl)
  check_mints-NeedsConfig (m ∷ ms) (first, others) = elim (plain_or_verified m) [
    | inl plain ↦ elim (check_mints-NeedsConfig ms others) [
      | inl (all, passed) ↦
          inl ((plain, all), rw (first, check_collection-plain m plain, passed) refl)
      | inr (c, f, failed) ↦
          inr (c, later m ms c plain f, rw (first, check_collection-plain m plain, failed) refl)
    ]
    | inr (c, there, verified) ↦ inr (
      c,
      record {
        before = [];
        entry = m;
        after = ms;
        place = refl;
        plain = tt;
        collection = there;
        verified = verified;
      },
      rw (first, there, check_collection-verified c verified) refl,
    )
  ]

  check_mints-signed :
      (config : Option (CollectionConfig x)) (ms : List (BatchMintInstruction x))
      → check_mints x config ms ≡ ok tt
      → All
          (λ (m : BatchMintInstruction x).
            check_creators x m.leaf_update.id m.creator_signature m.mint_args.creators ≡ ok tt)
          ms
  unfolding check_mints
  check_mints-signed config [] h = tt
  check_mints-signed config (m ∷ ms) h =
      let (u, signed, h₁) =
        >>=-eq-ok (check_creators x m.leaf_update.id m.creator_signature m.mint_args.creators) _
          h in
      let (v, collection, h₂) = >>=-eq-ok (check_collection x config m.mint_args.collection) _ h₁ in
      (signed, check_mints-signed config ms h₂)

  -- What is built once the entries passed the checks under some configuration.
  pub built-NeedsConfig :
      {A : Type 0} (config : Option (CollectionConfig x)) (ms : List (BatchMintInstruction x))
      (result : A)
      → check_mints x config ms ≡ ok tt
      → NeedsConfig ms result (check_mints x none ms >>= λ u. ok result)
  built-NeedsConfig config ms result h =
      elim (check_mints-NeedsConfig ms (check_mints-signed config ms h)) [
        | inl (all, passed) ↦ inl (all, rw passed refl)
        | inr (c, f, failed) ↦ inr (c, f, rw failed refl)
      ]
