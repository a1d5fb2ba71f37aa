-- ===== src/Flow/Erased.antt =====
-- A builder of src/batch_mint_builder.rs without the signatures and the collection: what its assets
-- alone, added in their order, lead to.
use bubblegum_batch_sdk.Base.{
  ℕ, ◌≡◌, refl, sym, ap, ◌∙◌, subst, none, List, [], ◌∷◌, ◌++◌, map, length, ok, ◌>>=◌,
  bind_through, >>=-eq-ok, ok_injective, unwrap, expect,
}
use bubblegum_batch_sdk.Base.Bytes.{Bytes}
use bubblegum_batch_sdk.Base.Maps.{
  HashMap, insert, values, values-append, map_values, length-map_values, map_values-append,
  map_values-put, map_values-insert, CountsFrom,
}
use bubblegum_batch_sdk.Deps.{Deps, Metadata}
use bubblegum_batch_sdk.Deps.Data.{ChangeLog}
use bubblegum_batch_sdk.Deps.Laws.{HashLaws}
use bubblegum_batch_sdk.Errors.{BatchMintError}
use bubblegum_batch_sdk.Model.{BatchMintInstruction, CollectionConfig, from_spl}
use bubblegum_batch_sdk.Builder.Changelog.{make_changelog_path}
use bubblegum_batch_sdk.MerkleTree.{make_concurrent_merkle_tree}
use bubblegum_batch_sdk.Builder.Hashing.{MetadataArgsHash, hash_metadata_args, hashes_of}
use bubblegum_batch_sdk.Builder.State.{BatchMintBuilder, new, setup_collection_config}
use bubblegum_batch_sdk.Builder.Assets.{leaf_schema, update_canopy, record_asset, add_asset}
use bubblegum_batch_sdk.Builder.AddAsset.{add_asset_sound}
use bubblegum_batch_sdk.Builder.Signatures.{sign_asset, add_signatures_for_verified_creators}
use bubblegum_batch_sdk.Flow.Invariant.{IsConsistent, insert_entry}
use bubblegum_batch_sdk.Flow.Growing.{add_asset-Extended}
use bubblegum_batch_sdk.Flow.Signing.{sign_asset_sound, add_signatures_elim}
use bubblegum_batch_sdk.Flow.Reach.{Reach, created, added, signed, configured, Reach-IsConsistent}
use bubblegum_batch_sdk.Validations.Same.{unsigned}

module _ (x : Deps) where
  abbrev pub erase : BatchMintBuilder x → BatchMintBuilder x
  erase b = record b { mints = map_values (unsigned x) b.mints; collection_config = none }

  -- Signing an asset changes nothing but signatures.
  pub erase-sign_asset :
      (b : BatchMintBuilder x) (k : ℕ) (received : HashMap x.Signature) {b' : BatchMintBuilder x}
      → sign_asset x b k received ≡ ok b'
      → erase b' ≡ erase b
  erase-sign_asset b k received h =
      let s = sign_asset_sound x b k received h in
      ap erase (sym s.state_eq)
      ∙ ap (λ ms. record b { mints = ms; collection_config = none })
          (map_values-put (unsigned x) k b.mints s.found refl)

  pub erase-add_signatures :
      (b : BatchMintBuilder x) (entries : List (ℕ × HashMap x.Signature))
      → erase (add_signatures_for_verified_creators x b entries).1 ≡ erase b
  erase-add_signatures b entries =
      add_signatures_elim x (λ b'. erase b' ≡ erase b)
        (λ c k received c' same e. erase-sign_asset c k received e ∙ same) b entries refl

  erase-setup :
      (b : BatchMintBuilder x) (config : CollectionConfig x)
      → erase (setup_collection_config x b config) ≡ erase b
  unfolding setup_collection_config
  erase-setup b config = refl

  record_asset-erase :
      (b : BatchMintBuilder x) (owner delegate : Bytes) (metadata_args : Metadata x)
      (h : MetadataArgsHash) (merkle : x.Tree) (log : ChangeLog) (canopy : List Bytes)
      → let recorded = record_asset x b owner delegate metadata_args h merkle log canopy in
        record_asset x (erase b) owner delegate metadata_args h merkle log canopy
        ≡ (recorded.0, erase recorded.1)
  unfolding record_asset
  record_asset-erase b owner delegate metadata_args h merkle log canopy =
      let m : BatchMintInstruction x = record {
        tree_update = record {
          id = b.tree_account;
          path = map from_spl (make_changelog_path log);
          seq = x.merkle.sequence_number merkle;
          index = log.index;
        };
        leaf_update = leaf_schema x h owner delegate;
        mint_args = metadata_args;
        authority = owner;
        creator_signature = none;
      } in
      let same = sym (map_values-insert (unsigned x) h.nonce m b.mints) in
      λ i. (
        h,
        record b {
          merkle = merkle;
          last_leaf_hash = h.hashed_leaf;
          canopy_leaves = canopy;
          mints = same i;
          collection_config = none;
        },
      )

  -- Adding an asset reads neither signatures nor the collection.
  pub add_asset-erase :
      (b : BatchMintBuilder x) (owner delegate : Bytes) (metadata_args : Metadata x)
      → add_asset x (erase b) owner delegate metadata_args
        ≡ (add_asset x b owner delegate metadata_args >>= λ r. ok (r.0, erase r.1))
  unfolding add_asset update_canopy
  add_asset-erase b owner delegate metadata_args =
      let count = length-map_values (unsigned x) b.mints in
      rw count (
        bind_through
          (hash_metadata_args x (length b.mints) b.tree_account owner delegate metadata_args) _ _ _
          (λ h. bind_through (unwrap (x.merkle.append b.merkle h.hashed_leaf)) _ _ _ (λ appended.
            bind_through
              (expect (x.merkle.change_logs appended.1 (x.merkle.active_index appended.1))) _ _ _
              (λ changelog. bind_through (update_canopy x b changelog) _ _ _ (λ canopy. ap ok (
                record_asset-erase b owner delegate metadata_args h appended.1 changelog
                  canopy))))))

  -- The entry that an asset gets.
  pub record Entered (b b' : BatchMintBuilder x) (owner delegate : Bytes)
      (metadata_args : Metadata x) (h : MetadataArgsHash) : Type 0 where
    pub entry : BatchMintInstruction x
    pub owner_eq : entry.leaf_update.owner ≡ owner
    pub delegate_eq : entry.leaf_update.delegate ≡ delegate
    pub args_eq : entry.mint_args ≡ metadata_args
    pub unsigned_eq : entry.creator_signature ≡ none
    pub nonce_eq : h.nonce ≡ length b.mints
    pub mints_eq : b'.mints ≡ b.mints ++ (length b.mints, entry) ∷ []

  pub add_asset-Entered :
      (b : BatchMintBuilder x) (owner delegate : Bytes) (metadata_args : Metadata x)
      {h : MetadataArgsHash} {b' : BatchMintBuilder x}
      → CountsFrom 0 b.mints
      → add_asset x b owner delegate metadata_args ≡ ok (h, b')
      → Entered b b' owner delegate metadata_args h
  unfolding record_asset leaf_schema
  add_asset-Entered b owner delegate metadata_args {h = h} counted e =
      let a = add_asset_sound x b owner delegate metadata_args e in
      let nonce_eq : a.hashes.nonce ≡ length b.mints =
        ap (λ h'. h'.nonce) a.hashes_eq ∙ (unfold hashes_of in refl) in
      let m : BatchMintInstruction x = record {
        tree_update = record {
          id = b.tree_account;
          path = map from_spl (make_changelog_path a.log);
          seq = x.merkle.sequence_number a.next;
          index = a.log.index;
        };
        leaf_update = leaf_schema x a.hashes owner delegate;
        mint_args = metadata_args;
        authority = owner;
        creator_signature = none;
      } in
      record {
        entry = m;
        owner_eq = refl;
        delegate_eq = refl;
        args_eq = refl;
        unsigned_eq = refl;
        nonce_eq =
            ap (λ (r : MetadataArgsHash × BatchMintBuilder x). r.0.nonce) (sym a.result_eq)
            ∙ nonce_eq;
        mints_eq =
            ap (λ (r : MetadataArgsHash × BatchMintBuilder x). r.1.mints) (sym a.result_eq)
            ∙ ap (λ k. insert k m b.mints) nonce_eq
            ∙ insert_entry x b m counted;
      }

  -- A builder after the assets of the entries, which become its next entries as they are.
  abbrev pub Chain :
      BatchMintBuilder x → List (BatchMintInstruction x) → BatchMintBuilder x → Type 0
  Chain b [] b' = b ≡ b'
  Chain b (m ∷ ms) b' =
      (h : MetadataArgsHash) × (next : BatchMintBuilder x) × (add_asset x b m.leaf_update.owner
          m.leaf_update.delegate m.mint_args
        ≡ ok (h, next))
      × (h.nonce ≡ length b.mints)
      × (next.mints ≡ b.mints ++ (length b.mints, m) ∷ [])
      × Chain next ms b'

  Chain-snoc :
      (b b₁ b₂ : BatchMintBuilder x) (ms : List (BatchMintInstruction x))
      (m : BatchMintInstruction x)
      → Chain b ms b₁
      → Chain b₁ (m ∷ []) b₂
      → Chain b (ms ++ m ∷ []) b₂
  Chain-snoc b b₁ b₂ [] m first last = subst (λ c. Chain c (m ∷ []) b₂) (sym first) last
  Chain-snoc b b₁ b₂ (n ∷ ms) m (h, next, e, nonce, mints, first) last =
      (h, next, e, nonce, mints, Chain-snoc next b₁ b₂ ms m first last)

  -- The builder is what its entries' assets lead to from a new builder of its sizes.
  abbrev pub IsReplay : BatchMintBuilder x → Type 0
  IsReplay b =
      (start : BatchMintBuilder x) × (new x b.tree_account b.max_depth b.max_buffer_size
          b.canopy_depth
        ≡ ok start)
      × Chain start (values b.mints) b

  new-IsReplay :
      (tree : Bytes) (d s c : ℕ) {b : BatchMintBuilder x}
      → new x tree d s c ≡ ok b
      → IsReplay (erase b)
  unfolding new values
  new-IsReplay tree d s c e =
      let (t, made, e₁) = >>=-eq-ok (make_concurrent_merkle_tree x d s) _ e in
      let (init, initialized, e₂) =
        >>=-eq-ok (unwrap {F = BatchMintError x} (x.merkle.initialize t)) _ e₁ in
      let b_eq = ok_injective e₂ in
      subst (λ b. IsReplay (erase b)) b_eq (_, e ∙ ap ok (sym b_eq), refl)

  added-Chain :
      (b : BatchMintBuilder x) (owner delegate : Bytes) (metadata_args : Metadata x)
      (h : MetadataArgsHash) (b' : BatchMintBuilder x)
      → CountsFrom 0 b.mints
      → add_asset x b owner delegate metadata_args ≡ ok (h, b')
      → (m : BatchMintInstruction x) × Chain (erase b) (m ∷ []) (erase b')
        × (values (erase b').mints ≡ values (erase b).mints ++ m ∷ [])
  added-Chain b owner delegate metadata_args h b' counted e =
      let n = add_asset-Entered b owner delegate metadata_args counted e in
      let m = n.entry in
      let count = length-map_values (unsigned x) b.mints in
      let m_eq : unsigned x m ≡ m =
        ap (λ s. record m { creator_signature = s }) (sym n.unsigned_eq) in
      let same : add_asset x (erase b) m.leaf_update.owner m.leaf_update.delegate m.mint_args
          ≡ ok (h, erase b') =
        rw (n.owner_eq, n.delegate_eq, n.args_eq)
          (add_asset-erase b owner delegate metadata_args ∙ (rw e)) in
      let mints : (erase b').mints ≡ (erase b).mints ++ (length (erase b).mints, m) ∷ [] =
        ap (map_values (unsigned x)) n.mints_eq
        ∙ map_values-append (unsigned x) b.mints _
        ∙ (λ i. map_values (unsigned x) b.mints ++ (sym count i, m_eq i) ∷ []) in
      (
        m,
        (h, erase b', same, n.nonce_eq ∙ sym count, mints, refl),
        ap values mints
            ∙ values-append (map_values (unsigned x) b.mints) _
            ∙ (unfold values in refl),
      )

module _ (x : Deps) (laws : HashLaws x) where
  added-IsReplay :
      (b : BatchMintBuilder x) (owner delegate : Bytes) (metadata_args : Metadata x)
      (h : MetadataArgsHash) (b' : BatchMintBuilder x)
      → IsConsistent x b
      → IsReplay x (erase x b)
      → add_asset x b owner delegate metadata_args ≡ ok (h, b')
      → IsReplay x (erase x b')
  added-IsReplay b owner delegate metadata_args h b' v (start, made, chain) e =
      let one = add_asset-Extended x laws b owner delegate metadata_args v e in
      let (m, last, values_eq) = added-Chain x b owner delegate metadata_args h b' v.counted e in
      (
        start,
        rw (one.tree_account, one.max_depth, one.max_buffer_size, one.canopy_depth) made,
        subst (λ ms. Chain x start ms (erase x b')) (sym values_eq)
            (Chain-snoc x start (erase x b) (erase x b') (values (erase x b).mints) m chain last),
      )

  -- Whatever calls led to a builder, without its signatures and its collection it is what its assets
  -- lead to.
  pub Reach-IsReplay : {b : BatchMintBuilder x} → Reach x b → IsReplay x (erase x b)
  Reach-IsReplay (created tree d s c e) = new-IsReplay x tree d s c e
  Reach-IsReplay (added owner delegate metadata_args h r e) =
      added-IsReplay _ owner delegate metadata_args h _ (Reach-IsConsistent x laws r)
        (Reach-IsReplay r) e
  Reach-IsReplay (signed entries r e) =
      subst (λ b. IsReplay x (erase x b)) e
        (subst (IsReplay x) (sym (erase-add_signatures x _ entries)) (Reach-IsReplay r))
  Reach-IsReplay (configured config r e) =
      subst (λ b. IsReplay x (erase x b)) e
        (subst (IsReplay x) (sym (erase-setup x _ config)) (Reach-IsReplay r))
