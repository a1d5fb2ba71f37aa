-- ===== src/Flow/LastLeaf.antt =====
-- The last leaf hash of a builder of src/batch_mint_builder.rs, and the number of its assets.
use bubblegum_batch_sdk.Base.{
  ℕ, ◌^◌, ◌<◌, ◌≡◌, refl, sym, ap, ◌∙◌, subst, arith, List, [], ◌∷◌, ◌++◌, length, replicate, ok,
  some, >>=-eq-ok, ok_injective, unwrap,
}
use bubblegum_batch_sdk.Base.Bytes.{Bytes}
use bubblegum_batch_sdk.Base.Pow.{pow_mono}
use bubblegum_batch_sdk.Base.Maps.{HashMap, values}
use bubblegum_batch_sdk.Deps.{Deps, Metadata}
use bubblegum_batch_sdk.Deps.Laws.{HashLaws, TreeLaws}
use bubblegum_batch_sdk.Errors.{BatchMintError}
use bubblegum_batch_sdk.Model.{BatchMintInstruction, CollectionConfig}
use bubblegum_batch_sdk.MerkleTree.{make_concurrent_merkle_tree}
use bubblegum_batch_sdk.MerkleTree.Sizes.{make_concurrent_merkle_tree_bounds}
use bubblegum_batch_sdk.Builder.Hashing.{MetadataArgsHash, hashes_of}
use bubblegum_batch_sdk.Builder.State.{BatchMintBuilder, new, setup_collection_config}
use bubblegum_batch_sdk.Builder.Assets.{record_asset, add_asset}
use bubblegum_batch_sdk.Builder.AddAsset.{add_asset_sound}
use bubblegum_batch_sdk.Builder.Signatures.{sign_asset}
use bubblegum_batch_sdk.Validations.Assets.{leaves}
use bubblegum_batch_sdk.Flow.Invariant.{IsConsistent}
use bubblegum_batch_sdk.Flow.Signing.{sign_asset_sound, add_signatures_elim}
use bubblegum_batch_sdk.Flow.Reach.{Reach, created, added, signed, configured, Reach-IsConsistent}
use bubblegum_batch_sdk.Flow.Canopy.{asset_hashes, leaves-put}
use bubblegum_batch_sdk.Flow.Total.{recorded_hashes}
use bubblegum_batch_sdk.Flow.Capacity.{Reach-Fits}

-- The last of the hashes, or 32 zero bytes where there is none.
abbrev last_from : Bytes → List Bytes → Bytes
last_from before [] = before
last_from before (h ∷ hs) = last_from h hs

abbrev pub last_hash : List Bytes → Bytes
last_hash hs = last_from (replicate 32 0) hs

last_from-snoc :
    (before : Bytes) (hs : List Bytes) (h : Bytes) → last_from before (hs ++ h ∷ []) ≡ h
last_from-snoc before [] h = refl
last_from-snoc before (g ∷ hs) h = last_from-snoc g hs h

module _ (x : Deps) where
  abbrev KeepsLast : BatchMintBuilder x → Type 0
  KeepsLast b = b.last_leaf_hash ≡ last_hash (asset_hashes x b)

  new-KeepsLast :
      (tree : Bytes) (d s c : ℕ) {b : BatchMintBuilder x} → new x tree d s c ≡ ok b → KeepsLast b
  unfolding new values leaves
  new-KeepsLast tree d s c h =
      let (t, made, h₁) = >>=-eq-ok (make_concurrent_merkle_tree x d s) _ h in
      let (i, initialized, h₂) =
        >>=-eq-ok (unwrap {F = BatchMintError x} (x.merkle.initialize t)) _ h₁ in
      subst KeepsLast (ok_injective h₂) refl

  add_asset-KeepsLast :
      HashLaws x
      → (b : BatchMintBuilder x) (owner delegate : Bytes) (metadata_args : Metadata x)
        {result : MetadataArgsHash × BatchMintBuilder x}
      → IsConsistent x b
      → add_asset x b owner delegate metadata_args ≡ ok result
      → KeepsLast result.1
  unfolding record_asset
  add_asset-KeepsLast laws b owner delegate metadata_args v e =
      let a = add_asset_sound x b owner delegate metadata_args e in
      let h = hashes_of x (length b.mints) b.tree_account owner delegate metadata_args a.args in
      let (hashes_eq, count) =
        recorded_hashes x laws b owner delegate metadata_args a.args a.next a.log a.canopy v in
      subst (λ r. KeepsLast r.1)
        (ap (λ h'. record_asset x b owner delegate metadata_args h' a.next a.log a.canopy)
            (sym a.hashes_eq)
          ∙ a.result_eq)
        (sym (
          ap last_hash hashes_eq
          ∙ last_from-snoc (replicate 32 0) (asset_hashes x b) h.hashed_leaf))

  sign_asset-KeepsLast :
      (b : BatchMintBuilder x) (k : ℕ) (received : HashMap x.Signature) (b' : BatchMintBuilder x)
      → KeepsLast b
      → sign_asset x b k received ≡ ok b'
      → KeepsLast b'
  sign_asset-KeepsLast b k received b' kept h =
      let s = sign_asset_sound x b k received h in
      let m' : BatchMintInstruction x = record s.entry { creator_signature = some s.signatures } in
      subst KeepsLast s.state_eq
        (kept ∙ ap last_hash (sym (leaves-put x k b.mints s.entry m' s.found refl)))

  setup_collection_config-KeepsLast :
      (b : BatchMintBuilder x) (config : CollectionConfig x)
      → KeepsLast b
      → KeepsLast (setup_collection_config x b config)
  unfolding setup_collection_config
  setup_collection_config-KeepsLast b config kept = kept

  -- A builder that can be reached keeps the hash of its last asset.
  pub Reach-KeepsLast :
      HashLaws x
      → {b : BatchMintBuilder x} → Reach x b
      → b.last_leaf_hash ≡ last_hash (asset_hashes x b)
  Reach-KeepsLast laws (created tree d s c e) = new-KeepsLast tree d s c e
  Reach-KeepsLast laws (added owner delegate metadata_args h r e) =
      add_asset-KeepsLast laws _ owner delegate metadata_args (Reach-IsConsistent x laws r) e
  Reach-KeepsLast laws (signed entries r e) =
      rw (← e)
        (add_signatures_elim x KeepsLast sign_asset-KeepsLast _ entries (Reach-KeepsLast laws r))
  Reach-KeepsLast laws (configured config r e) =
      rw (← e) (setup_collection_config-KeepsLast _ config (Reach-KeepsLast laws r))

  -- The number of assets fits in 32 bits.
  pub Reach-small :
      TreeLaws x → HashLaws x → {b : BatchMintBuilder x} → Reach x b → length b.mints < 2 ^ 32
  Reach-small trees laws {b = b} r =
      let v = Reach-IsConsistent x laws r in
      let bounds = make_concurrent_merkle_tree_bounds x b.max_depth b.max_buffer_size v.made in
      let fits = Reach-Fits x trees laws r in omega (arith, fits, pow_mono b.max_depth 30 bounds.2)
