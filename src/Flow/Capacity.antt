-- ===== src/Flow/Capacity.antt =====
-- How many assets a builder of src/batch_mint_builder.rs takes.
use bubblegum_batch_sdk.Base.{
  ℕ, suc, ◌+◌, ◌^◌, ◌≤◌, ◌<◌, ◌≡◌, ◌≢◌, refl, sym, ◌∙◌, subst, List, [], ◌∷◌, length, arith, ok,
  Succeeds, >>=-eq-ok, ok_injective, bind-Succeeds, unwrap,
}
use bubblegum_batch_sdk.Base.Bytes.{Bytes}
use bubblegum_batch_sdk.Base.Maps.{HashMap, values, length-values, length-put}
use mathlib.Core.Path.{subst₂}
use bubblegum_batch_sdk.Deps.{Deps, Metadata}
use bubblegum_batch_sdk.Deps.Laws.{HashLaws, TreeLaws}
use bubblegum_batch_sdk.Errors.{BatchMintError}
use bubblegum_batch_sdk.Model.{CollectionConfig}
use bubblegum_batch_sdk.MerkleTree.{make_concurrent_merkle_tree}
use bubblegum_batch_sdk.Builder.Hashing.{MetadataArgsHash, hashes_of}
use bubblegum_batch_sdk.Builder.State.{BatchMintBuilder, new, setup_collection_config}
use bubblegum_batch_sdk.Builder.Assets.{add_asset}
use bubblegum_batch_sdk.Builder.AddAsset.{add_asset_sound}
use bubblegum_batch_sdk.Builder.Signatures.{sign_asset}
use bubblegum_batch_sdk.Flow.Signing.{sign_asset_sound, add_signatures_elim}
use bubblegum_batch_sdk.Flow.Reach.{Reach, created, added, signed, configured, Reach-IsConsistent}
use bubblegum_batch_sdk.Flow.Canopy.{asset_hashes, length-leaves, Reach-IsTracked}
use bubblegum_batch_sdk.Flow.Growing.{add_assets, add_asset-Extended}
use bubblegum_batch_sdk.Flow.Total.{add_asset_total}

module _ (x : Deps) where
  abbrev pub Fits : BatchMintBuilder x → Type 0
  Fits b = length b.mints ≤ 2 ^ b.max_depth

  new-Fits : (tree : Bytes) (d s c : ℕ) {b : BatchMintBuilder x} → new x tree d s c ≡ ok b → Fits b
  unfolding new
  new-Fits tree d s c h =
      let E : Type 0 = BatchMintError x in
      let (t, made, h₁) = >>=-eq-ok (make_concurrent_merkle_tree x d s) _ h in
      let (init, initialized, h₂) = >>=-eq-ok (unwrap {F = E} (x.merkle.initialize t)) _ h₁ in
      subst Fits (ok_injective h₂) (omega arith)

  sign_asset-Fits :
      (b : BatchMintBuilder x) (k : ℕ) (received : HashMap x.Signature) (b' : BatchMintBuilder x)
      → Fits b
      → sign_asset x b k received ≡ ok b'
      → Fits b'
  sign_asset-Fits b k received b' fits h =
      let s = sign_asset_sound x b k received h in
      subst Fits s.state_eq (subst (λ n. n ≤ 2 ^ b.max_depth) (sym (length-put k _ b.mints)) fits)

  setup_collection_config-Fits :
      (b : BatchMintBuilder x) (config : CollectionConfig x)
      → Fits b
      → Fits (setup_collection_config x b config)
  unfolding setup_collection_config
  setup_collection_config-Fits b config fits = fits

module _ (x : Deps) where
  -- The arguments can be serialized, and the hash of the asset with this number is not the empty
  -- node.
  abbrev pub IsHashable : Bytes → Bytes → ℕ → Metadata x → Type 0
  IsHashable tree owner n m =
      (args : Bytes) × (x.try_to_vec m ≡ ok args)
      × ((hashes_of x n tree owner owner m args).hashed_leaf ≢ x.empty)

  -- The assets that get the numbers from `n` on.
  abbrev pub AreHashable : Bytes → Bytes → ℕ → List (Metadata x) → Type 0
  AreHashable tree owner n [] = Unit
  AreHashable tree owner n (m ∷ ms) = IsHashable tree owner n m × AreHashable tree owner (suc n) ms

module _ (x : Deps) (trees : TreeLaws x) (laws : HashLaws x) where
  -- A tree that takes an asset had room for it.
  pub add_asset-room :
      (b : BatchMintBuilder x) (owner delegate : Bytes) (metadata_args : Metadata x)
      {result : MetadataArgsHash × BatchMintBuilder x}
      → Reach x b
      → add_asset x b owner delegate metadata_args ≡ ok result
      → length b.mints < 2 ^ b.max_depth
  add_asset-room b owner delegate metadata_args r e =
      let a = add_asset_sound x b owner delegate metadata_args e in
      let count = length-leaves x (values b.mints) ∙ length-values b.mints in
      let (holds, fits, logged) =
        trees.append_lem b.max_depth b.merkle a.next (asset_hashes x b) a.hashes.hashed_leaf a.root
          (Reach-IsTracked x trees laws r).holds a.appended in
      omega (arith, count, fits)

  -- Over a tree and hashes that behave as documented, no builder that can be reached has more
  -- assets than its tree has leaves.
  pub Reach-Fits : {b : BatchMintBuilder x} → Reach x b → length b.mints ≤ 2 ^ b.max_depth
  Reach-Fits (created tree d s c e) = new-Fits x tree d s c e
  Reach-Fits (added owner delegate metadata_args h r e) =
      let one =
        add_asset-Extended x laws _ owner delegate metadata_args (Reach-IsConsistent x laws r) e in
      let room = add_asset-room _ owner delegate metadata_args r e in
      subst₂ (λ n d. n ≤ 2 ^ d) (sym one.count) (sym one.max_depth) room
  Reach-Fits (signed entries r e) =
      rw (← e) (add_signatures_elim x (Fits x) (sign_asset-Fits x) _ entries (Reach-Fits r))
  Reach-Fits (configured config r e) =
      rw (← e) (setup_collection_config-Fits x _ config (Reach-Fits r))

  -- While there is room for all of them, assets that can be hashed are added one after the other.
  pub add_assets_total :
      (ms : List (Metadata x)) (b : BatchMintBuilder x) (owner : Bytes)
      → Reach x b
      → AreHashable x b.tree_account owner (length b.mints) ms
      → b.canopy_depth ≤ b.max_depth
      → length b.mints + length ms ≤ 2 ^ b.max_depth
      → Succeeds (add_assets x b owner ms)
  unfolding add_assets
  add_assets_total [] b owner r hashable le room = (b, refl)
  add_assets_total (m ∷ ms) b owner r ((args, serialized, nonempty), others) le room =
      let (b', e, count, hashes) =
        add_asset_total x trees laws b owner owner m args r le (omega (arith, room)) serialized
          nonempty in
      let one = add_asset-Extended x laws b owner owner m (Reach-IsConsistent x laws r) e in
      bind-Succeeds (add_asset x b owner owner m) _ _ e (
        add_assets_total ms b' owner (added owner owner m _ r e)
          (subst₂ (λ tree n. AreHashable x tree owner n ms) (sym one.tree_account) (sym one.count)
            others)
          (subst₂ (λ c d. c ≤ d) (sym one.canopy_depth) (sym one.max_depth) le)
          (subst₂ (λ n d. n + length ms ≤ 2 ^ d) (sym one.count) (sym one.max_depth)
            (omega (arith, room))))
