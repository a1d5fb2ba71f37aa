-- ===== src/Client/Restored.antt =====
-- What `restore_batch_mint_builder` of src/batch_mint_client.rs gives back.
use bubblegum_batch_sdk.Base.{
  ℕ, ◌≡◌, refl, sym, ap, ◌∙◌, subst, List, [], ◌∷◌, ◌++◌, Outcome, ok, >>=-eq-ok, ok_injective,
  unwrap, Option-cases, inl, inr,
}
use bubblegum_batch_sdk.Base.Bytes.{Bytes}
use bubblegum_batch_sdk.Base.Maps.{HashMap, values}
use mathlib.Core.List.{append-nil, append_assoc}
use bubblegum_batch_sdk.Deps.{Deps, Metadata}
use bubblegum_batch_sdk.Deps.Laws.{HashLaws}
use bubblegum_batch_sdk.MerkleTree.{make_concurrent_merkle_tree}
use bubblegum_batch_sdk.Errors.{BatchMintError}
use bubblegum_batch_sdk.Model.{BatchMint, BatchMintInstruction}
use bubblegum_batch_sdk.Builder.State.{BatchMintBuilder, new}
use bubblegum_batch_sdk.Builder.Assets.{add_asset}
use bubblegum_batch_sdk.Builder.Signatures.{add_signatures_for_verified_creators}
use bubblegum_batch_sdk.Builder.Building.{build_batch_mint}
use bubblegum_batch_sdk.Validations.{validate_batch_mint}
use bubblegum_batch_sdk.Flow.Entries.{asset_of, assets_of, add_asset_assets, add_signatures_assets}
use bubblegum_batch_sdk.Flow.Reach.{Reach, created, added, signed, Reach-IsConsistent}
use bubblegum_batch_sdk.Flow.Accepted.{expected_mint, validate-build_batch_mint}
use bubblegum_batch_sdk.Client.Tree.{read_prepared_tree_size}
use bubblegum_batch_sdk.Client.Restore.{
  add_signatures_or_fail, restore_entry, restore_entries, restore_batch_mint_builder,
}

module _ (x : Deps) where
  -- A builder that can be reached, with these assets.
  HasAssets : BatchMintBuilder x → List (Bytes × Bytes × Metadata x) → Type 0
  HasAssets b assets = Reach x b × (assets_of x (values b.mints) ≡ assets)

  pub add_signatures_or_fail_sound :
      (b : BatchMintBuilder x) (entries : List (ℕ × HashMap x.Signature)) {b' : BatchMintBuilder x}
      → add_signatures_or_fail x b entries ≡ ok b'
      → (add_signatures_for_verified_creators x b entries).1 ≡ b'
  unfolding add_signatures_or_fail
  add_signatures_or_fail_sound b entries h =
      ok_injective ((>>=-eq-ok (add_signatures_for_verified_creators x b entries).0 _ h).2)

  new_mints :
      (tree : Bytes) (d s c : ℕ) {b : BatchMintBuilder x} → new x tree d s c ≡ ok b → b.mints ≡ []
  unfolding new
  new_mints tree d s c h =
      let (t, made, h₁) = >>=-eq-ok (make_concurrent_merkle_tree x d s) _ h in
      let (i, initialized, h₂) =
        >>=-eq-ok (unwrap {F = BatchMintError x} (x.merkle.initialize t)) _ h₁ in
      ap (λ b. b.mints) (sym (ok_injective h₂))

module _ (x : Deps) (laws : HashLaws x) where
  restore_entry-HasAssets :
      (b : BatchMintBuilder x) (m : BatchMintInstruction x)
      (assets : List (Bytes × Bytes × Metadata x)) {b' : BatchMintBuilder x}
      → HasAssets x b assets
      → restore_entry x b m ≡ ok b'
      → HasAssets x b' (assets ++ asset_of x m ∷ [])
  unfolding restore_entry HasAssets
  restore_entry-HasAssets b m assets {b' = b'} (r, same) h =
      let owner = m.leaf_update.owner in
      let delegate = m.leaf_update.delegate in
      let (result, e, rest) = >>=-eq-ok (add_asset x b owner delegate m.mint_args) _ h in
      let r₁ = added owner delegate m.mint_args result.0 r e in
      let more : assets_of x (values result.1.mints) ≡ assets ++ asset_of x m ∷ [] =
        add_asset_assets x b owner delegate m.mint_args (Reach-IsConsistent x laws r) e
        ∙ ap (λ as'. as' ++ asset_of x m ∷ []) same in
      elim (Option-cases m.creator_signature) [
        | inl unsigned ↦
            subst (λ c. HasAssets x c (assets ++ asset_of x m ∷ []))
              (ok_injective (rw unsigned at rest)) (unfold HasAssets in (r₁, more))
        | inr (signatures, some_signed) ↦
            let entries = (result.0.nonce, signatures) ∷ [] in
            let state = add_signatures_or_fail_sound x result.1 entries (rw some_signed at rest) in
            (
              signed entries r₁ state,
              ap (λ c. assets_of x (values c.mints)) (sym state)
                  ∙ add_signatures_assets x result.1 entries
                  ∙ more,
            )
      ]

  restore_entries-HasAssets :
      (b : BatchMintBuilder x) (ms : List (BatchMintInstruction x))
      (assets : List (Bytes × Bytes × Metadata x)) {b' : BatchMintBuilder x}
      → HasAssets x b assets
      → restore_entries x b ms ≡ ok b'
      → HasAssets x b' (assets ++ assets_of x ms)
  unfolding restore_entries
  restore_entries-HasAssets b [] assets has h =
      subst (λ c. HasAssets x c (assets ++ [])) (ok_injective h)
        (subst (HasAssets x b) (sym (append-nil assets)) has)
  restore_entries-HasAssets b (m ∷ ms) assets {b' = b'} has h =
      let (next, first, rest) = >>=-eq-ok (restore_entry x b m) _ h in
      subst (HasAssets x b') (append_assoc assets (asset_of x m ∷ []) (assets_of x ms)) (
        restore_entries-HasAssets next ms (assets ++ asset_of x m ∷ [])
          (restore_entry-HasAssets b m assets has first) rest)

  -- If leaves are hashed as documented, the builder that is restored from any batch mint can be
  -- reached by the public calls, and its entries have the owners, the delegates and the
  -- arguments of those of the batch mint, in order.
  pub restore_batch_mint_builder-Reach :
      (account : Outcome x.ClientError Bytes) (bm : BatchMint x) (b : BatchMintBuilder x)
      → restore_batch_mint_builder x account bm ≡ ok b
      → Reach x b × (assets_of x (values b.mints) ≡ assets_of x bm.batch_mints)
  unfolding restore_batch_mint_builder
  restore_batch_mint_builder-Reach account bm b h =
      let (size, sized, h₁) = >>=-eq-ok (read_prepared_tree_size x account) _ h in
      let (start, made, h₂) =
        >>=-eq-ok (new x bm.tree_id size.max_depth size.max_buffer_size size.canopy_depth) _ h₁ in
      unfold HasAssets in
      restore_entries-HasAssets start bm.batch_mints []
        (
          created bm.tree_id size.max_depth size.max_buffer_size size.canopy_depth made,
          ap (λ m. assets_of x (values m))
                (new_mints x bm.tree_id size.max_depth size.max_buffer_size size.canopy_depth made)
              ∙ (unfold values in refl),
        )
        h₂

  -- If leaves are hashed as documented: whatever batch mint a builder is restored from, what is
  -- built from that builder is accepted by the validator.
  pub validate_restored :
      (account : Outcome x.ClientError Bytes) (bm bm' : BatchMint x) (b : BatchMintBuilder x)
      → restore_batch_mint_builder x account bm ≡ ok b
      → build_batch_mint x b ≡ ok bm'
      → validate_batch_mint x bm' (expected_mint x b.collection_config) ≡ ok tt
  validate_restored account bm bm' b restored built =
      validate-build_batch_mint x laws b bm'
        (restore_batch_mint_builder-Reach account bm b restored).0 built
