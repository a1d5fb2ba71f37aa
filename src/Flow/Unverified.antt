-- ===== src/Flow/Unverified.antt =====
-- Assets with no verified creator or collection, against the checks of `build_batch_mint` of
-- src/batch_mint_builder.rs.
use bubblegum_batch_sdk.Base.{◌≡◌, refl, false, none, some, Option, List, [], ◌∷◌, All, ok}
use bubblegum_batch_sdk.Base.Bytes.{Bytes}
use bubblegum_batch_sdk.Base.Maps.{HashMap}
use bubblegum_batch_sdk.Deps.{Deps, Metadata}
use bubblegum_batch_sdk.Deps.Data.{Creator, Collection}
use bubblegum_batch_sdk.Model.{BatchMintInstruction, CollectionConfig}
use bubblegum_batch_sdk.Builder.Building.{
  check_creator, check_creators, check_collection, check_mints,
}
use bubblegum_batch_sdk.Flow.Entries.{assets_of}

module _ (x : Deps) where
  -- No creator is marked as verified, and neither is the collection.
  pub record IsUnverified (m : Metadata x) : Type 0 where
    pub creators : All (λ (c : Creator). c.verified ≡ false) m.creators
    pub collection : (c : Collection) → m.collection ≡ some c → c.verified ≡ false

  check_creators-IsUnverified :
      (id : Bytes) (signatures : Option (HashMap x.Signature)) (cs : List Creator)
      → All (λ (c : Creator). c.verified ≡ false) cs
      → check_creators x id signatures cs ≡ ok tt
  unfolding check_creators check_creator
  check_creators-IsUnverified id signatures [] h = refl
  check_creators-IsUnverified id signatures (c ∷ cs) (first, others) =
      rw first (check_creators-IsUnverified id signatures cs others)

  check_collection-IsUnverified :
      (config : Option (CollectionConfig x)) (o : Option Collection)
      → ((c : Collection) → o ≡ some c → c.verified ≡ false)
      → check_collection x config o ≡ ok tt
  unfolding check_collection
  check_collection-IsUnverified config none h = refl
  check_collection-IsUnverified config (some c) h = rw (h c refl)

  pub check_mints-IsUnverified :
      (config : Option (CollectionConfig x)) (ms : List (BatchMintInstruction x))
      → All (λ (a : Bytes × Bytes × Metadata x). IsUnverified a.2) (assets_of x ms)
      → check_mints x config ms ≡ ok tt
  unfolding check_mints
  check_mints-IsUnverified config [] h = refl
  check_mints-IsUnverified config (m ∷ ms) (first, others) =
      rw
        (
          check_creators-IsUnverified m.leaf_update.id m.creator_signature m.mint_args.creators
              first.creators,
          check_collection-IsUnverified config m.mint_args.collection first.collection,
        )
        (check_mints-IsUnverified config ms others)
