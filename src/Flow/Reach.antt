-- ===== src/Flow/Reach.antt =====
-- The builders that the public calls of src/batch_mint_builder.rs can reach.
use bubblegum_batch_sdk.Base.{ℕ, ◌≡◌, ok, List}
use bubblegum_batch_sdk.Base.Bytes.{Bytes}
use bubblegum_batch_sdk.Base.Maps.{HashMap}
use bubblegum_batch_sdk.Deps.{Deps, Metadata}
use bubblegum_batch_sdk.Deps.Laws.{HashLaws}
use bubblegum_batch_sdk.Model.{CollectionConfig}
use bubblegum_batch_sdk.Builder.Hashing.{MetadataArgsHash}
use bubblegum_batch_sdk.Builder.State.{BatchMintBuilder, new, setup_collection_config}
use bubblegum_batch_sdk.Builder.Assets.{add_asset}
use bubblegum_batch_sdk.Builder.Signatures.{add_signatures_for_verified_creators}
use bubblegum_batch_sdk.Flow.Invariant.{
  IsConsistent, new-IsConsistent, add_asset-IsConsistent, setup_collection_config-IsConsistent,
}
use bubblegum_batch_sdk.Flow.Signing.{add_signatures-IsConsistent}

-- A builder is reached by `new` and any sequence of the public calls that change it. A call of
-- `add_signatures_for_verified_creators` leaves a builder behind also if it returns an error.
pub data Reach (x : Deps) : BatchMintBuilder x → Type 0 where
  created :
      (tree : Bytes) (d s c : ℕ) {b : BatchMintBuilder x} → new x tree d s c ≡ ok b → Reach x b
  added :
      {b b' : BatchMintBuilder x} (owner delegate : Bytes) (metadata_args : Metadata x)
      (h : MetadataArgsHash)
      → Reach x b
      → add_asset x b owner delegate metadata_args ≡ ok (h, b')
      → Reach x b'
  signed :
      {b b' : BatchMintBuilder x} (entries : List (ℕ × HashMap x.Signature))
      → Reach x b
      → (add_signatures_for_verified_creators x b entries).1 ≡ b'
      → Reach x b'
  configured :
      {b b' : BatchMintBuilder x} (config : CollectionConfig x)
      → Reach x b
      → setup_collection_config x b config ≡ b'
      → Reach x b'

module _ (x : Deps) (laws : HashLaws x) where
  -- If leaves are hashed as documented, every builder that can be reached is consistent: its entries
  -- are numbered from 0, each is derived from its asset and carries valid signatures only, and
  -- together they are a run of the merkle tree from its start.
  pub Reach-IsConsistent : {b : BatchMintBuilder x} → Reach x b → IsConsistent x b
  Reach-IsConsistent (created tree d s c e) = new-IsConsistent x tree d s c e
  Reach-IsConsistent (added owner delegate metadata_args h r e) =
      add_asset-IsConsistent x laws _ owner delegate metadata_args (Reach-IsConsistent r) e
  Reach-IsConsistent (signed entries r e) =
      rw (← e) (add_signatures-IsConsistent x _ entries (Reach-IsConsistent r))
  Reach-IsConsistent (configured config r e) =
      rw (← e) (setup_collection_config-IsConsistent x _ config (Reach-IsConsistent r))
