-- ===== src/Builder/Building.antt =====
-- src/batch_mint_builder.rs: `build_batch_mint`.
use bubblegum_batch_sdk.Base.{
  not, Option, none, some, List, [], ◌∷◌, if◌then◌else◌, Outcome, ok, err, guard, ◌>>◌,
}
use bubblegum_batch_sdk.Base.Bytes.{Bytes, bytes_eq}
use bubblegum_batch_sdk.Base.Maps.{HashMap, values, contains_key}
use bubblegum_batch_sdk.Deps.{Deps}
use bubblegum_batch_sdk.Deps.Data.{Creator, Collection}
use bubblegum_batch_sdk.Errors.{
  BatchMintError, missed_signature_from_creator, missed_signatures_for_asset,
  missing_collection_signature,
}
use bubblegum_batch_sdk.Model.{BatchMint, BatchMintInstruction, CollectionConfig}
use bubblegum_batch_sdk.Builder.State.{BatchMintBuilder}

module _ (x : Deps) where
  -- One verified creator must have signed.
  unfoldable pub check_creator :
      Bytes → Option (HashMap x.Signature) → Creator → Outcome (BatchMintError x) (Unit {0})
  check_creator id creator_signature creator =
      if creator.verified
      then elim creator_signature [
        | some signatures ↦
            guard (contains_key creator.address signatures)
              (missed_signature_from_creator (x.key_to_string creator.address))
        | none ↦ err (missed_signatures_for_asset (x.key_to_string id))
      ]
      else ok tt

  unfoldable pub check_creators :
      Bytes → Option (HashMap x.Signature) → List Creator → Outcome (BatchMintError x) (Unit {0})
  unfolding check_creator
  check_creators id creator_signature [] = ok tt
  check_creators id creator_signature (c ∷ cs) = do
    check_creator id creator_signature c
    check_creators id creator_signature cs

  -- A verified collection must be that of the builder's configuration.
  unfoldable pub check_collection :
      Option (CollectionConfig x) → Option Collection → Outcome (BatchMintError x) (Unit {0})
  check_collection config none = ok tt
  check_collection config (some collection) =
      if not collection.verified then ok tt else elim config [
        | some c ↦
            guard (bytes_eq collection.key c.collection_mint)
              (missing_collection_signature (x.key_to_string collection.key))
        | none ↦ err (missing_collection_signature (x.key_to_string collection.key))
      ]

  unfoldable pub check_mints :
      Option (CollectionConfig x)
      → List (BatchMintInstruction x)
      → Outcome (BatchMintError x) (Unit {0})
  check_mints config [] = ok tt
  check_mints config (m ∷ ms) = do
    check_creators m.leaf_update.id m.creator_signature m.mint_args.creators
    check_collection config m.mint_args.collection
    check_mints config ms

  unfoldable pub build_batch_mint : BatchMintBuilder x → Outcome (BatchMintError x) (BatchMint x)
  build_batch_mint b = do
    check_mints b.collection_config (values b.mints)
    ok (record {
      tree_id = b.tree_account;
      batch_mints = values b.mints;
      raw_metadata_map = [];
      max_depth = b.max_depth;
      max_buffer_size = b.max_buffer_size;
      merkle_root = x.merkle.get_root b.merkle;
      last_leaf_hash = b.last_leaf_hash;
    })
