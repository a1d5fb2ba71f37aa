-- ===== src/Examples/Runs.antt =====
-- A batch mint of two assets, with a collection and a signature, from the first call to the last.
use bubblegum_batch_sdk.Base.{
  ℕ, suc, ◌-◌, ◌<◌, ◌≤◌, ◌≡◌, ◌≢◌, ◌↔◌, refl, ap, true, false, none, some, List, [], ◌∷◌, ◌++◌,
  length, ◌^◌, arith, Outcome, ok, err, panic, Succeeds,
}
use bubblegum_batch_sdk.Base.Bytes.{Bytes, bytes_eq, to_le_bytes, to_be_bytes}
use bubblegum_batch_sdk.Base.Maps.{HashMap, insert, lookup, put, get, add, values, contains_key}
use bubblegum_batch_sdk.Deps.{Metadata}
use bubblegum_batch_sdk.Deps.Merkle.{node}
use bubblegum_batch_sdk.Model.{BatchMint, CollectionConfig}
use bubblegum_batch_sdk.Builder.Hashing.{
  MetadataArgsHash, metadata_args_hash_new, hashes_of, hash_metadata_args, get_message,
  data_hash_of, creator_hash_of, creator_bytes,
}
use bubblegum_batch_sdk.Builder.State.{BatchMintBuilder, new, setup_collection_config}
use bubblegum_batch_sdk.Builder.Assets.{
  add_canopy_leaf, leaf_schema, update_canopy, record_asset, add_asset,
}
use bubblegum_batch_sdk.Builder.Signatures.{
  is_creator, no_extra_creators, signatures_or_default, check_extra_creators, verify_signature,
  sign_creator, sign_creators, sign_asset, or_return, add_signatures_for_verified_creators,
}
use bubblegum_batch_sdk.Builder.Building.{
  check_creators, check_creator, check_mints, check_collection, build_batch_mint,
}
use bubblegum_batch_sdk.Builder.Canopy.{IsCanopy}
use bubblegum_batch_sdk.MerkleTree.{
  match_size, tree_impls, creator_arms, make_concurrent_merkle_tree,
}
use bubblegum_batch_sdk.MerkleTree.Sizes.{is_supported}
use bubblegum_batch_sdk.Errors.{unexpected_tree_size}
use bubblegum_batch_sdk.Validations.{validate_batch_mint}
use bubblegum_batch_sdk.Validations.Spec.{IsValidBatch}
use bubblegum_batch_sdk.Validations.Exact.{validate_batch_mint_iff}
use bubblegum_batch_sdk.Flow.Reach.{Reach, created, added, signed, configured, Reach-IsConsistent}
use bubblegum_batch_sdk.Flow.Accepted.{expected_mint, validate-build_batch_mint}
use bubblegum_batch_sdk.Flow.Canopy.{asset_hashes, canopy_leaves-IsCanopy}
use bubblegum_batch_sdk.Flow.Invariant.{IsConsistent}
use bubblegum_batch_sdk.Flow.Total.{new_total, add_asset_total, merkle_root_lem}
use bubblegum_batch_sdk.Examples.Reference.{reference, reference_hash_laws, reference_tree_laws}

abbrev pub IsOk : {E A : Type 0} → Outcome E A → Type 0
IsOk (ok a) = Unit
IsOk (err e) = ⊥
IsOk panic = ⊥

abbrev pub result : {E A : Type 0} (m : Outcome E A) → IsOk m → A
result (ok a) p = a
result (err e) p = absurd p
result panic p = absurd p

pub result-eq : {E A : Type 0} (m : Outcome E A) (p : IsOk m) → m ≡ ok (result m p)
result-eq (ok a) p = refl
result-eq (err e) p = absurd p
result-eq panic p = absurd p

abbrev pub tree : Bytes
tree = 7 ∷ []

abbrev pub owner : Bytes
owner = 5 ∷ []

abbrev pub mint : Bytes
mint = 9 ∷ []

abbrev pub plain : Metadata reference
plain = record {
  name = "plain";
  symbol = "P";
  uri = "uri";
  seller_fee_basis_points = 100;
  primary_sale_happened = false;
  is_mutable = false;
  edition_nonce = none;
  token_standard = none;
  collection = none;
  uses = none;
  token_program_version = tt;
  creators = [];
}

-- A verified creator and a verified collection.
abbrev pub creative : Metadata reference
creative = record plain {
  collection = some (record { verified = true; key = mint });
  creators = record { address = 3 ∷ []; verified = true; share = 100 } ∷ [];
}

abbrev pub hashes_at : ℕ → Metadata reference → MetadataArgsHash
hashes_at n m = hashes_of reference n tree owner owner m (100 ∷ length m.creators ∷ [])

pub new-IsOk : IsOk (new reference tree 3 8 2)
unfolding new make_concurrent_merkle_tree match_size creator_arms tree_impls
new-IsOk = tt

abbrev pub start : BatchMintBuilder reference
start = result (new reference tree 3 8 2) new-IsOk

start-Reach : Reach reference start
start-Reach = created tree 3 8 2 (result-eq (new reference tree 3 8 2) new-IsOk)

pub first_IsOk : IsOk (add_asset reference start owner owner plain)
unfolding new make_concurrent_merkle_tree match_size creator_arms tree_impls add_asset
    hash_metadata_args hashes_of update_canopy add_canopy_leaf record_asset bytes_eq to_le_bytes
    data_hash_of creator_hash_of insert creator_bytes
first_IsOk = tt

abbrev pub first : MetadataArgsHash × BatchMintBuilder reference
first = result (add_asset reference start owner owner plain) first_IsOk

first-Reach : Reach reference first.1
first-Reach =
    added owner owner plain first.0 start-Reach
      (result-eq (add_asset reference start owner owner plain) first_IsOk)

pub second_IsOk : IsOk (add_asset reference first.1 owner owner creative)
unfolding new make_concurrent_merkle_tree match_size creator_arms tree_impls add_asset
    hash_metadata_args hashes_of update_canopy add_canopy_leaf record_asset bytes_eq to_le_bytes
    data_hash_of creator_hash_of insert creator_bytes
second_IsOk = tt

abbrev pub second : MetadataArgsHash × BatchMintBuilder reference
second = result (add_asset reference first.1 owner owner creative) second_IsOk

second-Reach : Reach reference second.1
second-Reach =
    added owner owner creative second.0 first-Reach
      (result-eq (add_asset reference first.1 owner owner creative) second_IsOk)

abbrev pub config : CollectionConfig reference
config = record {
  collection_authority = owner;
  collection_mint = mint;
  collection_authority_record_pda = none;
  collection_metadata = [];
  edition_account = [];
}

abbrev pub configured_builder : BatchMintBuilder reference
configured_builder = setup_collection_config reference second.1 config

configured-Reach : Reach reference configured_builder
configured-Reach = configured config second-Reach refl

-- The creator's signature of the second asset.
abbrev pub signatures : List (ℕ × HashMap Bytes)
signatures = (1, (3 ∷ [], 3 ∷ get_message (hashes_at 1 creative)) ∷ []) ∷ []

abbrev pub signed_builder : BatchMintBuilder reference
signed_builder = (add_signatures_for_verified_creators reference configured_builder signatures).1

pub signed-Reach : Reach reference signed_builder
signed-Reach = signed signatures configured-Reach refl

pub build_IsOk : IsOk (build_batch_mint reference signed_builder)
unfolding new make_concurrent_merkle_tree match_size creator_arms tree_impls add_asset
    hash_metadata_args hashes_of update_canopy add_canopy_leaf record_asset bytes_eq to_le_bytes
    data_hash_of creator_hash_of insert creator_bytes setup_collection_config
    add_signatures_for_verified_creators or_return sign_asset sign_creators sign_creator
    verify_signature check_extra_creators no_extra_creators is_creator signatures_or_default
    metadata_args_hash_new get_message to_be_bytes lookup put get add values contains_key
    leaf_schema build_batch_mint check_mints check_creators check_creator check_collection
build_IsOk = tt

abbrev pub batch_mint : BatchMint reference
batch_mint = result (build_batch_mint reference signed_builder) build_IsOk

pub build_eq : build_batch_mint reference signed_builder ≡ ok batch_mint
build_eq = result-eq (build_batch_mint reference signed_builder) build_IsOk

validate_batch_mint_iff_example :
    (validate_batch_mint reference batch_mint
        (expected_mint reference signed_builder.collection_config)
      ≡ ok tt)
    ↔ IsValidBatch reference batch_mint (expected_mint reference signed_builder.collection_config)
validate_batch_mint_iff_example =
    validate_batch_mint_iff reference batch_mint
      (expected_mint reference signed_builder.collection_config)

validate-build_batch_mint_example :
    validate_batch_mint reference batch_mint
      (expected_mint reference signed_builder.collection_config)
    ≡ ok tt
validate-build_batch_mint_example =
    validate-build_batch_mint reference reference_hash_laws signed_builder batch_mint signed-Reach
      build_eq

Reach-IsConsistent_example : IsConsistent reference signed_builder
Reach-IsConsistent_example = Reach-IsConsistent reference reference_hash_laws signed-Reach

second_depths :
    (0 < second.1.canopy_depth)
    × (first.1.canopy_depth ≤ first.1.max_depth)
    × (length first.1.mints < 2 ^ first.1.max_depth)
unfolding new make_concurrent_merkle_tree match_size creator_arms tree_impls add_asset
    hash_metadata_args hashes_of update_canopy add_canopy_leaf record_asset bytes_eq to_le_bytes
    data_hash_of creator_hash_of insert creator_bytes
second_depths = (omega arith, omega arith, omega arith)

canopy_leaves-IsCanopy_example :
    IsCanopy reference
      (second.1.max_depth - second.1.canopy_depth)
      (asset_hashes reference second.1)
      second.1.canopy_leaves
canopy_leaves-IsCanopy_example =
    canopy_leaves-IsCanopy reference reference_tree_laws reference_hash_laws second.1 second-Reach
      second_depths.0

merkle_root_lem_example :
    batch_mint.merkle_root
    ≡ node reference signed_builder.max_depth 0 (asset_hashes reference signed_builder)
merkle_root_lem_example =
    merkle_root_lem reference reference_tree_laws reference_hash_laws signed_builder batch_mint
      signed-Reach build_eq

creative_leaf_nonempty :
    (hashes_of reference
      (length first.1.mints)
      first.1.tree_account
      owner
      owner
      creative
      (100 ∷ 1 ∷ [])).hashed_leaf
    ≢ reference.empty
unfolding new make_concurrent_merkle_tree match_size creator_arms tree_impls add_asset
    hash_metadata_args hashes_of update_canopy add_canopy_leaf record_asset bytes_eq to_le_bytes
    data_hash_of creator_hash_of insert creator_bytes
creative_leaf_nonempty e = let lengths : 1 ≡ 32 = ap length e in absurd (omega (arith, lengths))

add_asset_total_example :
    (b' : BatchMintBuilder reference) × (add_asset reference first.1 owner owner creative
      ≡ ok (
        hashes_of reference
            (length first.1.mints)
            first.1.tree_account
            owner
            owner
            creative
            (100 ∷ 1 ∷ []),
        b',
      ))
    × (length b'.mints ≡ suc (length first.1.mints))
    × (asset_hashes reference b'
        ≡ asset_hashes reference first.1
          ++ (hashes_of reference
              (length first.1.mints)
              first.1.tree_account
              owner
              owner
              creative
              (100 ∷ 1 ∷ [])).hashed_leaf
            ∷ [])
add_asset_total_example =
    add_asset_total reference reference_tree_laws reference_hash_laws first.1 owner owner creative
      (100 ∷ 1 ∷ []) first-Reach second_depths.1 second_depths.2 refl creative_leaf_nonempty

new_total_example :
    (is_supported 3 8 ≡ true → Succeeds (new reference tree 3 8 2))
    × (is_supported 3 8 ≡ false → new reference tree 3 8 2 ≡ err (unexpected_tree_size 3 8))
new_total_example = new_total reference reference_tree_laws tree 3 8 2
