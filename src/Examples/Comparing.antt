-- ===== src/Examples/Comparing.antt =====
-- `PartialEq` for the reference implementation of the parameters, and two batch mints that it finds equal.
use bubblegum_batch_sdk.Base.{
  ◌≡◌, refl, ap, Bool, true, false, ◌&&◌, none, some, Option, List, [], ◌∷◌, map, ◌==◌, ==_iff, All,
}
use bubblegum_batch_sdk.Base.Bytes.{Bytes, bytes_eq, bytes_eq→eq, to_le_bytes, to_be_bytes}
use bubblegum_batch_sdk.Base.Maps.{HashMap, get, insert, put, lookup, add, values, contains_key}
use bubblegum_batch_sdk.Deps.{Metadata}
use bubblegum_batch_sdk.Deps.Data.{Creator, Collection, LeafSchema}
use bubblegum_batch_sdk.Model.{BatchMint, BatchMintInstruction, path_eq, from_spl}
use bubblegum_batch_sdk.Model.Equality.{
  PartEq, same_value, all_same, hash_map_eq, option_eq, vec_eq, change_log_event_eq, instruction_eq,
  batch_mint_eq,
}
use bubblegum_batch_sdk.Model.SameMaps.{both, IsDistinct}
use bubblegum_batch_sdk.Builder.Changelog.{make_changelog_path, path_nodes}
use bubblegum_batch_sdk.Validations.{validate_batch_mint}
use bubblegum_batch_sdk.Validations.Equal.{PartLaws, HasDistinctSigners, validate-batch_mint_eq}
use bubblegum_batch_sdk.Flow.Accepted.{expected_mint}
use bubblegum_batch_sdk.Examples.Reference.{reference}
use bubblegum_batch_sdk.Examples.Runs.{signed_builder, batch_mint}
use bubblegum_batch_sdk.Builder.Hashing.{
  metadata_args_hash_new, hashes_of, hash_metadata_args, get_message, data_hash_of, creator_hash_of,
  creator_bytes,
}
use bubblegum_batch_sdk.Builder.State.{new, setup_collection_config}
use bubblegum_batch_sdk.Builder.Assets.{
  add_canopy_leaf, leaf_schema, update_canopy, record_asset, add_asset,
}
use bubblegum_batch_sdk.Builder.Signatures.{
  is_creator, no_extra_creators, signatures_or_default, check_extra_creators, verify_signature,
  sign_creator, sign_creators, sign_asset, or_return, add_signatures_for_verified_creators,
}
use bubblegum_batch_sdk.Builder.Building.{
  check_creators, check_creator, check_mints, check_collection, build_batch_mint,
}
use bubblegum_batch_sdk.MerkleTree.{
  match_size, tree_impls, creator_arms, make_concurrent_merkle_tree,
}
use text.Mathlib.Text.{◌==◌ as same_text}
use text.Mathlib.TextEquality.{eq_iff}

module _ {V : Type 0} (value_eq : V → V → Bool)
    (eq_sound : (v w : V) → value_eq v w ≡ true → v ≡ w) where
  option_eq_sound : (o o' : Option V) → option_eq value_eq o o' ≡ true → o ≡ o'
  unfolding option_eq
  option_eq_sound none none h = refl
  option_eq_sound none (some w) h = cc
  option_eq_sound (some v) none h = cc
  option_eq_sound (some v) (some w) h = ap some (eq_sound v w h)

  vec_eq_sound : (vs ws : List V) → vec_eq value_eq vs ws ≡ true → vs ≡ ws
  unfolding vec_eq
  vec_eq_sound [] [] h = refl
  vec_eq_sound [] (w ∷ ws) h = cc
  vec_eq_sound (v ∷ vs) [] h = cc
  vec_eq_sound (v ∷ vs) (w ∷ ws) h =
      let (first, others) = both (value_eq v w) _ h in
      λ i. eq_sound v w first i ∷ vec_eq_sound vs ws others i

abbrev bool_eq : Bool → Bool → Bool
bool_eq true true = true
bool_eq false false = true
bool_eq _ _ = false

bool_eq_sound : (a b : Bool) → bool_eq a b ≡ true → a ≡ b
bool_eq_sound true true h = refl
bool_eq_sound true false h = cc
bool_eq_sound false true h = cc
bool_eq_sound false false h = refl

abbrev creator_eq : Creator → Creator → Bool
creator_eq c d = bytes_eq c.address d.address && bool_eq c.verified d.verified && c.share == d.share

creator_eq_sound : (c d : Creator) → creator_eq c d ≡ true → c ≡ d
creator_eq_sound c d h =
    let (h₁, share) = both _ (c.share == d.share) h in
    let (address, verified) = both _ (bool_eq c.verified d.verified) h₁ in
    λ i. record {
      address = bytes_eq→eq c.address d.address address i;
      verified = bool_eq_sound c.verified d.verified verified i;
      share = (==_iff c.share d.share).0 share i;
    }

abbrev collection_eq : Collection → Collection → Bool
collection_eq c d = bool_eq c.verified d.verified && bytes_eq c.key d.key

collection_eq_sound : (c d : Collection) → collection_eq c d ≡ true → c ≡ d
collection_eq_sound c d h =
    let (verified, key) = both _ (bytes_eq c.key d.key) h in
    λ i. record {
      verified = bool_eq_sound c.verified d.verified verified i;
      key = bytes_eq→eq c.key d.key key i;
    }

abbrev leaf_eq : LeafSchema → LeafSchema → Bool
leaf_eq a b =
    bytes_eq a.id b.id
    && bytes_eq a.owner b.owner
    && bytes_eq a.delegate b.delegate
    && a.nonce == b.nonce
    && bytes_eq a.data_hash b.data_hash
    && bytes_eq a.creator_hash b.creator_hash

leaf_eq_sound : (a b : LeafSchema) → leaf_eq a b ≡ true → a ≡ b
leaf_eq_sound a b h =
    let (h₁, creators) = both _ (bytes_eq a.creator_hash b.creator_hash) h in
    let (h₂, hashed) = both _ (bytes_eq a.data_hash b.data_hash) h₁ in
    let (h₃, nonce) = both _ (a.nonce == b.nonce) h₂ in
    let (h₄, delegate) = both _ (bytes_eq a.delegate b.delegate) h₃ in
    let (id, owner) = both _ (bytes_eq a.owner b.owner) h₄ in
    λ i. record {
      id = bytes_eq→eq a.id b.id id i;
      owner = bytes_eq→eq a.owner b.owner owner i;
      delegate = bytes_eq→eq a.delegate b.delegate delegate i;
      nonce = (==_iff a.nonce b.nonce).0 nonce i;
      data_hash = bytes_eq→eq a.data_hash b.data_hash hashed i;
      creator_hash = bytes_eq→eq a.creator_hash b.creator_hash creators i;
    }

abbrev unit_eq : Unit {0} → Unit {0} → Bool
unit_eq u v = true

abbrev metadata_eq : Metadata reference → Metadata reference → Bool
metadata_eq a b =
    same_text a.name b.name
    && same_text a.symbol b.symbol
    && same_text a.uri b.uri
    && a.seller_fee_basis_points == b.seller_fee_basis_points
    && bool_eq a.primary_sale_happened b.primary_sale_happened
    && bool_eq a.is_mutable b.is_mutable
    && option_eq (◌==◌) a.edition_nonce b.edition_nonce
    && option_eq unit_eq a.token_standard b.token_standard
    && option_eq collection_eq a.collection b.collection
    && option_eq unit_eq a.uses b.uses
    && vec_eq creator_eq a.creators b.creators

metadata_eq_sound : (a b : Metadata reference) → metadata_eq a b ≡ true → a ≡ b
metadata_eq_sound a b h =
    let (h₁, creators) = both _ (vec_eq creator_eq a.creators b.creators) h in
    let (h₂, uses) = both _ (option_eq unit_eq a.uses b.uses) h₁ in
    let (h₃, collection) = both _ (option_eq collection_eq a.collection b.collection) h₂ in
    let (h₄, standard) = both _ (option_eq unit_eq a.token_standard b.token_standard) h₃ in
    let (h₅, edition) = both _ (option_eq (◌==◌) a.edition_nonce b.edition_nonce) h₄ in
    let (h₆, is_mutable) = both _ (bool_eq a.is_mutable b.is_mutable) h₅ in
    let (h₇, sold) = both _ (bool_eq a.primary_sale_happened b.primary_sale_happened) h₆ in
    let (h₈, fee) = both _ (a.seller_fee_basis_points == b.seller_fee_basis_points) h₇ in
    let (h₉, uri) = both _ (same_text a.uri b.uri) h₈ in
    let (name, symbol) = both _ (same_text a.symbol b.symbol) h₉ in
    λ i. record {
      name = (eq_iff a.name b.name).0 name i;
      symbol = (eq_iff a.symbol b.symbol).0 symbol i;
      uri = (eq_iff a.uri b.uri).0 uri i;
      seller_fee_basis_points =
          (==_iff a.seller_fee_basis_points b.seller_fee_basis_points).0 fee i;
      primary_sale_happened = bool_eq_sound a.primary_sale_happened b.primary_sale_happened sold i;
      is_mutable = bool_eq_sound a.is_mutable b.is_mutable is_mutable i;
      edition_nonce =
          option_eq_sound (◌==◌) (λ v w. (==_iff v w).0) a.edition_nonce b.edition_nonce edition i;
      token_standard =
          option_eq_sound unit_eq (λ v w e. refl) a.token_standard b.token_standard standard i;
      collection =
          option_eq_sound collection_eq collection_eq_sound a.collection b.collection collection i;
      uses = option_eq_sound unit_eq (λ v w e. refl) a.uses b.uses uses i;
      token_program_version = tt;
      creators = vec_eq_sound creator_eq creator_eq_sound a.creators b.creators creators i;
    }

abbrev reference_part_eq : PartEq reference
reference_part_eq = record {
  leaf_schema_eq = leaf_eq;
  metadata_args_eq = metadata_eq;
  signature_eq = bytes_eq;
}

reference_part_laws : PartLaws reference reference_part_eq
reference_part_laws = record {
  leaf_schema = leaf_eq_sound;
  metadata_args = metadata_eq_sound;
  signature = bytes_eq→eq;
}

-- The entry with these signatures.
abbrev with_signatures :
    HashMap Bytes → BatchMintInstruction reference → BatchMintInstruction reference
with_signatures signatures m = record m { creator_signature = some signatures }

-- The built batch mint, with two signatures for each asset in one order or the other.
abbrev signed_by : HashMap Bytes → BatchMint reference
signed_by signatures = record batch_mint {
  batch_mints = map (with_signatures signatures) batch_mint.batch_mints;
}

abbrev ordered : HashMap Bytes
ordered = (3 ∷ [], 1 ∷ []) ∷ (4 ∷ [], 2 ∷ []) ∷ []

abbrev reversed : HashMap Bytes
reversed = (4 ∷ [], 2 ∷ []) ∷ (3 ∷ [], 1 ∷ []) ∷ []

All-with_signatures :
    (signatures : HashMap Bytes) (ms : List (BatchMintInstruction reference))
    → IsDistinct signatures
    → All
        (HasDistinctSigners reference reference_part_eq reference_part_laws)
        (map (with_signatures signatures) ms)
unfolding signatures_or_default
All-with_signatures signatures [] d = tt
All-with_signatures signatures (m ∷ ms) d = (d, All-with_signatures signatures ms d)

signed_by_eq :
    batch_mint_eq reference reference_part_eq (signed_by ordered) (signed_by reversed) ≡ true
unfolding new make_concurrent_merkle_tree match_size creator_arms tree_impls add_asset
    hash_metadata_args hashes_of update_canopy add_canopy_leaf record_asset bytes_eq to_le_bytes
    data_hash_of creator_hash_of insert creator_bytes setup_collection_config
    add_signatures_for_verified_creators or_return sign_asset sign_creators sign_creator
    verify_signature check_extra_creators no_extra_creators is_creator signatures_or_default
    metadata_args_hash_new get_message to_be_bytes lookup put get add values contains_key
    leaf_schema build_batch_mint check_mints check_creators check_creator check_collection
    batch_mint_eq instruction_eq change_log_event_eq path_eq option_eq vec_eq hash_map_eq all_same
    same_value make_changelog_path path_nodes from_spl
signed_by_eq = refl

validate-batch_mint_eq_example :
    validate_batch_mint reference
      (signed_by reversed)
      (expected_mint reference signed_builder.collection_config)
    ≡ validate_batch_mint reference
        (signed_by ordered)
        (expected_mint reference signed_builder.collection_config)
unfolding get bytes_eq
validate-batch_mint_eq_example =
    validate-batch_mint_eq reference reference_part_eq reference_part_laws (signed_by ordered)
      (signed_by reversed) (expected_mint reference signed_builder.collection_config)
      (All-with_signatures ordered batch_mint.batch_mints (refl, (refl, tt)))
      (All-with_signatures reversed batch_mint.batch_mints (refl, (refl, tt))) signed_by_eq
