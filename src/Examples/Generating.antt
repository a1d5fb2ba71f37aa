-- ===== src/Examples/Generating.antt =====
-- A run of the generator of src/batch_mint_validations.rs, and the room of a builder's tree.
use bubblegum_batch_sdk.Base.{
  ℕ, ◌+◌, ◌^◌, ◌≤◌, ◌<◌, ◌≡◌, ◌↔◌, ap, refl, arith, true, false, none, [], ◌∷◌, length, ok,
  Succeeds,
}
use bubblegum_batch_sdk.Base.Bytes.{to_le_bytes, bytes_eq}
use bubblegum_batch_sdk.Errors.{BatchMintError}
use bubblegum_batch_sdk.Model.{BatchMint}
use bubblegum_batch_sdk.Builder.Hashing.{hashes_of}
use bubblegum_batch_sdk.Validations.{validate_batch_mint}
use bubblegum_batch_sdk.Validations.Generate.{
  Draws, Generator, random_creators, random_args, generated_nodes, generated_path, generate_asset,
  generate_assets, generate_batch_mint,
}
use bubblegum_batch_sdk.Flow.Generated.{build_drawn, generate_batch_mint-build}
use bubblegum_batch_sdk.Flow.Capacity.{Reach-Fits, IsHashable}
use bubblegum_batch_sdk.Flow.Drawn.{generate_batch_mint-valid, generate_batch_mint-Succeeds}
use bubblegum_batch_sdk.Examples.Reference.{reference, reference_hash_laws, reference_tree_laws}
use bubblegum_batch_sdk.Examples.Runs.{tree, IsOk, result, result-eq, signed_builder, signed-Reach}

abbrev draws : ℕ → Draws
draws i = record {
  name = "name";
  symbol = "SYM";
  uri_tail = "tail";
  seller_fee_basis_points = 10 + i;
  primary_sale_happened = false;
  is_mutable = true;
  no_edition_nonce = false;
  edition_nonce = 4;
  no_token_standard = true;
  no_collection = false;
  collection_key = 6 ∷ [];
  creator_count = 2;
  creator_address = λ j. j ∷ [];
  creator_share = λ j. 50;
}

abbrev generator : Generator reference
generator = record {
  pubkey_from_str = λ s. ok tree;
  non_fungible = tt;
  original = tt;
  draws = draws;
}

generated_IsOk : IsOk (generate_batch_mint reference generator {E = BatchMintError reference} 2)
unfolding generate_batch_mint generate_assets generate_asset random_args random_creators
    generated_path generated_nodes to_le_bytes bytes_eq
generated_IsOk = tt

abbrev generated : BatchMint reference
generated =
    result (generate_batch_mint reference generator {E = BatchMintError reference} 2) generated_IsOk

generate_batch_mint-valid_example :
    (validate_batch_mint reference generated none ≡ ok tt) × (length generated.batch_mints ≡ 2)
generate_batch_mint-valid_example =
    generate_batch_mint-valid reference generator reference_hash_laws 2 generated (
      result-eq (generate_batch_mint reference generator {E = BatchMintError reference} 2)
        generated_IsOk)

generate_batch_mint-build_example :
    generate_batch_mint reference generator 2 ≡ build_drawn reference generator 2
generate_batch_mint-build_example =
    generate_batch_mint-build reference generator reference_hash_laws 2

hashable :
    (i : ℕ)
    → i < 3
    → IsHashable reference tree tree i (random_args reference generator (generator.draws i))
unfolding hashes_of
hashable i lt =
    (_, refl, λ e. let lengths : 1 ≡ 32 = ap length e in absurd (omega (arith, lengths)))

generate_batch_mint-Succeeds_example :
    Succeeds (generate_batch_mint reference generator {E = BatchMintError reference} 3) ↔ (3 ≤ 1024)
generate_batch_mint-Succeeds_example =
    generate_batch_mint-Succeeds reference generator reference_tree_laws reference_hash_laws tree
      tree refl refl 3 hashable

Reach-Fits_example : length signed_builder.mints ≤ 2 ^ signed_builder.max_depth
Reach-Fits_example = Reach-Fits reference reference_tree_laws reference_hash_laws signed-Reach
