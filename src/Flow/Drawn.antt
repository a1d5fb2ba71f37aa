-- ===== src/Flow/Drawn.antt =====
-- When `generate_batch_mint` of src/batch_mint_validations.rs succeeds, and what the validator says
-- of its result.
use bubblegum_batch_sdk.Base.{
  ℕ, zero, suc, ◌+◌, ◌<◌, ◌^◌, ◌≤◌, ◌≡◌, ◌↔◌, refl, sym, ap, ◌∙◌, subst, none, length, arith, ok,
  Succeeds, >>=-eq-ok, ok_injective, bind-Succeeds, unwrap,
}
use bubblegum_batch_sdk.Base.Bytes.{Bytes}
use bubblegum_batch_sdk.Base.Maps.{values, length-values}
use bubblegum_batch_sdk.Deps.{Deps}
use bubblegum_batch_sdk.Deps.Laws.{HashLaws, TreeLaws}
use bubblegum_batch_sdk.Errors.{BatchMintError}
use bubblegum_batch_sdk.Model.{BatchMint}
use bubblegum_batch_sdk.MerkleTree.{match_size, creator_arms}
use bubblegum_batch_sdk.MerkleTree.Sizes.{is_supported}
use bubblegum_batch_sdk.Builder.State.{BatchMintBuilder, new}
use bubblegum_batch_sdk.Builder.Building.{build_batch_mint}
use bubblegum_batch_sdk.Builder.Built.{build_batch_mint_sound}
use bubblegum_batch_sdk.Validations.{validate_batch_mint}
use bubblegum_batch_sdk.Validations.Generate.{Generator, random_args, generate_batch_mint}
use bubblegum_batch_sdk.Flow.Reach.{Reach, created}
use bubblegum_batch_sdk.Flow.Accepted.{expected_mint, validate-build_batch_mint}
use bubblegum_batch_sdk.Flow.Growing.{add_assets, add_assets_sound}
use bubblegum_batch_sdk.Flow.Capacity.{Reach-Fits, IsHashable, AreHashable, add_assets_total}
use bubblegum_batch_sdk.Flow.Generated.{
  drawn_args, build_drawn, empty_builder, new_lem, build_unverified, generate_batch_mint-build,
}
use Prim.Native.String.{String}
use mathlib.Core.Path.{subst₂}

-- The keys of the authority and of the tree.
abbrev authority_text : String
authority_text = "3VvLDXqJbw3heyRwFxv8MmurPznmDVUJS9gPMX2BDqfM"

abbrev tree_text : String
tree_text = "HxhCw9g3kZvrdg9zZvctmh6qpSDg1FfsBXfFvRkbCHB7"

module _ (x : Deps) (g : Generator x) where
  length-drawn_args : (n i : ℕ) → length (drawn_args x g n i) ≡ n
  unfolding drawn_args
  length-drawn_args zero i = refl
  length-drawn_args (suc n) i = ap suc (length-drawn_args n (suc i))

  -- The builder whose batch mint is drawn.
  record Drawn (size : ℕ) (bm : BatchMint x) : Type 0 where
    builder : BatchMintBuilder x
    reach : Reach x builder
    built : build_batch_mint x builder ≡ ok bm
    collection_config : builder.collection_config ≡ none
    max_depth : builder.max_depth ≡ 10
    count : length builder.mints ≡ size

  build_drawn_sound :
      HashLaws x → (size : ℕ) {bm : BatchMint x} → build_drawn x g size ≡ ok bm → Drawn size bm
  unfolding build_drawn values
  build_drawn_sound laws size h =
      let E : Type 0 = BatchMintError x in
      let (authority, p, h₁) = >>=-eq-ok (unwrap {F = E} (g.pubkey_from_str authority_text)) _ h in
      let (tree, q, h₂) = >>=-eq-ok (unwrap {F = E} (g.pubkey_from_str tree_text)) _ h₁ in
      let (b, made, h₃) = >>=-eq-ok (new x tree 10 32 0) _ h₂ in
      let (b', grew, built) = >>=-eq-ok (add_assets x b authority (drawn_args x g size 0)) _ h₃ in
      let (init, initialized, same) =
        >>=-eq-ok (unwrap {F = E} (x.merkle.initialize (x.new_tree 10 32))) _
          (sym (new_lem x g tree) ∙ made) in
      let b_eq = ok_injective same in
      let grown =
        add_assets_sound x laws b authority (drawn_args x g size 0) (created tree 10 32 0 made)
          grew in
      record {
        builder = b';
        reach = grown.reach;
        built = built;
        collection_config = grown.collection_config ∙ ap (λ c. c.collection_config) (sym b_eq);
        max_depth = grown.max_depth ∙ ap (λ c. c.max_depth) (sym b_eq);
        count =
            let drawn = length-drawn_args size 0 in
            let none_before = ap (λ c. length c.mints) (sym b_eq) in
            let all = grown.count in omega (arith, drawn, none_before, all);
      }

  -- If leaves are hashed as documented: a generated batch mint has as many assets as were asked for,
  -- and the validator, told to expect no collection, accepts it.
  pub generate_batch_mint-valid :
      HashLaws x
      → (size : ℕ) (bm : BatchMint x) → generate_batch_mint x g {E = BatchMintError x} size ≡ ok bm
      → (validate_batch_mint x bm none ≡ ok tt) × (length bm.batch_mints ≡ size)
  generate_batch_mint-valid laws size bm h =
      let d = build_drawn_sound laws size (sym (generate_batch_mint-build x g laws size) ∙ h) in
      (
        subst (λ c. validate_batch_mint x bm (expected_mint x c) ≡ ok tt) d.collection_config
            (validate-build_batch_mint x laws d.builder bm d.reach d.built),
        ap length ((build_batch_mint_sound x d.builder d.built).1)
            ∙ length-values d.builder.mints
            ∙ d.count,
      )

  drawn_args-AreHashable :
      (tree owner : Bytes) (n i : ℕ)
      → ((j : ℕ) → j < i + n → IsHashable x tree owner j (random_args x g (g.draws j)))
      → AreHashable x tree owner i (drawn_args x g n i)
  unfolding drawn_args
  drawn_args-AreHashable tree owner zero i h = tt
  drawn_args-AreHashable tree owner (suc n) i h = (
    h i (omega arith),
    drawn_args-AreHashable tree owner n (suc i) (λ j le. h j (omega (arith, le))),
  )

  build_drawn_total :
      TreeLaws x
      → HashLaws x
      → (authority tree : Bytes) → g.pubkey_from_str authority_text ≡ ok authority
      → g.pubkey_from_str tree_text ≡ ok tree
      → (size : ℕ)
      → ((i : ℕ) → i < size → IsHashable x tree authority i (random_args x g (g.draws i)))
      → size ≤ 1024
      → Succeeds (build_drawn x g size)
  unfolding build_drawn is_supported match_size creator_arms
  build_drawn_total trees laws authority tree p q size hashable le =
      let (root, t, initialized) = trees.initialize_total 10 32 refl in
      let b = empty_builder x g tree t in
      let made : new x tree 10 32 0 ≡ ok b = new_lem x g tree ∙ (rw initialized) in
      let r = created tree 10 32 0 made in
      let drawn = length-drawn_args size 0 in
      let (b', grew) =
        add_assets_total x trees laws (drawn_args x g size 0) b authority r
          (drawn_args-AreHashable tree authority size 0 (λ j lt. hashable j (omega (arith, lt))))
          (omega arith) (omega (arith, drawn, le)) in
      let built =
        build_unverified x g b b' authority size 0 (unfold values in refl)
          (add_assets_sound x laws b authority (drawn_args x g size 0) r grew) in
      bind-Succeeds (unwrap {F = BatchMintError x} (g.pubkey_from_str authority_text)) _ authority
        (rw p)
        (bind-Succeeds (unwrap {F = BatchMintError x} (g.pubkey_from_str tree_text)) _ tree (rw q) (
          bind-Succeeds (new x tree 10 32 0) _ b made (
            bind-Succeeds (add_assets x b authority (drawn_args x g size 0)) _ b' grew (_, built))))

  -- Over a tree and hashes that behave as documented, where the two keys in the code can be read, and
  -- for each of the drawn assets, under its number, the arguments can be serialized and the hash is not
  -- the empty node: a batch mint is generated exactly if at most 1024 assets are asked for.
  pub generate_batch_mint-Succeeds :
      TreeLaws x
      → HashLaws x
      → (authority tree : Bytes) → g.pubkey_from_str authority_text ≡ ok authority
      → g.pubkey_from_str tree_text ≡ ok tree
      → (size : ℕ)
      → ((i : ℕ) → i < size → IsHashable x tree authority i (random_args x g (g.draws i)))
      → Succeeds (generate_batch_mint x g {E = BatchMintError x} size) ↔ (size ≤ 1024)
  generate_batch_mint-Succeeds trees laws authority tree p q size hashable = (
    λ done.
        let d =
          build_drawn_sound laws size (sym (generate_batch_mint-build x g laws size) ∙ done.1) in
        subst₂ (λ n k. n ≤ 2 ^ k) d.count d.max_depth (Reach-Fits x trees laws d.reach),
    λ le.
        subst Succeeds (sym (generate_batch_mint-build x g laws size))
          (build_drawn_total trees laws authority tree p q size hashable le),
  )
