-- ===== src/MerkleTree/Tables.antt =====
-- src/merkle_tree_wrapper.rs: the tables of the macros against the `match` that makes a tree.
use bubblegum_batch_sdk.Base.{
  ℕ, ◌≡◌, ◌↔◌, refl, Bool, true, false, ◌&&◌, ◌||◌, List, [], ◌∷◌, ◌==◌, arith, Succeeds, inl, inr,
  Bool-cases,
}
use bubblegum_batch_sdk.Deps.{Deps}
use bubblegum_batch_sdk.MerkleTree.{
  tree_impls, tree_creators, changelog_impls, make_concurrent_merkle_tree,
}
use bubblegum_batch_sdk.MerkleTree.Sizes.{
  contains_size, is_supported, all_sizes, all_sizes_sound, make_concurrent_merkle_tree_lem,
  make_concurrent_merkle_tree_supported,
}

unfoldable pub contains_depth : ℕ → List ℕ → Bool
contains_depth d [] = false
contains_depth d (a ∷ depths) = d == a || contains_depth d depths

has_changelog : all_sizes (λ d s. contains_depth d changelog_impls) tree_impls ≡ true
unfolding all_sizes contains_depth changelog_impls tree_impls
has_changelog = refl

creators_eq : tree_creators ≡ tree_impls
unfolding tree_creators tree_impls
creators_eq = refl

-- The smallest buffer of a tree of the depth, in the order of the table.
first_buffer : ℕ → List (ℕ × ℕ) → ℕ
first_buffer d [] = 0
first_buffer d ((a, b) ∷ sizes) = elim (d == a) [ true ↦ b | false ↦ first_buffer d sizes ]

-- Every depth of the list has a tree in the table.
all_used : List ℕ → List (ℕ × ℕ) → Bool
all_used [] sizes = true
all_used (d ∷ depths) sizes = contains_size d (first_buffer d sizes) sizes && all_used depths sizes

all_used_sound :
    (d : ℕ) (depths : List ℕ) (sizes : List (ℕ × ℕ))
    → all_used depths sizes ≡ true
    → contains_depth d depths ≡ true
    → (s : ℕ) × (contains_size d s sizes ≡ true)
unfolding all_used contains_depth
all_used_sound d [] sizes used h = cc
all_used_sound d (a ∷ depths) sizes used h = elim (Bool-cases (d == a)) [
  | inl here ↦ (first_buffer d sizes, ground arith)
  | inr on ↦ all_used_sound d depths sizes (ground arith) (rw on at h)
]

changelogs_used : all_used changelog_impls tree_impls ≡ true
unfolding all_used first_buffer contains_size changelog_impls tree_impls
changelogs_used = refl

module _ (x : Deps) where
  supported_made :
      (d s : ℕ) → is_supported d s ≡ true → Succeeds (make_concurrent_merkle_tree x d s)
  supported_made d s h = (x.new_tree d s, rw (make_concurrent_merkle_tree_lem x d s, h))

  -- The tables agree: a tree is made exactly for the sizes for which a creating function, an `ITree`
  -- and an `IChangeLog` of its depth are generated, and no `IChangeLog` is generated for a depth that
  -- no tree has.
  pub make_concurrent_merkle_tree_typed :
      (d : ℕ)
      → ((s : ℕ)
          → Succeeds (make_concurrent_merkle_tree x d s) ↔ (
              (contains_size d s tree_creators ≡ true)
              × (contains_size d s tree_impls ≡ true)
              × (contains_depth d changelog_impls ≡ true)))
        × (contains_depth d changelog_impls ≡ true
            → (s : ℕ) × Succeeds (make_concurrent_merkle_tree x d s))
  unfolding is_supported
  make_concurrent_merkle_tree_typed d = (
    λ s. (
      λ done.
          let (supported, same) = make_concurrent_merkle_tree_supported x d s done.1 in
          (
            rw creators_eq supported,
            supported,
            all_sizes_sound _ d s tree_impls has_changelog supported,
          ),
      λ tables. supported_made d s tables.1,
    ),
    λ logged.
        let (s, supported) = all_used_sound d changelog_impls tree_impls changelogs_used logged in
        (s, supported_made d s supported),
  )
