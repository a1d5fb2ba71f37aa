-- ===== src/MerkleTree/Sizes.antt =====
-- src/merkle_tree_wrapper.rs: the tables of supported sizes, compared.
use bubblegum_batch_sdk.Base.{
  ℕ, ◌+◌, ◌^◌, ◌≤◌, ◌≡◌, refl, arith, Bool, true, false, ◌&&◌, ◌||◌, none, some, List, [], ◌∷◌, map,
  ◌==◌, leb, if◌then◌else◌, ok, err, inl, inr, Bool-cases,
}
use bubblegum_batch_sdk.Base.Pow.{ilog2}
use bubblegum_batch_sdk.Deps.{Deps}
use bubblegum_batch_sdk.Errors.{unexpected_tree_size}
use bubblegum_batch_sdk.MerkleTree.{
  match_size, tree_impls, creator_arms, make_concurrent_merkle_tree, size_arms,
  calc_merkle_tree_size, calc_canopy_size,
}

-- The pair is in the list.
unfoldable pub contains_size : ℕ → ℕ → List (ℕ × ℕ) → Bool
contains_size d s [] = false
contains_size d s ((a, b) ∷ sizes) = (d == a && s == b) || contains_size d s sizes

-- The sizes for which `ITree` is implemented.
unfoldable pub is_supported : ℕ → ℕ → Bool
unfolding contains_size tree_impls
is_supported d s = contains_size d s tree_impls

-- A `match` with the same patterns, whose arms are a function of the pattern.
match_size-map :
    {A : Type 0} (f : ℕ → ℕ → A) (d s : ℕ) (sizes : List (ℕ × ℕ))
    → match_size d s (map (λ (p : ℕ × ℕ). (p.0, p.1, f p.0 p.1)) sizes)
      ≡ (if contains_size d s sizes then some (f d s) else none)
unfolding match_size contains_size
match_size-map f d s [] = refl
match_size-map f d s ((a, b) ∷ sizes) = ground (arith, match_size-map f d s sizes)

module _ (x : Deps) where
  creators_lem :
      (d s : ℕ)
      → match_size d s (creator_arms x) ≡ (if is_supported d s then some (x.new_tree d s) else none)
  unfolding creator_arms is_supported
  creators_lem d s = match_size-map x.new_tree d s tree_impls

  sizes_lem :
      (d s : ℕ)
      → match_size d s (size_arms x) ≡ (if is_supported d s then some (x.tree_size d s) else none)
  unfolding size_arms is_supported
  sizes_lem d s = match_size-map x.tree_size d s tree_impls

  -- A tree of the requested size is made if the size is supported, and else the error names it.
  pub make_concurrent_merkle_tree_lem :
      (d s : ℕ)
      → make_concurrent_merkle_tree x d s
        ≡ (if is_supported d s then ok (x.new_tree d s) else err (unexpected_tree_size d s))
  unfolding make_concurrent_merkle_tree
  make_concurrent_merkle_tree_lem d s =
      rw (creators_lem d s) (elim (Bool-cases (is_supported d s)) [ inl y ↦ rw y | inr n ↦ rw n ])

  -- The size of a tree account is known for just these sizes, and adds the canopy to the tree.
  pub calc_merkle_tree_size_lem :
      (d s c : ℕ)
      → calc_merkle_tree_size x d s c
        ≡ (if is_supported d s then some (x.tree_size d s + calc_canopy_size c) else none)
  unfolding calc_merkle_tree_size
  calc_merkle_tree_size_lem d s c =
      rw (sizes_lem d s) (elim (Bool-cases (is_supported d s)) [ inl y ↦ rw y | inr n ↦ rw n ])

-- A depth of 3 to 30, and a buffer that is a power of two of 8 to 2048 cells.
is_good_exponent : ℕ → ℕ → ℕ → Bool
is_good_exponent d s k = leb 3 d && (leb d 30 && (leb 3 k && (leb k 11 && 2 ^ k == s)))

is_good_size : ℕ → ℕ → Bool
unfolding is_good_exponent
is_good_size d s = is_good_exponent d s (ilog2 s)

unfoldable pub all_sizes : (ℕ → ℕ → Bool) → List (ℕ × ℕ) → Bool
all_sizes P [] = true
all_sizes P ((a, b) ∷ sizes) = P a b && all_sizes P sizes

pub all_sizes_sound :
    (P : ℕ → ℕ → Bool) (d s : ℕ) (sizes : List (ℕ × ℕ))
    → all_sizes P sizes ≡ true
    → contains_size d s sizes ≡ true
    → P d s ≡ true
unfolding all_sizes contains_size
all_sizes_sound P d s [] g h = cc
all_sizes_sound P d s ((a, b) ∷ sizes) g h = ground (arith, all_sizes_sound P d s sizes)

tree_impls_good : all_sizes is_good_size tree_impls ≡ true
unfolding all_sizes is_good_size ilog2 tree_impls
tree_impls_good = refl

is_good_exponent_lem :
    (d s k : ℕ)
    → is_good_exponent d s k ≡ true
    → (3 ≤ d) × (d ≤ 30) × (3 ≤ k) × (k ≤ 11) × (s ≡ 2 ^ k)
unfolding is_good_exponent
is_good_exponent_lem d s k h = ground arith

-- Every supported tree has a depth of 3 to 30, and its buffer size is a power of two, from 2 ^ 3 to
-- 2 ^ 11.
pub is_supported_bounds :
    (d s : ℕ)
    → is_supported d s ≡ true
    → (3 ≤ d) × (d ≤ 30) × (3 ≤ ilog2 s) × (ilog2 s ≤ 11) × (s ≡ 2 ^ ilog2 s)
unfolding is_supported
is_supported_bounds d s h =
    is_good_exponent_lem d s (ilog2 s)
      (unfold is_good_size in all_sizes_sound is_good_size d s tree_impls tree_impls_good h)

module _ (x : Deps) where
  -- Whenever a tree is made, its depth is 3 to 30 and its buffer size is a power of two.
  pub make_concurrent_merkle_tree_bounds :
      (d s : ℕ) {t : x.Tree}
      → make_concurrent_merkle_tree x d s ≡ ok t
      → (t ≡ x.new_tree d s) × (3 ≤ d) × (d ≤ 30) × (s ≡ 2 ^ ilog2 s)
  make_concurrent_merkle_tree_bounds d s h =
      let made = rw (make_concurrent_merkle_tree_lem x d s) at h in
      ground (arith, is_supported_bounds d s, made)

  pub make_concurrent_merkle_tree_supported :
      (d s : ℕ) {t : x.Tree}
      → make_concurrent_merkle_tree x d s ≡ ok t
      → (is_supported d s ≡ true) × (t ≡ x.new_tree d s)
  make_concurrent_merkle_tree_supported d s h =
      let made = rw (make_concurrent_merkle_tree_lem x d s) at h in ground (arith, made)
