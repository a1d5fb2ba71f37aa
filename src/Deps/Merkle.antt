-- ===== src/Deps/Merkle.antt =====
-- The merkle tree that spl_concurrent_merkle_tree documents: the hash of two children is that of
-- their bytes one after the other, and a leaf that is not there yet is the empty node.
use bubblegum_batch_sdk.Base.{
  ℕ, zero, suc, ◌+◌, ◌*◌, ◌/◌, ◌^◌, ◌≤◌, ◌<◌, ◌≡◌, refl, ap, arith, List, [], ◌∷◌, ◌++◌, length,
  get_or, get_elem?, some, get_or-append_left,
}
use bubblegum_batch_sdk.Base.Bytes.{Bytes}
use bubblegum_batch_sdk.Base.Pow.{pow_double}
use bubblegum_batch_sdk.Deps.{Deps}
use native.Mathlib.Nat.{pow-zero}
use mathlib.Core.Path.{ap₂}

module _ (x : Deps) where
  -- The node `i` of a level, over the leaves so far. Level 0 is that of the leaves.
  unfoldable pub node : ℕ → ℕ → List Bytes → Bytes
  node zero i leaves = get_or leaves i x.empty
  node (suc level) i leaves =
      x.hashv (node level (2 * i) leaves ∷ node level (2 * i + 1) leaves ∷ [])

  -- The nodes on the way up from leaf `i`, from a level on, without the root.
  unfoldable pub path_from : ℕ → ℕ → ℕ → List Bytes → List Bytes
  path_from zero level i leaves = []
  path_from (suc k) level i leaves =
      node level (i / 2 ^ level) leaves ∷ path_from k (suc level) i leaves

  -- A node whose leaves are all there is not changed by a leaf that is added.
  pub node-append :
      (level i : ℕ) (leaves more : List Bytes)
      → suc i * 2 ^ level ≤ length leaves
      → node level i (leaves ++ more) ≡ node level i leaves
  unfolding node
  node-append zero i leaves more h =
      get_or-append_left leaves more i x.empty (omega (arith, h, pow-zero 2))
  node-append (suc level) i leaves more h =
      ap₂ (λ a b. x.hashv (a ∷ b ∷ []))
        (node-append level (2 * i) leaves more (grind (arith, pow_double level)))
        (node-append level (2 * i + 1) leaves more (grind (arith, pow_double level)))

  pub length-path_from :
      (k level i : ℕ) (leaves : List Bytes) → length (path_from k level i leaves) ≡ k
  unfolding path_from
  length-path_from zero level i leaves = refl
  length-path_from (suc k) level i leaves = ap suc (length-path_from k (suc level) i leaves)

  -- The nodes of a path by their level.
  pub get_elem?-path_from :
      (k level i j : ℕ) (leaves : List Bytes)
      → j < k
      → get_elem? (path_from k level i leaves) j
        ≡ some (node (level + j) (i / 2 ^ (level + j)) leaves)
  unfolding path_from
  get_elem?-path_from zero level i j leaves h = elim h [ ]
  get_elem?-path_from (suc k) level i zero leaves h =
      let e : level + 0 ≡ level = omega arith in rw e
  get_elem?-path_from (suc k) level i (suc j) leaves h =
      let e : suc level + j ≡ level + suc j = omega arith in
      rw e at (get_elem?-path_from k (suc level) i j leaves (omega arith))
