-- ===== src/Builder/Numbering.antt =====
-- The numbers of the nodes of a changelog path: those of a heap whose root is 1.
use bubblegum_batch_sdk.Base.{
  ℕ, suc, ◌+◌, ◌-◌, ◌/◌, ◌^◌, ◌≤◌, ◌<◌, ◌≡◌, ap, ◌∙◌, arith, List, [], ◌∷◌, ◌++◌, length,
}
use bubblegum_batch_sdk.Base.Bytes.{Bytes}
use bubblegum_batch_sdk.Base.Pow.{pow_double, pow_mono}
use bubblegum_batch_sdk.Deps.Data.{ChangeLog}
use bubblegum_batch_sdk.Model.{SplPathNode}
use bubblegum_batch_sdk.Builder.Changelog.{path_nodes, make_changelog_path}
use native.Mathlib.Nat.{pow-zero, div-div-eq-div-mul}

-- The path goes from the node `k` to the root: each number is half the one before, the last is 1.
abbrev pub Ascends : ℕ → List SplPathNode → Type 0
Ascends k [] = k ≡ 0
Ascends k (n ∷ ns) = (n.index ≡ k) × Ascends (k / 2) ns

halve_shift : (i lvl : ℕ) → i / 2 ^ lvl / 2 ≡ i / 2 ^ suc lvl
halve_shift i lvl =
    div-div-eq-div-mul i (2 ^ lvl) 2 ∙ ap (λ p. i / p) (omega (arith, pow_double lvl))

-- The nodes from level `lvl` on, `k` of them, and the root.
path_nodes-Ascends :
    (len index lvl : ℕ) (ns : List Bytes) (root : Bytes)
    → len ≤ 30
    → lvl + length ns ≡ len
    → index / 2 ^ lvl < 2 ^ length ns
    → Ascends
        (2 ^ length ns + index / 2 ^ lvl)
        (path_nodes len index lvl ns ++ record { node = root; index = 1 } ∷ [])
unfolding path_nodes
path_nodes-Ascends len index lvl [] root small e bound =
    (omega (arith, pow-zero 2), omega (arith, pow-zero 2))
path_nodes-Ascends len index lvl (n ∷ ns) root small e bound =
    let k = length ns in
    let shift : len - lvl ≡ suc k = omega arith in
    let dbl = pow_double k in
    let half = halve_shift index lvl in
    let fits = pow_mono (suc k) 30 (omega arith) in
    let up : (2 ^ suc k + index / 2 ^ lvl) / 2 ≡ 2 ^ k + index / 2 ^ suc lvl =
      omega (arith, dbl, half) in
    (
      rw shift (omega (arith, fits)),
      rw up (
          path_nodes-Ascends len index (suc lvl) ns root small (omega arith)
            (omega (arith, dbl, half))),
    )

-- For a tree of depth 30 at most, the path of leaf number `index` starts at the node 2 ^ depth +
-- index of the heap and goes up to the root, with no wrap-around.
pub make_changelog_path-Ascends :
    (c : ChangeLog)
    → length c.path ≤ 30
    → c.index < 2 ^ length c.path
    → Ascends (2 ^ length c.path + c.index) (make_changelog_path c)
unfolding make_changelog_path
make_changelog_path-Ascends c small bound =
    let start : c.index / 2 ^ 0 ≡ c.index = omega (arith, pow-zero 2) in
    rw start at
      (path_nodes-Ascends (length c.path) c.index 0 c.path c.root small (omega arith) (omega arith))
