-- ===== src/MerkleTree.antt =====
-- src/merkle_tree_wrapper.rs: the sizes of trees, and the sizes in bytes of what stores them. Each
-- `match` on (max_depth, max_buffer_size) is a list of its arms, first match first.
pub mod Sizes
pub mod Canopy
pub mod Tables
use bubblegum_batch_sdk.Base.{
  ℕ, suc, ◌+◌, ◌-◌, ◌*◌, ◌/◌, ◌^◌, Bool, ◌&&◌, Option, none, some, List, [], ◌∷◌, map, ltb, ◌==◌,
  if◌then◌else◌, Outcome, ok, err, ok_or,
}
use bubblegum_batch_sdk.Base.Pow.{ilog2}
use bubblegum_batch_sdk.Deps.{Deps}
use bubblegum_batch_sdk.Errors.{BatchMintError, unexpected_tree_size}
use mathlib.Core.Option

abbrev pub Arm : Type 0 → Type 0
Arm A = ℕ × ℕ × A

-- `match (depth, size) { (a, b) => …, … }`
unfoldable pub match_size : {A : Type 0} → ℕ → ℕ → List (Arm A) → Option A
match_size d s [] = none
match_size d s ((a, b, v) ∷ arms) = if d == a && s == b then some v else match_size d s arms

-- The sizes for which `make_tree_impls!` implements `ITree`.
unfoldable pub tree_impls : List (ℕ × ℕ)
tree_impls =
    (3, 8)
    ∷ (5, 8)
    ∷ (6, 16)
    ∷ (7, 16)
    ∷ (8, 16)
    ∷ (9, 16)
    ∷ (10, 32)
    ∷ (11, 32)
    ∷ (12, 32)
    ∷ (13, 32)
    ∷ (14, 64)
    ∷ (14, 256)
    ∷ (14, 1024)
    ∷ (14, 2048)
    ∷ (15, 64)
    ∷ (16, 64)
    ∷ (17, 64)
    ∷ (18, 64)
    ∷ (19, 64)
    ∷ (20, 64)
    ∷ (20, 256)
    ∷ (20, 1024)
    ∷ (20, 2048)
    ∷ (24, 64)
    ∷ (24, 256)
    ∷ (24, 512)
    ∷ (24, 1024)
    ∷ (24, 2048)
    ∷ (26, 512)
    ∷ (26, 1024)
    ∷ (26, 2048)
    ∷ (30, 512)
    ∷ (30, 1024)
    ∷ (30, 2048)
    ∷ []

-- The sizes for which `make_tree_creator_funcs!` makes a function that creates the tree.
unfoldable pub tree_creators : List (ℕ × ℕ)
tree_creators =
    (3, 8)
    ∷ (5, 8)
    ∷ (6, 16)
    ∷ (7, 16)
    ∷ (8, 16)
    ∷ (9, 16)
    ∷ (10, 32)
    ∷ (11, 32)
    ∷ (12, 32)
    ∷ (13, 32)
    ∷ (14, 64)
    ∷ (14, 256)
    ∷ (14, 1024)
    ∷ (14, 2048)
    ∷ (15, 64)
    ∷ (16, 64)
    ∷ (17, 64)
    ∷ (18, 64)
    ∷ (19, 64)
    ∷ (20, 64)
    ∷ (20, 256)
    ∷ (20, 1024)
    ∷ (20, 2048)
    ∷ (24, 64)
    ∷ (24, 256)
    ∷ (24, 512)
    ∷ (24, 1024)
    ∷ (24, 2048)
    ∷ (26, 512)
    ∷ (26, 1024)
    ∷ (26, 2048)
    ∷ (30, 512)
    ∷ (30, 1024)
    ∷ (30, 2048)
    ∷ []

-- The depths for which `make_changelog_impls!` implements `IChangeLog`.
unfoldable pub changelog_impls : List ℕ
changelog_impls =
    3 ∷ 5 ∷ 6 ∷ 7 ∷ 8 ∷ 9 ∷ 10 ∷ 11 ∷ 12 ∷ 13 ∷ 14 ∷ 15 ∷ 16 ∷ 17 ∷ 18 ∷ 19 ∷ 20 ∷ 24 ∷ 26 ∷ 30 ∷ []

module _ (x : Deps) where
  -- The arms of `make_concurrent_merkle_tree`.
  unfoldable pub creator_arms : List (Arm x.Tree)
  creator_arms =
      (3, 8, x.new_tree 3 8)
      ∷ (5, 8, x.new_tree 5 8)
      ∷ (6, 16, x.new_tree 6 16)
      ∷ (7, 16, x.new_tree 7 16)
      ∷ (8, 16, x.new_tree 8 16)
      ∷ (9, 16, x.new_tree 9 16)
      ∷ (10, 32, x.new_tree 10 32)
      ∷ (11, 32, x.new_tree 11 32)
      ∷ (12, 32, x.new_tree 12 32)
      ∷ (13, 32, x.new_tree 13 32)
      ∷ (14, 64, x.new_tree 14 64)
      ∷ (14, 256, x.new_tree 14 256)
      ∷ (14, 1024, x.new_tree 14 1024)
      ∷ (14, 2048, x.new_tree 14 2048)
      ∷ (15, 64, x.new_tree 15 64)
      ∷ (16, 64, x.new_tree 16 64)
      ∷ (17, 64, x.new_tree 17 64)
      ∷ (18, 64, x.new_tree 18 64)
      ∷ (19, 64, x.new_tree 19 64)
      ∷ (20, 64, x.new_tree 20 64)
      ∷ (20, 256, x.new_tree 20 256)
      ∷ (20, 1024, x.new_tree 20 1024)
      ∷ (20, 2048, x.new_tree 20 2048)
      ∷ (24, 64, x.new_tree 24 64)
      ∷ (24, 256, x.new_tree 24 256)
      ∷ (24, 512, x.new_tree 24 512)
      ∷ (24, 1024, x.new_tree 24 1024)
      ∷ (24, 2048, x.new_tree 24 2048)
      ∷ (26, 512, x.new_tree 26 512)
      ∷ (26, 1024, x.new_tree 26 1024)
      ∷ (26, 2048, x.new_tree 26 2048)
      ∷ (30, 512, x.new_tree 30 512)
      ∷ (30, 1024, x.new_tree 30 1024)
      ∷ (30, 2048, x.new_tree 30 2048)
      ∷ []

  unfoldable pub make_concurrent_merkle_tree : ℕ → ℕ → Outcome (BatchMintError x) x.Tree
  make_concurrent_merkle_tree max_depth max_buf_size =
      ok_or (match_size max_depth max_buf_size creator_arms)
        (unexpected_tree_size max_depth max_buf_size)

  -- The arms of `calc_merkle_tree_size`.
  unfoldable pub size_arms : List (Arm ℕ)
  size_arms =
      (3, 8, x.tree_size 3 8)
      ∷ (5, 8, x.tree_size 5 8)
      ∷ (6, 16, x.tree_size 6 16)
      ∷ (7, 16, x.tree_size 7 16)
      ∷ (8, 16, x.tree_size 8 16)
      ∷ (9, 16, x.tree_size 9 16)
      ∷ (10, 32, x.tree_size 10 32)
      ∷ (11, 32, x.tree_size 11 32)
      ∷ (12, 32, x.tree_size 12 32)
      ∷ (13, 32, x.tree_size 13 32)
      ∷ (14, 64, x.tree_size 14 64)
      ∷ (14, 256, x.tree_size 14 256)
      ∷ (14, 1024, x.tree_size 14 1024)
      ∷ (14, 2048, x.tree_size 14 2048)
      ∷ (15, 64, x.tree_size 15 64)
      ∷ (16, 64, x.tree_size 16 64)
      ∷ (17, 64, x.tree_size 17 64)
      ∷ (18, 64, x.tree_size 18 64)
      ∷ (19, 64, x.tree_size 19 64)
      ∷ (20, 64, x.tree_size 20 64)
      ∷ (20, 256, x.tree_size 20 256)
      ∷ (20, 1024, x.tree_size 20 1024)
      ∷ (20, 2048, x.tree_size 20 2048)
      ∷ (24, 64, x.tree_size 24 64)
      ∷ (24, 256, x.tree_size 24 256)
      ∷ (24, 512, x.tree_size 24 512)
      ∷ (24, 1024, x.tree_size 24 1024)
      ∷ (24, 2048, x.tree_size 24 2048)
      ∷ (26, 512, x.tree_size 26 512)
      ∷ (26, 1024, x.tree_size 26 1024)
      ∷ (26, 2048, x.tree_size 26 2048)
      ∷ (30, 512, x.tree_size 30 512)
      ∷ (30, 1024, x.tree_size 30 1024)
      ∷ (30, 2048, x.tree_size 30 2048)
      ∷ []

-- `size_of::<Node>()` for `Node = [u8; 32]`
abbrev pub node_size : ℕ
node_size = 32

-- The bytes of a canopy of the given depth. For depths below 59 the arithmetic on 64 bits does not
-- overflow.
unfoldable pub calc_canopy_size : ℕ → ℕ
calc_canopy_size canopy_depth =
    if canopy_depth == 0 then 0 else node_size * (2 ^ (canopy_depth + 1) - 2)

-- The depth of a canopy that fits in a buffer of so many bytes.
unfoldable pub restore_canopy_depth_from_buffer : ℕ → ℕ
restore_canopy_depth_from_buffer canopy_buffer_size =
    if ltb canopy_buffer_size 64 then 0 else ilog2 (canopy_buffer_size / node_size + 2) - 1

module _ (x : Deps) where
  unfoldable pub calc_merkle_tree_size : ℕ → ℕ → ℕ → Option ℕ
  calc_merkle_tree_size max_depth max_buffer_size canopy_depth =
      Option.map (λ s. s + calc_canopy_size canopy_depth)
        (match_size max_depth max_buffer_size (size_arms x))

  unfoldable pub calc_tree_data_account_size : ℕ → ℕ → ℕ → Option ℕ
  calc_tree_data_account_size max_depth max_buffer_size canopy_depth =
      Option.map (λ s. x.header_size + s)
        (calc_merkle_tree_size max_depth max_buffer_size canopy_depth)
