-- ===== src/MerkleTree/Canopy.antt =====
-- The size of a canopy buffer and the depth that is read back from it.
use bubblegum_batch_sdk.Base.{
  ℕ, zero, suc, ◌+◌, ◌-◌, ◌*◌, ◌/◌, ◌^◌, ◌≤◌, ◌<◌, ◌≡◌, refl, ap, ◌∙◌, arith, some, none,
  if◌then◌else◌, ltb, inl, inr, Bool-cases, ltb→lt,
}
use bubblegum_batch_sdk.Base.Pow.{
  ilog2, ilog2_bounds, pow_double, pow_pos, pow_mono, pow_bracket_unique,
}
use bubblegum_batch_sdk.Deps.{Deps}
use bubblegum_batch_sdk.MerkleTree.{
  calc_canopy_size, calc_merkle_tree_size, restore_canopy_depth_from_buffer,
}
use bubblegum_batch_sdk.MerkleTree.Sizes.{is_supported, calc_merkle_tree_size_lem}
use native.Mathlib.Nat.{pow-zero}
use native.Mathlib.Numerals.{towards_suc}

-- The size at any depth, 0 included, is 32 bytes for each node under the root.
pub calc_canopy_size_closed : (c : ℕ) → calc_canopy_size c + 64 ≡ 64 * 2 ^ c
unfolding calc_canopy_size
calc_canopy_size_closed zero = refl
calc_canopy_size_closed (suc c) =
    simp towards_suc (ground (arith, pow_double (suc c), pow_double c, pow_pos c))

-- From 64 bytes on, the depth is one less than the exponent of the number of nodes and two.
restore_from_exponent :
    (n k : ℕ)
    → 2 ^ k ≤ n / 32 + 2
    → n / 32 + 2 < 2 ^ suc k
    → 64 ≤ n
    → (calc_canopy_size (k - 1) ≤ n) × (n < calc_canopy_size (suc (k - 1)))
restore_from_exponent n zero lo hi h = absurd (omega (arith, pow_double 0, pow-zero 2))
restore_from_exponent n (suc k) lo hi h =
    let e : suc k - 1 ≡ k = omega arith in
    rw e (
      omega (
        arith,
        calc_canopy_size_closed k,
        calc_canopy_size_closed (suc k),
        pow_double k,
        pow_double (suc k),
      ))

-- For every 32-bit buffer size, the depth read back is the greatest whose canopy fits the buffer.
pub restore_canopy_depth_fits :
    (n : ℕ)
    → n < 2 ^ 32
    → (calc_canopy_size (restore_canopy_depth_from_buffer n) ≤ n)
      × (n < calc_canopy_size (suc (restore_canopy_depth_from_buffer n)))
unfolding restore_canopy_depth_from_buffer
restore_canopy_depth_fits n h = elim (Bool-cases (ltb n 64)) [
  | inl small ↦ rw small (
      omega (
        arith,
        ltb→lt n 64 small,
        calc_canopy_size_closed 0,
        calc_canopy_size_closed 1,
        pow_double 0,
        pow-zero 2,
      ))
  | inr large ↦ rw large (
      let bounds = ilog2_bounds (n / 32 + 2) (omega arith) (omega arith) in
      restore_from_exponent n (ilog2 (n / 32 + 2)) bounds.0 bounds.1 (ground arith))
]

-- A canopy of depth 26 at most has a size of 32 bits, from which its depth is read back.
pub restore_canopy_depth-calc_canopy_size :
    (c : ℕ) → c ≤ 26 → restore_canopy_depth_from_buffer (calc_canopy_size c) ≡ c
restore_canopy_depth-calc_canopy_size c h =
    let n : ℕ = calc_canopy_size c in
    let r : ℕ = restore_canopy_depth_from_buffer n in
    let fits =
      restore_canopy_depth_fits n (omega (arith, calc_canopy_size_closed c, pow_mono c 26 h)) in
    pow_bracket_unique r c (2 ^ c)
      (omega (arith, fits.0, calc_canopy_size_closed c, calc_canopy_size_closed r))
      (omega (arith, fits.1, calc_canopy_size_closed c, calc_canopy_size_closed (suc r)))
      (omega arith) (omega (arith, pow_double c, pow_pos c))

-- The nodes of the upper levels of a tree without its root, counted level by level.
abbrev pub canopy_nodes : ℕ → ℕ
canopy_nodes zero = 0
canopy_nodes (suc c) = 2 ^ suc c + canopy_nodes c

canopy_nodes_closed : (c : ℕ) → canopy_nodes c + 2 ≡ 2 * 2 ^ c
canopy_nodes_closed zero = refl
canopy_nodes_closed (suc c) = omega (arith, canopy_nodes_closed c)

pub calc_canopy_size_nodes : (c : ℕ) → calc_canopy_size c ≡ 32 * canopy_nodes c
calc_canopy_size_nodes c = omega (arith, calc_canopy_size_closed c, canopy_nodes_closed c)

module _ (x : Deps) where
  -- For a canopy of fewer than 58 levels, and a tree type of less than 2 ^ 63 bytes: the size of
  -- a tree account's body is known for just the sizes for which a tree is implemented. It is the
  -- tree and 32 bytes for every node in the levels of the canopy, and the sum fits in 64 bits.
  pub calc_merkle_tree_size-canopy_nodes :
      (d s c : ℕ)
      → c < 58
      → x.tree_size d s < 2 ^ 63
      → (calc_merkle_tree_size x d s c
          ≡ (if is_supported d s then some (x.tree_size d s + 32 * canopy_nodes c) else none))
        × (x.tree_size d s + 32 * canopy_nodes c < 2 ^ 64)
  calc_merkle_tree_size-canopy_nodes d s c few small = (
    calc_merkle_tree_size_lem x d s c
        ∙ ap (λ n. if is_supported d s then some (x.tree_size d s + n) else none)
            (calc_canopy_size_nodes c),
    omega (arith, small, canopy_nodes_closed c, pow_mono c 57 (omega arith)),
  )
