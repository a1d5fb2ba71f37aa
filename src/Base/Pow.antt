-- ===== src/Base/Pow.antt =====
-- Powers of two, shifts, and the integer logarithm.
use Prim.Native.Nat.{ℕ, zero, suc, ◌*◌, ◌/◌, ◌^◌, ◌≤◌, ◌<◌}
use mathlib.Core.Path.{◌≡◌, refl}
use native.Mathlib.Nat.{pow-suc, pow-zero}
use native.Mathlib.Omega.{arith}
use bubblegum_batch_sdk.Base.Tests.{ltb, if◌then◌else◌}

pub pow_double : (n : ℕ) → 2 ^ suc n ≡ 2 * 2 ^ n
pow_double n = omega (arith, pow-suc 2 n)

pub pow_pos : (n : ℕ) → 0 < 2 ^ n
pow_pos zero = omega (arith, pow-zero 2)
pow_pos (suc n) = omega (arith, pow_double n, pow_pos n)

pub pow_mono : (m n : ℕ) → m ≤ n → 2 ^ m ≤ 2 ^ n
pow_mono m zero h = let e : m ≡ 0 = omega arith in rw e (omega arith)
pow_mono zero (suc n) h = omega (arith, pow_pos (suc n), pow-zero 2)
pow_mono (suc m) (suc n) h = omega (arith, pow_mono m n (omega arith), pow_double m, pow_double n)

-- `u32::ilog2` for an argument above 0, on fuel.
pub ilog2_fuel : ℕ → ℕ → ℕ
ilog2_fuel zero n = 0
ilog2_fuel (suc f) n = let rest = ilog2_fuel f (n / 2) in if ltb n 2 then 0 else suc rest

unfoldable pub ilog2 : ℕ → ℕ
unfolding ilog2_fuel
ilog2 n = ilog2_fuel 64 n

ilog2_fuel_lem :
    (f n : ℕ) → 0 < n → n < 2 ^ f → (2 ^ ilog2_fuel f n ≤ n) × (n < 2 ^ suc (ilog2_fuel f n))
unfolding ilog2_fuel
ilog2_fuel_lem zero n p h = absurd (omega (arith, pow-zero 2))
ilog2_fuel_lem (suc f) n p h = ground (
  arith,
  pow_double f,
  pow-zero 2,
  pow_double 0,
  pow_double (ilog2_fuel f (n / 2)),
  pow_double (suc (ilog2_fuel f (n / 2))),
  ilog2_fuel_lem f (n / 2),
)

-- The fuel is enough for every 64-bit number: the result is the exponent of the highest bit.
pub ilog2_bounds : (n : ℕ) → 0 < n → n < 2 ^ 64 → (2 ^ ilog2 n ≤ n) × (n < 2 ^ suc (ilog2 n))
unfolding ilog2 ilog2_fuel
ilog2_bounds n p h = ilog2_fuel_lem 64 n p h

-- The exponent is determined by these bounds.
pub pow_bracket_unique : (i j n : ℕ) → 2 ^ i ≤ n → n < 2 ^ suc i → 2 ^ j ≤ n → n < 2 ^ suc j → i ≡ j
pow_bracket_unique zero zero n a b c d = refl
pow_bracket_unique zero (suc j) n a b c d =
    absurd (omega (arith, pow_double 0, pow_double j, pow_pos j, pow-zero 2))
pow_bracket_unique (suc i) zero n a b c d =
    absurd (omega (arith, pow_double 0, pow_double i, pow_pos i, pow-zero 2))
pow_bracket_unique (suc i) (suc j) n a b c d = omega (
  arith,
  pow_double i,
  pow_double j,
  pow_double (suc i),
  pow_double (suc j),
  pow_bracket_unique i j (n / 2),
)
