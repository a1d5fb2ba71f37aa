-- ===== src/Base/Outcomes.antt =====
-- What a Rust call can end in: `Ok`, `Err`, or a panic (a failed `unwrap`, an index out of range,
-- an underflow of an unsigned number).
use mathlib.Core.Path.{◌≡◌, refl}
use mathlib.Core.Option.{Option, none, some}
use mathlib.Core.Logic.{◌⊎◌, inl, inr}
use mathlib.Core.Bool.{Bool, true, false}

pub data Outcome {ℓ κ} (E : Type ℓ) (A : Type κ) : Type (ℓ ⊔ κ) where
  ok : A → Outcome E A
  err : E → Outcome E A
  panic : Outcome E A

infixl 5 ◌>>=◌ ◌>>◌
abbrev pub ◌>>=◌ {ℓ κ μ} :
    {E : Type ℓ} {A : Type κ} {B : Type μ} → Outcome E A → (A → Outcome E B) → Outcome E B
panic >>= next = panic
err failure >>= next = err failure
ok value >>= next = next value

-- An assertion of the language: a bound or an underflow check.
abbrev pub assert {ℓ} : {E : Type ℓ} → Bool → Outcome E (Unit {0})
assert true = ok tt
assert false = panic

-- `if (bad) { return Err(e) }`, read as: go on if the test holds.
abbrev pub guard {ℓ} : {E : Type ℓ} → Bool → E → Outcome E (Unit {0})
guard false failure = err failure
guard true failure = ok tt

abbrev pub ◌>>◌ {ℓ μ} : {E : Type ℓ} {B : Type μ} → Outcome E (Unit {0}) → Outcome E B → Outcome E B
check >> rest = check >>= λ (passed : Unit {0}). rest

-- `Result::unwrap`
abbrev pub unwrap {ℓ κ μ} : {E : Type ℓ} {F : Type κ} {A : Type μ} → Outcome E A → Outcome F A
unwrap (ok a) = ok a
unwrap (err e) = panic
unwrap panic = panic

-- `Result::map_err`, which `?` applies through `From`
abbrev pub map_err {ℓ κ μ} :
    {E : Type ℓ} {F : Type κ} {A : Type μ} → (E → F) → Outcome E A → Outcome F A
map_err f (ok a) = ok a
map_err f (err e) = err (f e)
map_err f panic = panic

-- `Option::ok_or`
abbrev pub ok_or {ℓ κ} : {E : Type ℓ} {A : Type κ} → Option A → E → Outcome E A
ok_or (some a) e = ok a
ok_or none e = err e

-- An access that panics where there is no element.
abbrev pub expect {ℓ κ} : {E : Type ℓ} {A : Type κ} → Option A → Outcome E A
expect (some a) = ok a
expect none = panic

module _ {ℓ κ μ} {E : Type ℓ} {A : Type κ} {B : Type μ} where
  -- Inversion of a successful bind.
  pub >>=-eq-ok :
      (first : Outcome E A) (next : A → Outcome E B) {result : B}
      → (first >>= next) ≡ ok result
      → (value : A) × (first ≡ ok value) × (next value ≡ ok result)
  >>=-eq-ok panic next h = cc
  >>=-eq-ok (err failure) next h = cc
  >>=-eq-ok (ok value) next h = (value, refl, h)

module _ {ℓ κ μ} {E : Type ℓ} {F : Type κ} {A : Type μ} where
  pub unwrap-eq-ok : (m : Outcome E A) {a : A} → unwrap {F = F} m ≡ ok a → m ≡ ok a
  unwrap-eq-ok (ok b) h = cc
  unwrap-eq-ok (err e) h = cc
  unwrap-eq-ok panic h = cc

  pub map_err-eq-ok : (f : E → F) (m : Outcome E A) {a : A} → map_err f m ≡ ok a → m ≡ ok a
  map_err-eq-ok f (ok b) h = cc
  map_err-eq-ok f (err e) h = cc
  map_err-eq-ok f panic h = cc

module _ {ℓ} {E : Type ℓ} where
  pub guard-eq-ok : (b : Bool) (e : E) {u : Unit {0}} → guard b e ≡ ok u → b ≡ true
  guard-eq-ok true e h = refl
  guard-eq-ok false e h = cc

  pub assert-eq-ok : (b : Bool) {u : Unit {0}} → assert {E = E} b ≡ ok u → b ≡ true
  assert-eq-ok true h = refl
  assert-eq-ok false h = cc

module _ {ℓ κ} {E : Type ℓ} {A : Type κ} where
  pub ok_injective : {a b : A} → ◌≡◌ {A = Outcome E A} (ok a) (ok b) → a ≡ b
  ok_injective h = cc

  pub expect-eq-ok : (o : Option A) {a : A} → expect {E = E} o ≡ ok a → o ≡ some a
  expect-eq-ok (some b) h = cc
  expect-eq-ok none h = cc

-- The call returns a value: it neither fails nor panics.
abbrev pub Succeeds {ℓ κ} : {E : Type ℓ} {A : Type κ} → Outcome E A → Type (ℓ ⊔ κ)
Succeeds {A = A} m = (a : A) × (m ≡ ok a)

pub bind-Succeeds {ℓ κ μ} :
    {E : Type ℓ} {A : Type κ} {B : Type μ} (m : Outcome E A) (f : A → Outcome E B) (a : A)
    → m ≡ ok a
    → Succeeds (f a)
    → Succeeds (m >>= f)
bind-Succeeds m f a e (b, h) = (b, rw e h)

pub Outcome-cases {ℓ κ} :
    {E : Type ℓ} {A : Type κ} (m : Outcome E A)
    → ((a : A) × (m ≡ ok a)) ⊎ (((e : E) × (m ≡ err e)) ⊎ (m ≡ panic))
Outcome-cases (ok a) = inl (a, refl)
Outcome-cases (err e) = inr (inl (e, refl))
Outcome-cases panic = inr (inr refl)

-- Two continuations that agree everywhere.
pub bind_congr {ℓ κ μ} :
    {E : Type ℓ} {A : Type κ} {B : Type μ} (m : Outcome E A) (f g : A → Outcome E B)
    → ((a : A) → f a ≡ g a)
    → (m >>= f) ≡ (m >>= g)
bind_congr (ok a) f g h = h a
bind_congr (err e) f g h = refl
bind_congr panic f g h = refl

-- A continuation that does some more at its end.
pub bind_through {ℓ κ μ ν} :
    {E : Type ℓ} {A : Type κ} {B : Type μ} {C : Type ν} (m : Outcome E A) (f : A → Outcome E B)
    (f' : A → Outcome E C) (g : B → Outcome E C)
    → ((a : A) → f' a ≡ (f a >>= g))
    → (m >>= f') ≡ ((m >>= f) >>= g)
bind_through (ok a) f f' g h = h a
bind_through (err e) f f' g h = refl
bind_through panic f f' g h = refl
