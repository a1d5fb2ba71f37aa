-- ===== src/Base/Maps.antt =====
-- The maps of the standard library that the code uses. A `BTreeMap` with number keys is a list of
-- entries in the order of the keys; a `HashMap` with byte-string keys is a list of entries in the
-- order of the iteration, which the language leaves open.
use Prim.Native.Nat.{ℕ, suc, ◌+◌}
use mathlib.Core.Path.{◌≡◌, refl, sym, ap, ◌∙◌}
use mathlib.Core.Bool.{Bool, true, false}
use mathlib.Core.Option.{Option, none, some}
use mathlib.Core.List.{List, [], ◌∷◌, ◌++◌, map}
use native.Mathlib.Omega.{arith}
use bubblegum_batch_sdk.Base.Tests.{ltb, ◌==◌, if◌then◌else◌, Bool-cases, some_injective}
use mathlib.Core.Logic.{inl, inr}
use bubblegum_batch_sdk.Base.Lists.{length}
use bubblegum_batch_sdk.Base.Bytes.{Bytes, bytes_eq, bytes_eq_iff}

abbrev pub BTreeMap {ℓ} : Type ℓ → Type ℓ
BTreeMap V = List (ℕ × V)

module _ {ℓ} {V : Type ℓ} where
  -- `get`, and the read half of `get_mut`
  unfoldable pub lookup : ℕ → BTreeMap V → Option V
  lookup k [] = none
  lookup k ((j, v) ∷ m) = if k == j then some v else lookup k m

  -- `insert` replaces the value of a key that is there, and keeps the order.
  unfoldable pub insert : ℕ → V → BTreeMap V → BTreeMap V
  insert k v [] = (k, v) ∷ []
  insert k v (e ∷ m) =
      if k == e.0 then (k, v) ∷ m else (if ltb k e.0 then (k, v) ∷ e ∷ m else e ∷ insert k v m)

  -- The write through the reference of `get_mut`.
  unfoldable pub put : ℕ → V → BTreeMap V → BTreeMap V
  put k v [] = []
  put k v (e ∷ m) = if k == e.0 then (e.0, v) ∷ m else e ∷ put k v m

  unfoldable pub values : BTreeMap V → List V
  values [] = []
  values ((k, v) ∷ m) = v ∷ values m

  -- The keys are i, i + 1, i + 2, …
  abbrev pub CountsFrom : ℕ → BTreeMap V → Type 0
  CountsFrom i [] = Unit
  CountsFrom i (e ∷ m) = (e.0 ≡ i) × CountsFrom (suc i) m

  -- The next key goes to the end.
  pub insert_next :
      (i : ℕ) (v : V) (m : BTreeMap V)
      → CountsFrom i m
      → insert (i + length m) v m ≡ m ++ ((i + length m, v) ∷ [])
  unfolding insert
  insert_next i v [] h = refl
  insert_next i v ((j, w) ∷ m) (e, h) =
      let next : suc i + length m ≡ i + suc (length m) = omega arith in
      let rest = rw next at (insert_next (suc i) v m h) in ground (arith, rest)

  pub CountsFrom-snoc :
      (i : ℕ) (v : V) (m : BTreeMap V)
      → CountsFrom i m
      → CountsFrom i (m ++ ((i + length m, v) ∷ []))
  CountsFrom-snoc i v [] h = (omega arith, tt)
  CountsFrom-snoc i v ((j, w) ∷ m) (e, h) =
      let next : suc i + length m ≡ i + suc (length m) = omega arith in
      (e, rw next at (CountsFrom-snoc (suc i) v m h))

  pub lookup_last :
      (i : ℕ) (v : V) (m : BTreeMap V)
      → CountsFrom i m
      → lookup (i + length m) (m ++ ((i + length m, v) ∷ [])) ≡ some v
  unfolding lookup
  lookup_last i v [] h = ground arith
  lookup_last i v ((j, w) ∷ m) (e, h) =
      let next : suc i + length m ≡ i + suc (length m) = omega arith in
      let rest = rw next at (lookup_last (suc i) v m h) in ground (arith, rest)

  pub put_last :
      (i : ℕ) (v v' : V) (m : BTreeMap V)
      → CountsFrom i m
      → put (i + length m) v' (m ++ ((i + length m, v) ∷ [])) ≡ m ++ ((i + length m, v') ∷ [])
  unfolding put
  put_last i v v' [] h = ground arith
  put_last i v v' ((j, w) ∷ m) (e, h) =
      let next : suc i + length m ≡ i + suc (length m) = omega arith in
      let rest = rw next at (put_last (suc i) v v' m h) in ground (arith, rest)

  pub CountsFrom-put :
      (i k : ℕ) (v : V) (m : BTreeMap V) → CountsFrom i m → CountsFrom i (put k v m)
  unfolding put
  CountsFrom-put i k v [] h = tt
  CountsFrom-put i k v (e ∷ m) h = ground (arith, CountsFrom-put (suc i) k v m h.1)

  pub values-append : (m n : BTreeMap V) → values (m ++ n) ≡ values m ++ values n
  unfolding values
  values-append [] n = refl
  values-append ((k, v) ∷ m) n = ap (λ r. v ∷ r) (values-append m n)

  pub length-values : (m : BTreeMap V) → length (values m) ≡ length m
  unfolding values
  length-values [] = refl
  length-values ((k, v) ∷ m) = ap suc (length-values m)

  pub length-put : (k : ℕ) (v : V) (m : BTreeMap V) → length (put k v m) ≡ length m
  unfolding put
  length-put k v [] = refl
  length-put k v (e ∷ m) = ground (arith, length-put k v m)

-- A function of the values, under the same keys.
module _ {ℓ κ} {V : Type ℓ} {W : Type κ} (f : V → W) where
  abbrev pub map_values : BTreeMap V → BTreeMap W
  map_values [] = []
  map_values ((k, v) ∷ m) = (k, f v) ∷ map_values m

  pub length-map_values : (m : BTreeMap V) → length (map_values m) ≡ length m
  length-map_values [] = refl
  length-map_values (e ∷ m) = ap suc (length-map_values m)

  pub values-map_values : (m : BTreeMap V) → values (map_values m) ≡ map f (values m)
  unfolding values
  values-map_values [] = refl
  values-map_values ((k, v) ∷ m) = ap (λ r. f v ∷ r) (values-map_values m)

  pub map_values-append : (m n : BTreeMap V) → map_values (m ++ n) ≡ map_values m ++ map_values n
  map_values-append [] n = refl
  map_values-append ((k, v) ∷ m) n = ap (λ r. (k, f v) ∷ r) (map_values-append m n)

  pub map_values-insert :
      (k : ℕ) (v : V) (m : BTreeMap V) → map_values (insert k v m) ≡ insert k (f v) (map_values m)
  unfolding insert
  map_values-insert k v [] = refl
  map_values-insert k v ((j, w) ∷ m) = ground (arith, map_values-insert k v m)

  -- A value may be replaced by one that the function does not tell apart.
  pub map_values-put :
      (k : ℕ) (m : BTreeMap V) {v v' : V}
      → lookup k m ≡ some v
      → f v' ≡ f v
      → map_values (put k v' m) ≡ map_values m
  unfolding lookup put
  map_values-put k [] found same = refl
  map_values-put k ((j, w) ∷ m) found same = elim (Bool-cases (k == j)) [
    | inl here ↦
        let w_eq : w ≡ _ = some_injective (rw here at found) in
        rw here (ap (λ u. (j, u) ∷ map_values m) (same ∙ ap f (sym w_eq)))
    | inr on ↦ rw on (ap (λ r. (j, f w) ∷ r) (map_values-put k m (rw on at found) same))
  ]

abbrev pub HashMap {ℓ} : Type ℓ → Type ℓ
HashMap V = List (Bytes × V)

module _ {ℓ} {V : Type ℓ} where
  unfoldable pub get : Bytes → HashMap V → Option V
  get k [] = none
  get k ((j, v) ∷ m) = if bytes_eq k j then some v else get k m

  -- `HashMap::insert`
  unfoldable pub add : Bytes → V → HashMap V → HashMap V
  add k v [] = (k, v) ∷ []
  add k v (e ∷ m) = if bytes_eq k e.0 then (e.0, v) ∷ m else e ∷ add k v m

  unfoldable pub contains_key : Bytes → HashMap V → Bool
  contains_key k m = elim (get k m) [ none ↦ false | some _ ↦ true ]

  pub get-add :
      (j k : Bytes) (v : V) (m : HashMap V)
      → get j (add k v m) ≡ (if bytes_eq j k then some v else get j m)
  unfolding get add
  get-add j k v [] = refl
  get-add j k v ((i, w) ∷ m) =
      ground (arith, bytes_eq_iff j k, bytes_eq_iff k i, bytes_eq_iff j i, get-add j k v m)
