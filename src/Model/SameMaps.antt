-- ===== src/Model/SameMaps.antt =====
-- Hash maps that `PartialEq` of src/model.rs finds equal answer every key alike.
use bubblegum_batch_sdk.Base.{
  suc, ◌≡◌, refl, sym, ap, ◌∙◌, arith, Bool, true, false, ◌&&◌, none, some, [], ◌∷◌, length, ◌==◌,
  ==_iff, if◌then◌else◌, Bool-cases, Option-cases, inl, inr,
}
use bubblegum_batch_sdk.Base.Bytes.{Bytes, bytes_eq, bytes_eq→eq, bytes_eq_iff}
use bubblegum_batch_sdk.Base.Maps.{HashMap, get}
use bubblegum_batch_sdk.Model.Equality.{same_value, all_same, hash_map_eq}

bytes_eq_sym : (a b : Bytes) → bytes_eq a b ≡ false → bytes_eq b a ≡ false
bytes_eq_sym a b h = ground (arith, bytes_eq_iff a b, bytes_eq_iff b a)

pub both : (a b : Bool) → (a && b) ≡ true → (a ≡ true) × (b ≡ true)
both true true h = (refl, refl)
both true false h = cc
both false b h = cc

module _ {V : Type 0} where
  -- No key stands twice, as in any `HashMap`.
  abbrev pub IsDistinct : HashMap V → Type 0
  IsDistinct [] = Unit
  IsDistinct ((k, v) ∷ m) = (get k m ≡ none) × IsDistinct m

  -- The map without the first entry of a key.
  without : Bytes → HashMap V → HashMap V
  without k [] = []
  without k ((j, v) ∷ m) = if bytes_eq k j then m else (j, v) ∷ without k m

  length-without :
      (k : Bytes) (m : HashMap V) {v : V} → get k m ≡ some v → length m ≡ suc (length (without k m))
  unfolding get without
  length-without k [] e = cc
  length-without k ((j, w) ∷ m) e = elim (Bool-cases (bytes_eq k j)) [
    | inl here ↦ rw here refl
    | inr on ↦ rw on (ap suc (length-without k m (rw on at e)))
  ]

  get-without : (i k : Bytes) (m : HashMap V) → bytes_eq i k ≡ false → get i (without k m) ≡ get i m
  unfolding get without
  get-without i k [] other = refl
  get-without i k ((j, w) ∷ m) other = elim (Bool-cases (bytes_eq k j)) [
    | inl here ↦
        let e : bytes_eq i j ≡ false = ap (bytes_eq i) (sym (bytes_eq→eq k j here)) ∙ other in
        rw (here, e) refl
    | inr on ↦ elim (Bool-cases (bytes_eq i j)) [
      | inl found ↦ rw (on, found) refl
      | inr next ↦ rw (on, next) (get-without i k m other)
    ]
  ]

  get-without_same : (k : Bytes) (m : HashMap V) → IsDistinct m → get k (without k m) ≡ none
  unfolding get without
  get-without_same k [] d = refl
  get-without_same k ((j, w) ∷ m) (fresh, d) = elim (Bool-cases (bytes_eq k j)) [
    | inl here ↦ rw here (ap (λ i. get i m) (bytes_eq→eq k j here) ∙ fresh)
    | inr on ↦ rw (on, on) (get-without_same k m d)
  ]

  IsDistinct-without : (k : Bytes) (m : HashMap V) → IsDistinct m → IsDistinct (without k m)
  unfolding without
  IsDistinct-without k [] d = tt
  IsDistinct-without k ((j, w) ∷ m) (fresh, d) = elim (Bool-cases (bytes_eq k j)) [
    | inl here ↦ rw here d
    | inr on ↦
        let apart : bytes_eq j k ≡ false = bytes_eq_sym k j on in
        rw on (get-without j k m apart ∙ fresh, IsDistinct-without k m d)
  ]

module _ {V : Type 0} (value_eq : V → V → Bool)
    (eq_sound : (v w : V) → value_eq v w ≡ true → v ≡ w) where
  same_value_sound :
      (other : HashMap V) (k : Bytes) (v : V)
      → same_value value_eq other k v ≡ true
      → get k other ≡ some v
  unfolding same_value
  same_value_sound other k v h = elim (Option-cases (get k other)) [
    | inl absent ↦ cc (rw (absent, same_value) at h)
    | inr (w, present) ↦ present ∙ ap some (sym (eq_sound v w (rw (present, same_value) at h)))
  ]

  same_value_cong :
      (m other : HashMap V) (k : Bytes) (v : V)
      → get k m ≡ get k other
      → same_value value_eq m k v ≡ same_value value_eq other k v
  unfolding same_value
  same_value_cong m other k v same =
      ap (λ o. elim o as (λ p. Bool) [ none ↦ false | some w ↦ value_eq v w ]) same

  -- The entries of a map that lacks the key are in the other without the key.
  all_same-without :
      (k : Bytes) (m other : HashMap V)
      → get k m ≡ none
      → all_same value_eq m other ≡ true
      → all_same value_eq m (without k other) ≡ true
  unfolding all_same same_value get
  all_same-without k [] other absent h = refl
  all_same-without k ((j, v) ∷ m) other absent h = elim (Bool-cases (bytes_eq k j)) [
    | inl here ↦ cc (rw here at absent)
    | inr on ↦
        let same : get j (without k other) ≡ get j other =
          get-without j k other (bytes_eq_sym k j on) in
        let (first, rest) = both (same_value value_eq other j v) (all_same value_eq m other) h in
        rw
          (
            same_value_cong (without k other) other j v same,
            first,
            all_same-without k m other (rw on at absent) rest,
          )
          refl
  ]

  -- The same map without the first entry.
  hash_map_eq-without :
      (k : Bytes) (v : V) (m other : HashMap V)
      → get k m ≡ none
      → hash_map_eq value_eq ((k, v) ∷ m) other ≡ true
      → (get k other ≡ some v) × (hash_map_eq value_eq m (without k other) ≡ true)
  unfolding hash_map_eq all_same
  hash_map_eq-without k v m other absent h =
      let (count, rest) = both (suc (length m) == length other) _ h in
      let (first, others) = both (same_value value_eq other k v) _ rest in
      let found = same_value_sound other k v first in
      let counted = (==_iff (suc (length m)) (length other)).0 count in
      let shorter = length-without k other found in
      let count' : (length m == length (without k other)) ≡ true =
        (==_iff _ _).1 (omega (arith, counted, shorter)) in
      (found, rw (count', all_same-without k m other absent others) refl)

  -- Maps that are equal have the same value, or none, under every key.
  pub hash_map_eq_sound :
      (m other : HashMap V)
      → IsDistinct m
      → IsDistinct other
      → hash_map_eq value_eq m other ≡ true
      → (k : Bytes) → get k other ≡ get k m
  unfolding hash_map_eq all_same get
  hash_map_eq_sound [] [] d d' h k = refl
  hash_map_eq_sound [] (e ∷ other) d d' h k = absurd (ground (arith, h))
  hash_map_eq_sound ((j, v) ∷ m) other (fresh, d) d' h k =
      let (found, rest) = hash_map_eq-without j v m other fresh h in
      let others = hash_map_eq_sound m (without j other) d (IsDistinct-without j other d') rest k in
      elim (Bool-cases (bytes_eq k j)) [
        | inl here ↦ rw here (ap (λ i. get i other) (bytes_eq→eq k j here) ∙ found)
        | inr on ↦ rw on (sym (get-without k j other on) ∙ others)
      ]
