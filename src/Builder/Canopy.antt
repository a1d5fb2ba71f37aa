-- ===== src/Builder/Canopy.antt =====
-- The canopy that `add_asset` of src/batch_mint_builder.rs keeps, against a level of the merkle tree.
use bubblegum_batch_sdk.Base.{
  ℕ, zero, suc, ◌+◌, ◌-◌, ◌*◌, ◌/◌, ◌^◌, ◌≤◌, ◌<◌, ◌≡◌, refl, sym, ap, subst, ◌∙◌, arith, some,
  List, [], ◌∷◌, ◌++◌, length, get_elem?, set, length-snoc, length-set, ltb, leb, if◌then◌else◌,
  inl, inr, Bool-cases, ltb→lt, leb→le, le→leb, ok, assert, expect, >>=-eq-ok, ok_injective,
  assert-eq-ok, Succeeds, bind-Succeeds, expect-eq-ok, some_injective,
}
use bubblegum_batch_sdk.Base.Bytes.{Bytes}
use bubblegum_batch_sdk.Base.Pow.{pow_pos}
use bubblegum_batch_sdk.Deps.{Deps}
use bubblegum_batch_sdk.Deps.Data.{ChangeLog}
use bubblegum_batch_sdk.Deps.Merkle.{
  node, path_from, node-append, length-path_from, get_elem?-path_from,
}
use bubblegum_batch_sdk.Builder.Assets.{add_canopy_leaf}
use native.Mathlib.Nat.{div-mul-le_self, lt-div-mul-add, zero-add}
use native.Mathlib.Decide.{dec_lt}

module _ {ℓ} {A : Type ℓ} where
  get_elem?-snoc_lt :
      (xs : List A) (y : A) (i : ℕ) → i < length xs → get_elem? (xs ++ y ∷ []) i ≡ get_elem? xs i
  get_elem?-snoc_lt [] y i h = elim h [ ]
  get_elem?-snoc_lt (x ∷ xs) y zero h = refl
  get_elem?-snoc_lt (x ∷ xs) y (suc i) h = get_elem?-snoc_lt xs y i (omega arith)

  get_elem?-snoc_end : (xs : List A) (y : A) → get_elem? (xs ++ y ∷ []) (length xs) ≡ some y
  get_elem?-snoc_end [] y = refl
  get_elem?-snoc_end (x ∷ xs) y = get_elem?-snoc_end xs y

  get_elem?-set_here :
      (xs : List A) (i : ℕ) (v : A) → i < length xs → get_elem? (set xs i v) i ≡ some v
  get_elem?-set_here [] i v h = elim h [ ]
  get_elem?-set_here (x ∷ xs) zero v h = refl
  get_elem?-set_here (x ∷ xs) (suc i) v h = get_elem?-set_here xs i v (omega arith)

  get_elem?-set_lt :
      (xs : List A) (i j : ℕ) (v : A) → j < i → get_elem? (set xs i v) j ≡ get_elem? xs j
  get_elem?-set_lt [] i j v h = refl
  get_elem?-set_lt (x ∷ xs) zero j v h = elim h [ ]
  get_elem?-set_lt (x ∷ xs) (suc i) zero v h = refl
  get_elem?-set_lt (x ∷ xs) (suc i) (suc j) v h = get_elem?-set_lt xs i j v (omega arith)

mul_lt_cancel : (a b p : ℕ) → a * p < b * p → a < b
mul_lt_cancel a b p h = elim (dec_lt a b) [ yes lt ↦ lt | no ge ↦ absurd (grind arith) ]

-- Where a new leaf lies among the nodes of a level that cover the leaves.
canopy_position :
    (n len p : ℕ) → 0 < p → n ≤ len * p → len * p < n + p → (n / p ≤ len) × (len ≤ suc (n / p))
canopy_position n len p pos covers least =
    let j = n / p in
    let below = div-mul-le_self n p in
    let above = lt-div-mul-add {a = n} {b = p} pos in
    let lo : j < suc len = mul_lt_cancel j (suc len) p (omega (arith, below, covers, pos)) in
    let hi : len < suc (suc j) =
      mul_lt_cancel len (suc (suc j)) p (omega (arith, above, least, pos)) in
    (omega (arith, lo), omega (arith, hi))

-- The write of `add_asset`: a node at the end, or over the last one.
abbrev update_leaf : List Bytes → ℕ → Bytes → List Bytes
update_leaf canopy j v = if ltb (length canopy) (j + 1) then canopy ++ v ∷ [] else set canopy j v

length-update_leaf :
    (canopy : List Bytes) (j : ℕ) (v : Bytes)
    → j ≤ length canopy
    → length canopy ≤ suc j
    → length (update_leaf canopy j v) ≡ suc j
length-update_leaf canopy j v lo hi = elim (Bool-cases (ltb (length canopy) (j + 1))) [
  | inl push ↦ rw push (omega (arith, length-snoc canopy v, ltb→lt (length canopy) (j + 1) push))
  | inr write ↦ rw write (rw length-set (ground arith))
]

update_leaf_here :
    (canopy : List Bytes) (j : ℕ) (v : Bytes)
    → j ≤ length canopy
    → length canopy ≤ suc j
    → get_elem? (update_leaf canopy j v) j ≡ some v
update_leaf_here canopy j v lo hi = elim (Bool-cases (ltb (length canopy) (j + 1))) [
  | inl push ↦
      let e : length canopy ≡ j = omega (arith, ltb→lt (length canopy) (j + 1) push) in
      rw push (subst (λ k. get_elem? (canopy ++ v ∷ []) k ≡ some v) e (get_elem?-snoc_end canopy v))
  | inr write ↦ rw write (get_elem?-set_here canopy j v (ground arith))
]

update_leaf_lt :
    (canopy : List Bytes) (i j : ℕ) (v : Bytes)
    → i < j
    → j ≤ length canopy
    → get_elem? (update_leaf canopy j v) i ≡ get_elem? canopy i
update_leaf_lt canopy i j v h lo = elim (Bool-cases (ltb (length canopy) (j + 1))) [
  | inl push ↦ rw push (get_elem?-snoc_lt canopy v i (omega arith))
  | inr write ↦ rw write (get_elem?-set_lt canopy j i v h)
]

module _ (x : Deps) where
  -- `canopy` holds the first nodes of the level: as many as it takes to cover the leaves, no more.
  pub record IsCanopy (level : ℕ) (leaves canopy : List Bytes) : Type 0 where
    pub covers : length leaves ≤ length canopy * 2 ^ level
    pub least : length canopy * 2 ^ level < length leaves + 2 ^ level
    pub nodes : (i : ℕ) → i < length canopy → get_elem? canopy i ≡ some (node x level i leaves)

  -- The changelog of a tree of depth d after the leaf `leaf`.
  abbrev pub log_of : ℕ → List Bytes → Bytes → ChangeLog
  log_of d leaves leaf = record {
    index = length leaves;
    root = node x d 0 (leaves ++ leaf ∷ []);
    path = path_from x d 0 (length leaves) (leaves ++ leaf ∷ []);
  }

  pub empty-IsCanopy : (level : ℕ) → IsCanopy level [] []
  empty-IsCanopy level = record {
    covers = omega arith;
    least = omega (arith, pow_pos level);
    nodes = λ i h. elim h [ ];
  }

  update_leaf-IsCanopy :
      (level : ℕ) (leaves canopy : List Bytes) (leaf : Bytes)
      → IsCanopy level leaves canopy
      → let j = length leaves / 2 ^ level in
        IsCanopy level
          (leaves ++ leaf ∷ [])
          (update_leaf canopy j (node x level j (leaves ++ leaf ∷ [])))
  update_leaf-IsCanopy level leaves canopy leaf c =
      let p : ℕ = 2 ^ level in
      let n : ℕ = length leaves in
      let j : ℕ = n / p in
      let v = node x level j (leaves ++ leaf ∷ []) in
      let pos = pow_pos level in
      let (lo, hi) = canopy_position n (length canopy) p pos c.covers c.least in
      let len = length-update_leaf canopy j v lo hi in
      let grown = length-snoc leaves leaf in
      let below = div-mul-le_self n p in
      let above = lt-div-mul-add {a = n} {b = p} pos in
      record {
        covers = rw (len, grown) (omega (arith, above));
        least = rw (len, grown) (omega (arith, below));
        nodes = λ i h. elim (dec_lt i j) [
          | yes before ↦
              update_leaf_lt canopy i j v before lo
              ∙ c.nodes i (omega (arith, lo))
              ∙ ap some (sym (node-append x level i leaves (leaf ∷ []) (grind (arith, below))))
          | no last ↦
              let i_eq : i ≡ j = omega (arith, rw len at h) in
              rw i_eq (update_leaf_here canopy j v lo hi)
        ];
      }

  -- What `add_asset` does to the canopy when the tree of depth d takes one more leaf.
  pub add_canopy_leaf-IsCanopy :
      {E : Type 0} (d c : ℕ) (leaves canopy : List Bytes) (leaf : Bytes) {canopy' : List Bytes}
      → 0 < c
      → IsCanopy (d - c) leaves canopy
      → add_canopy_leaf {E = E} d c canopy (log_of d leaves leaf) ≡ ok canopy'
      → IsCanopy (d - c) (leaves ++ leaf ∷ []) canopy'
  unfolding add_canopy_leaf
  add_canopy_leaf-IsCanopy {E} d c leaves canopy leaf pos v h =
      let path = path_from x d 0 (length leaves) (leaves ++ leaf ∷ []) in
      let (u, fits, h₁) = >>=-eq-ok (assert {E = E} (leb c (length path))) _ h in
      let (w, fits', h₂) = >>=-eq-ok (assert {E = E} (leb c d)) _ h₁ in
      let (n, found, h₃) = >>=-eq-ok (expect {E = E} (get_elem? path (length path - c))) _ h₂ in
      let len = length-path_from x d 0 (length leaves) (leaves ++ leaf ∷ []) in
      let le = leb→le c d (assert-eq-ok {E = E} _ fits') in
      let at_level =
        get_elem?-path_from x d 0 (length leaves) (d - c) (leaves ++ leaf ∷ []) (omega arith) in
      let n_eq : node x (d - c) (length leaves / 2 ^ (d - c)) (leaves ++ leaf ∷ []) ≡ n =
        some_injective
          (sym (rw zero-add at at_level) ∙ (rw len at (expect-eq-ok {E = E} _ found))) in
      subst (IsCanopy (d - c) (leaves ++ leaf ∷ [])) (ok_injective h₃) (
        subst
          (λ m.
            IsCanopy (d - c) (leaves ++ leaf ∷ [])
              (update_leaf canopy (length leaves / 2 ^ (d - c)) m))
          n_eq (update_leaf-IsCanopy (d - c) leaves canopy leaf v))

  -- The canopy can be updated whenever it is not deeper than the tree.
  pub add_canopy_leaf_total :
      {E : Type 0} (d c : ℕ) (leaves canopy : List Bytes) (leaf : Bytes)
      → 0 < c
      → c ≤ d
      → Succeeds (add_canopy_leaf {E = E} d c canopy (log_of d leaves leaf))
  unfolding add_canopy_leaf
  add_canopy_leaf_total {E} d c leaves canopy leaf pos le =
      let path = path_from x d 0 (length leaves) (leaves ++ leaf ∷ []) in
      let len = length-path_from x d 0 (length leaves) (leaves ++ leaf ∷ []) in
      let at_level =
        rw zero-add at
          (get_elem?-path_from x d 0 (length leaves) (d - c) (leaves ++ leaf ∷ []) (omega arith)) in
      bind-Succeeds (assert {E = E} (leb c (length path))) _ tt (rw (len, le→leb c d le)) (
        bind-Succeeds (assert {E = E} (leb c d)) _ tt (rw (le→leb c d le)) (
          bind-Succeeds (expect {E = E} (get_elem? path (length path - c))) _
            (node x (d - c) (length leaves / 2 ^ (d - c)) (leaves ++ leaf ∷ []))
            (rw (len, at_level)) (_, refl)))
