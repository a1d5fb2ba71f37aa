-- ===== src/Client/CanopyWrites.antt =====
-- src/batch_mint_client.rs: the canopy nodes that `calc_canopy_to_add` leaves to be written, and the
-- instructions that write them.
use bubblegum_batch_sdk.Base.{
  ℕ, zero, suc, ◌+◌, ◌*◌, ◌^◌, ◌≤◌, ◌<◌, ◌≡◌, refl, sym, ap, ◌∙◌, arith, true, List, [], ◌∷◌, ◌++◌,
  length, take, drop, take-append-drop, length-take, length-drop, length-append, le→leb, ok, panic,
  inl, inr, Bool-cases,
}
use bubblegum_batch_sdk.Base.Bytes.{Bytes, bytes_eq→eq}
use bubblegum_batch_sdk.Client.Canopy.{
  same_nodes, canopy_nodes_per_tx, chunks, AddCanopy, add_canopy_from, add_canopy_instructions,
  skip_existing, calc_canopy_to_add,
}
use bubblegum_batch_sdk.Deps.{Deps}
use bubblegum_batch_sdk.Errors.{BatchMintError}
use bubblegum_batch_sdk.TreeData.{TreeDataInfo, non_empty_canopy_leaves}
use bubblegum_batch_sdk.Builder.State.{BatchMintBuilder}

same_nodes-eq : (as' bs : List Bytes) → length as' ≡ length bs → same_nodes as' bs ≡ true → as' ≡ bs
unfolding same_nodes
same_nodes-eq [] [] e h = refl
same_nodes-eq [] (b ∷ bs) e h = absurd (omega arith)
same_nodes-eq (a ∷ as') [] e h = absurd (omega arith)
same_nodes-eq (a ∷ as') (b ∷ bs) e h =
    ground (arith, bytes_eq→eq a b, same_nodes-eq as' bs (omega arith))

take_all {ℓ} : {A : Type ℓ} (xs : List A) → take (length xs) xs ≡ xs
take_all [] = refl
take_all (x ∷ xs) = ap (λ r. x ∷ r) (take_all xs)

-- A write at `offset`, which is not past the end of the stored nodes, makes up the canopy.
abbrev pub Completes : List Bytes → List Bytes → List Bytes × ℕ → Type 0
Completes canopy_leaves existing (to_add, offset) =
    (offset ≤ length existing) × (take offset existing ++ to_add ≡ canopy_leaves)

skip_existing-Completes :
    {E : Type 0} (canopy_leaves existing : List Bytes)
    → length existing ≤ length canopy_leaves
    → (r : List Bytes × ℕ) × (skip_existing {E = E} canopy_leaves existing ≡ ok r)
      × Completes canopy_leaves existing r
unfolding skip_existing
skip_existing-Completes canopy_leaves existing h =
    let n : ℕ = length existing in
    elim (Bool-cases (same_nodes existing (take n canopy_leaves))) [
      | inl same ↦
          let len = length-take n canopy_leaves h in
          let e = same_nodes-eq existing (take n canopy_leaves) (sym len) same in
          (
            (drop n canopy_leaves, length (take n canopy_leaves)),
            rw (le→leb _ _ h, same),
            (
              omega (arith, len),
              ap (λ k. take k existing ++ drop n canopy_leaves) len
                  ∙ ap (λ r. r ++ drop n canopy_leaves) (take_all existing ∙ e)
                  ∙ take-append-drop n canopy_leaves,
            ),
          )
      | inr other ↦ ((canopy_leaves, 0), rw (le→leb _ _ h, other), (omega arith, refl))
    ]

skip_existing_panics :
    {E : Type 0} (canopy_leaves existing : List Bytes)
    → length canopy_leaves < length existing
    → skip_existing {E = E} canopy_leaves existing ≡ panic
unfolding skip_existing
skip_existing_panics canopy_leaves existing h = ground arith

module _ (x : Deps) where
  -- As long as no more nodes are stored than the builder has, the nodes to add, written at the offset
  -- over the stored ones, make up the builder's canopy. If more are stored, the call panics.
  pub calc_canopy_to_add-Completes :
      (info : TreeDataInfo) (b : BatchMintBuilder x) (existing : List Bytes)
      → non_empty_canopy_leaves x info ≡ ok existing
      → (length existing ≤ length b.canopy_leaves
          → (r : List Bytes × ℕ) × (calc_canopy_to_add x info b ≡ ok r)
            × Completes b.canopy_leaves existing r)
        × (length b.canopy_leaves < length existing → calc_canopy_to_add x info b ≡ panic)
  unfolding calc_canopy_to_add
  calc_canopy_to_add-Completes info b existing h = (
    λ le.
        let (r, e, done) =
          skip_existing-Completes {E = BatchMintError x} b.canopy_leaves existing le in
        (r, rw h e, done),
    λ lt. rw h (skip_existing_panics b.canopy_leaves existing lt),
  )

-- Each instruction starts where the one before ended, and has 1 to 24 nodes.
abbrev pub IsContiguous : ℕ → List AddCanopy → Type 0
IsContiguous pos [] = Unit
IsContiguous pos (i ∷ is) =
    (i.start_index ≡ pos)
    × (0 < length i.canopy_nodes)
    × (length i.canopy_nodes ≤ canopy_nodes_per_tx)
    × IsContiguous (pos + length i.canopy_nodes) is

abbrev pub all_nodes : List AddCanopy → List Bytes
all_nodes [] = []
all_nodes (i ∷ is) = i.canopy_nodes ++ all_nodes is

length-take_pos :
    (n : ℕ) (y : Bytes) (ys : List Bytes)
    → (0 < length (take (suc n) (y ∷ ys))) × (length (take (suc n) (y ∷ ys)) ≤ suc n)
length-take_pos zero y ys = (omega arith, omega arith)
length-take_pos (suc n) y [] = (omega arith, omega arith)
length-take_pos (suc n) y (z ∷ zs) = omega (arith, length-take_pos n z zs)

-- A chunk that is followed by another one is full.
full_chunk : (n : ℕ) (ys : List Bytes) → 0 < length (drop n ys) → length (take n ys) ≡ n
full_chunk n ys h = length-take n ys (omega (arith, length-drop n ys))

add_canopy_from_lem :
    (fuel offset ind pos : ℕ) (nodes : List Bytes)
    → length nodes ≤ fuel
    → (0 < length nodes → pos ≡ offset + ind * 24)
    → pos + length nodes < 2 ^ 32
    → IsContiguous pos (add_canopy_from offset ind (chunks fuel 24 nodes))
      × (all_nodes (add_canopy_from offset ind (chunks fuel 24 nodes)) ≡ nodes)
unfolding add_canopy_from chunks
add_canopy_from_lem zero offset ind pos [] fuel_ok e bound = (tt, refl)
add_canopy_from_lem (suc f) offset ind pos [] fuel_ok e bound = (tt, refl)
add_canopy_from_lem zero offset ind pos (y ∷ ys) fuel_ok e bound = absurd (omega arith)
add_canopy_from_lem (suc f) offset ind pos (y ∷ ys) fuel_ok e bound =
    let chunk = take 24 (y ∷ ys) in
    let rest = drop 24 (y ∷ ys) in
    let size = length-take_pos 23 y ys in
    let left = length-drop 24 (y ∷ ys) in
    let whole = ap length (take-append-drop 24 (y ∷ ys)) in
    let parts = length-append chunk rest in
    let (contiguous, nodes_eq) =
      add_canopy_from_lem f offset (suc ind) (pos + length chunk) rest (omega (arith, left))
        (λ more. omega (arith, e (omega arith), full_chunk 24 (y ∷ ys) more))
        (omega (arith, whole, parts)) in
    (
      (omega (arith, e (omega arith)), size.0, size.1, contiguous),
      ap (λ r. chunk ++ r) nodes_eq ∙ take-append-drop 24 (y ∷ ys),
    )

-- The instructions write the nodes to add, all of them and in their order, 1 to 24 in each, from the
-- offset on without a gap, if the positions fit 32 bits.
pub add_canopy_instructions_lem :
    (to_add : List Bytes) (offset : ℕ)
    → offset + length to_add < 2 ^ 32
    → IsContiguous offset (add_canopy_instructions to_add offset)
      × (all_nodes (add_canopy_instructions to_add offset) ≡ to_add)
unfolding add_canopy_instructions
add_canopy_instructions_lem to_add offset bound =
    add_canopy_from_lem (length to_add) offset 0 offset to_add (omega arith) (λ h. omega arith)
      bound
