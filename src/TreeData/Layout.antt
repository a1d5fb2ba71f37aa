-- ===== src/TreeData/Layout.antt =====
-- src/tree_data_acc.rs: where `from_bytes` finds the parts of a tree account.
use bubblegum_batch_sdk.Base.{
  ℕ, suc, ◌+◌, ◌*◌, ◌^◌, ◌≤◌, ◌<◌, ◌≡◌, sym, ap, ◌∙◌, subst, arith, true, ◌++◌, length, length-take,
  take-append-drop, length-append, leb, ok, Bool-cases, inl, inr, assert, ok_or, map_err,
  map_err-eq-ok, >>=-eq-ok, ok_injective,
}
use mathlib.Core.List.{append_assoc}
use bubblegum_batch_sdk.Base.Bytes.{Bytes}
use bubblegum_batch_sdk.Deps.{Deps}
use bubblegum_batch_sdk.Deps.Data.{MerkleTree}
use bubblegum_batch_sdk.Errors.{BatchMintError, unable_to_parse_tree_err, unexpected_tree_size}
use bubblegum_batch_sdk.MerkleTree.{calc_merkle_tree_size}
use bubblegum_batch_sdk.MerkleTree.Sizes.{is_supported, calc_merkle_tree_size_lem}
use bubblegum_batch_sdk.MerkleTree.Canopy.{canopy_nodes, calc_canopy_size_nodes}
use bubblegum_batch_sdk.TreeData.{TreeDataInfo, split_at, from_bytes}
use bubblegum_batch_sdk.TreeData.Reading.{from_bytes_depth}

-- A split has the number of bytes asked for in front, and loses none.
split_at_sound :
    {E : Type 0} (bytes : Bytes) (n : ℕ) {r : Bytes × Bytes}
    → split_at {E = E} bytes n ≡ ok r
    → (length r.0 ≡ n) × (r.0 ++ r.1 ≡ bytes)
unfolding split_at
split_at_sound {E = E} bytes n h =
    let (u, long, cut) = >>=-eq-ok (assert {E = E} (leb n (length bytes))) _ h in
    let within : n ≤ length bytes = ground (arith, long) in
    subst (λ (r : Bytes × Bytes). (length r.0 ≡ n) × (r.0 ++ r.1 ≡ bytes)) (ok_injective cut)
      (length-take n bytes within, take-append-drop n bytes)

module _ (x : Deps) where
  -- The size of a tree without a canopy.
  bare_size :
      {E : Type 0} (d s : ℕ) (e : E) {size : ℕ}
      → ok_or (calc_merkle_tree_size x d s 0) e ≡ ok size
      → (is_supported d s ≡ true) × (size ≡ x.tree_size d s)
  bare_size d s e h = elim (Bool-cases (is_supported d s)) [
    | inl listed ↦
        let known = calc_merkle_tree_size_lem x d s 0 in
        let sum = ok_injective (rw (known, listed) at h) in
        let none_above = calc_canopy_size_nodes 0 in (listed, omega (arith, sum, none_above))
    | inr other ↦ cc (rw (calc_merkle_tree_size_lem x d s 0, other) at h)
  ]

  -- From an account of less than 4 GiB: the sizes are those in the account's header. The canopy
  -- buffer is just what follows the header and a tree of that size, no byte more or less. The
  -- canopy's depth is the greatest for which the nodes of all its levels fit there, at 32 bytes
  -- each, and there are 2 ^ depth canopy leaves.
  pub from_bytes_lem :
      (bytes : Bytes) (info : TreeDataInfo)
      → length bytes < 2 ^ 32
      → from_bytes x bytes ≡ ok info
      → (t : MerkleTree) × (front : Bytes) × (x.merkle_tree_from_bytes bytes ≡ ok t)
        × (info.max_depth ≡ t.max_depth)
        × (info.max_buffer_size ≡ t.max_buffer_size)
        × (is_supported t.max_depth t.max_buffer_size ≡ true)
        × (bytes ≡ front ++ info.canopy_buffer)
        × (length front ≡ x.header_size + x.tree_size t.max_depth t.max_buffer_size)
        × (info.canopy_leaves_count ≡ 2 ^ info.canopy_depth)
        × (32 * canopy_nodes info.canopy_depth ≤ length info.canopy_buffer)
        × (length info.canopy_buffer < 32 * canopy_nodes (suc info.canopy_depth))
  unfolding from_bytes
  from_bytes_lem bytes info bound h =
      let E : Type 0 = BatchMintError x in
      let (t, parsed, h₁) =
        >>=-eq-ok (map_err unable_to_parse_tree_err (x.merkle_tree_from_bytes bytes)) _ h in
      let (size, sized, h₂) =
        >>=-eq-ok
          (ok_or (calc_merkle_tree_size x t.max_depth t.max_buffer_size 0)
            (unexpected_tree_size t.max_depth t.max_buffer_size))
          _ h₁ in
      let (header, cut, h₃) = >>=-eq-ok (split_at {E = E} bytes x.header_size) _ h₂ in
      let (body, cut', h₄) = >>=-eq-ok (split_at {E = E} header.1 size) _ h₃ in
      let info_eq = ok_injective h₄ in
      let (header_len, whole) = split_at_sound bytes x.header_size cut in
      let (body_len, behind) = split_at_sound header.1 size cut' in
      let (supported, size_eq) = bare_size t.max_depth t.max_buffer_size _ sized in
      let (count, fits, tight) = from_bytes_depth x bytes info bound h in
      let d : ℕ = info.canopy_depth in
      (
        t,
        header.0 ++ body.0,
        map_err-eq-ok unable_to_parse_tree_err (x.merkle_tree_from_bytes bytes) parsed,
        ap (λ i. i.max_depth) (sym info_eq),
        ap (λ i. i.max_buffer_size) (sym info_eq),
        supported,
        sym whole
            ∙ ap (λ r. header.0 ++ r) (sym behind)
            ∙ sym (append_assoc header.0 body.0 body.1)
            ∙ ap (λ (i : TreeDataInfo). (header.0 ++ body.0) ++ i.canopy_buffer) info_eq,
        omega (arith, length-append header.0 body.0, header_len, body_len, size_eq),
        count,
        subst (λ n. n ≤ length info.canopy_buffer) (calc_canopy_size_nodes d) fits,
        subst (λ n. length info.canopy_buffer < n) (calc_canopy_size_nodes (suc d)) tight,
      )
