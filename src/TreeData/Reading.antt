-- ===== src/TreeData/Reading.antt =====
-- src/tree_data_acc.rs: `from_bytes` and `non_empty_canopy_leaves` against the buffer that they read.
use bubblegum_batch_sdk.Base.{
  ℕ, zero, suc, ◌+◌, ◌-◌, ◌*◌, ◌%◌, ◌^◌, ◌≤◌, ◌<◌, ◌≡◌, ◌≢◌, refl, sym, ap, ◌∙◌, subst, arith, true,
  List, [], ◌∷◌, ◌++◌, replicate, length, take, drop, length-append, take-append, drop-append,
  length-drop, All, leb, le→leb, if◌then◌else◌, ok, assert, ok_or, map_err, ◌>>=◌, inl, inr,
  Bool-cases, >>=-eq-ok, ok_injective, Succeeds,
}
use bubblegum_batch_sdk.Base.Bytes.{Bytes, bytes_eq, bytes_eq_refl, bytes_eq→eq}
use bubblegum_batch_sdk.Base.Pow.{pow_mono}
use bubblegum_batch_sdk.Deps.{Deps}
use bubblegum_batch_sdk.Errors.{BatchMintError, unable_to_parse_tree_err, unexpected_tree_size}
use bubblegum_batch_sdk.MerkleTree.{
  calc_canopy_size, calc_merkle_tree_size, restore_canopy_depth_from_buffer,
}
use bubblegum_batch_sdk.MerkleTree.Canopy.{calc_canopy_size_closed, restore_canopy_depth_fits}
use bubblegum_batch_sdk.TreeData.{
  TreeDataInfo, split_at, from_bytes, read_leaves, non_empty_canopy_leaves,
}

module _ (x : Deps) where
  -- What a node in the canopy looks like.
  abbrev pub IsStored : Bytes → Type 0
  IsStored n = (length n ≡ 32) × (n ≢ x.empty)

  bytes_of : List Bytes → Bytes
  bytes_of [] = []
  bytes_of (n ∷ ns) = n ++ bytes_of ns

  -- The nodes one after the other, and then empty nodes.
  unfoldable pub stored : List Bytes → ℕ → Bytes
  unfolding bytes_of
  stored [] k = bytes_of (replicate k x.empty)
  stored (n ∷ ns) k = n ++ stored ns k

  read_node :
      (n rest : Bytes) (k : ℕ)
      → length n ≡ 32
      → read_leaves x (suc k) (n ++ rest)
        ≡ (if bytes_eq n x.empty then ok [] else read_leaves x k rest >>= λ leaves. ok (n ∷ leaves))
  unfolding read_leaves
  read_node n rest k len =
      let long : leb 32 (length (n ++ rest)) ≡ true =
        le→leb _ _ (omega (arith, length-append n rest, len)) in
      let front = subst (λ i. take i (n ++ rest) ≡ n) len (take-append n rest) in
      let back = subst (λ i. drop i (n ++ rest) ≡ rest) len (drop-append n rest) in
      rw (long, front, back)

  -- The nodes that are stored are read back, up to the first empty one.
  pub read_leaves-stored :
      (ns : List Bytes) (k : ℕ)
      → length x.empty ≡ 32
      → All IsStored ns
      → read_leaves x (length ns + k) (stored ns k) ≡ ok ns
  unfolding stored
  read_leaves-stored [] zero len h = unfold read_leaves in refl
  read_leaves-stored [] (suc k) len h =
      let e : 0 + suc k ≡ suc k = omega arith in
      rw e (read_node x.empty (bytes_of (replicate k x.empty)) k len ∙ rw bytes_eq_refl)
  read_leaves-stored (n ∷ ns) k len (first, others) =
      let e : suc (length ns) + k ≡ suc (length ns + k) = omega arith in
      rw e (
        read_node n (stored ns k) (length ns + k) first.0
        ∙ (elim (Bool-cases (bytes_eq n x.empty)) [
          | inl same ↦ absurd (first.1 (bytes_eq→eq n x.empty same))
          | inr other ↦ rw (other, read_leaves-stored ns k len others)
        ]))

  pub length-stored :
      (ns : List Bytes) (k : ℕ)
      → length x.empty ≡ 32
      → All IsStored ns
      → length (stored ns k) ≡ 32 * (length ns + k)
  unfolding stored
  length-stored [] zero len h = refl
  length-stored [] (suc k) len h = omega (
    arith,
    len,
    length-append x.empty (bytes_of (replicate k x.empty)),
    length-stored [] k len tt,
  )
  length-stored (n ∷ ns) k len (first, others) =
      omega (arith, first.0, length-append n (stored ns k), length-stored ns k len others)

  -- From a canopy buffer whose lowest level holds the nodes `ns` and then empty nodes, whatever is
  -- above it, the call returns just `ns`.
  pub non_empty_canopy_leaves-stored :
      (info : TreeDataInfo) (upper : Bytes) (ns : List Bytes) (k : ℕ)
      → length x.empty ≡ 32
      → All IsStored ns
      → info.canopy_leaves_count ≡ length ns + k
      → 2 ^ info.canopy_depth ≡ length ns + k
      → info.canopy_buffer ≡ upper ++ stored ns k
      → non_empty_canopy_leaves x info ≡ ok ns
  unfolding non_empty_canopy_leaves
  non_empty_canopy_leaves-stored info upper ns k len all count depth buffer =
      let size = length-stored ns k len all in
      let whole = ap length buffer ∙ length-append upper (stored ns k) in
      let fits : leb (2 ^ info.canopy_depth * 32) (length info.canopy_buffer) ≡ true =
        le→leb _ _ (omega (arith, size, whole, depth)) in
      let start : length info.canopy_buffer - 2 ^ info.canopy_depth * 32 ≡ length upper =
        omega (arith, size, whole, depth) in
      let low = ap (drop (length upper)) buffer ∙ drop-append upper (stored ns k) in
      rw (fits, start, low, count) (read_leaves-stored ns k len all)

  -- Enough bytes are there for every node that is read: nothing panics.
  read_leaves_total :
      (n : ℕ) (buffer : Bytes) → 32 * n ≤ length buffer → Succeeds (read_leaves x n buffer)
  unfolding read_leaves
  read_leaves_total zero buffer h = ([], refl)
  read_leaves_total (suc n) buffer h =
      let long : leb 32 (length buffer) ≡ true = le→leb _ _ (omega arith) in
      let (rest, e) = read_leaves_total n (drop 32 buffer) (omega (arith, length-drop 32 buffer)) in
      elim (Bool-cases (bytes_eq (take 32 buffer) x.empty)) [
        | inl same ↦ ([], rw (long, same))
        | inr other ↦ (take 32 buffer ∷ rest, rw (long, other, e))
      ]

  -- What `from_bytes` says of the canopy buffer, which is shorter than the account's data.
  pub from_bytes_sound :
      (bytes : Bytes) {info : TreeDataInfo}
      → from_bytes x bytes ≡ ok info
      → (info.canopy_leaves_count ≡ 2 ^ info.canopy_depth)
        × (info.canopy_depth
            ≡ restore_canopy_depth_from_buffer (length info.canopy_buffer % 2 ^ 32))
        × (length info.canopy_buffer ≤ length bytes)
  unfolding from_bytes split_at
  from_bytes_sound bytes h =
      let E : Type 0 = BatchMintError x in
      let (t, parsed, h₁) =
        >>=-eq-ok (map_err unable_to_parse_tree_err (x.merkle_tree_from_bytes bytes)) _ h in
      let (size, sized, h₂) =
        >>=-eq-ok
          (ok_or (calc_merkle_tree_size x t.max_depth t.max_buffer_size 0)
            (unexpected_tree_size t.max_depth t.max_buffer_size))
          _ h₁ in
      let (header, cut, h₃) = >>=-eq-ok (split_at {E = E} bytes x.header_size) _ h₂ in
      let (body, cut', h₄) = >>=-eq-ok (split_at {E = E} header.1 size) _ h₃ in
      let (u, long, cut_eq) = >>=-eq-ok (assert {E = E} (leb x.header_size (length bytes))) _ cut in
      let (v, long', cut_eq') = >>=-eq-ok (assert {E = E} (leb size (length header.1))) _ cut' in
      let info_eq = ok_injective h₄ in
      let header_len : length header.1 ≡ length bytes - x.header_size =
        ap (λ p. length p.1) (sym (ok_injective cut_eq)) ∙ length-drop x.header_size bytes in
      let body_len : length body.1 ≡ length header.1 - size =
        ap (λ p. length p.1) (sym (ok_injective cut_eq')) ∙ length-drop size header.1 in
      subst
        (λ (i : TreeDataInfo).
          (i.canopy_leaves_count ≡ 2 ^ i.canopy_depth)
          × (i.canopy_depth ≡ restore_canopy_depth_from_buffer (length i.canopy_buffer % 2 ^ 32))
          × (length i.canopy_buffer ≤ length bytes))
        info_eq (refl, refl, omega (arith, header_len, body_len))

  -- The depth that `from_bytes` finds for a canopy buffer in an account of less than 4 GiB.
  pub from_bytes_depth :
      (bytes : Bytes) (info : TreeDataInfo)
      → length bytes < 2 ^ 32
      → from_bytes x bytes ≡ ok info
      → (info.canopy_leaves_count ≡ 2 ^ info.canopy_depth)
        × (calc_canopy_size info.canopy_depth ≤ length info.canopy_buffer)
        × (length info.canopy_buffer < calc_canopy_size (suc info.canopy_depth))
  from_bytes_depth bytes info bound h =
      let (count, depth, short) = from_bytes_sound bytes h in
      let n : ℕ = length info.canopy_buffer in
      let fits = restore_canopy_depth_fits n (omega (arith, short)) in
      let same : n % 2 ^ 32 ≡ n = omega (arith, short) in
      let depth_eq = depth ∙ ap restore_canopy_depth_from_buffer same in
      (count, rw depth_eq fits.0, rw depth_eq fits.1)

  -- The canopy leaves of such an account can be read without a panic, if it has a canopy.
  pub non_empty_canopy_leaves_total :
      (bytes : Bytes) (info : TreeDataInfo)
      → length bytes < 2 ^ 32
      → from_bytes x bytes ≡ ok info
      → 0 < info.canopy_depth
      → Succeeds (non_empty_canopy_leaves x info)
  unfolding non_empty_canopy_leaves
  non_empty_canopy_leaves_total bytes info bound h pos =
      let (count, fits, tight) = from_bytes_depth bytes info bound h in
      let d : ℕ = info.canopy_depth in
      let n : ℕ = length info.canopy_buffer in
      let two = pow_mono 1 d (omega arith) in
      let closed = calc_canopy_size_closed d in
      let enough : 2 ^ d * 32 ≤ n = omega (arith, two, closed, fits) in
      let left = length-drop (n - 2 ^ d * 32) info.canopy_buffer in
      let (leaves, e) =
        read_leaves_total info.canopy_leaves_count (drop (n - 2 ^ d * 32) info.canopy_buffer)
          (omega (arith, enough, left, count)) in
      (leaves, rw (le→leb _ _ enough) e)
