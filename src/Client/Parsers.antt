-- ===== src/Client/Parsers.antt =====
-- The two readers of a tree account, `parse_tree_size` of src/batch_mint_client.rs and
-- `TreeDataInfo::from_bytes` of src/tree_data_acc.rs, compared.
use bubblegum_batch_sdk.Base.{
  ◌-◌, ◌%◌, ◌^◌, ◌≤◌, ◌≡◌, sym, ap, ◌∙◌, length, drop, length-drop, leb, le→leb, Outcome, ok,
  assert, ok_or, ◌>>=◌, ◌>>◌, Option-cases, Outcome-cases, inl, inr, Bool-cases,
}
use bubblegum_batch_sdk.Base.Bytes.{Bytes}
use bubblegum_batch_sdk.Deps.{Deps}
use bubblegum_batch_sdk.Deps.Data.{MerkleTree}
use bubblegum_batch_sdk.Errors.{BatchMintError, unexpected_tree_size}
use bubblegum_batch_sdk.MerkleTree.{calc_merkle_tree_size, restore_canopy_depth_from_buffer}
use bubblegum_batch_sdk.TreeData.{TreeDataInfo, split_at, from_bytes}
use bubblegum_batch_sdk.Client.Tree.{TreeSize, parse_tree_size}

-- The three sizes of the tree data.
abbrev pub size_of : TreeDataInfo → TreeSize
size_of info = record {
  max_depth = info.max_depth;
  max_buffer_size = info.max_buffer_size;
  canopy_depth = info.canopy_depth;
}

module _ (x : Deps) where
  -- `MerkleTree::from_bytes` splits the header off: what it returns as the tree is the rest.
  abbrev pub SplitsHeader : Bytes → Type 0
  SplitsHeader bytes =
      (t : MerkleTree)
      → x.merkle_tree_from_bytes bytes ≡ ok t
      → (x.header_size ≤ length bytes) × (t.serialized_tree ≡ drop x.header_size bytes)

  parsed : MerkleTree → Bytes → Outcome (BatchMintError x) TreeSize
  parsed t tree = do
    merkle_tree_size ←
        ok_or (calc_merkle_tree_size x t.max_depth t.max_buffer_size 0)
          (unexpected_tree_size t.max_depth t.max_buffer_size)
    assert (leb merkle_tree_size (length tree))
    ok (record {
      max_depth = t.max_depth;
      max_buffer_size = t.max_buffer_size;
      canopy_depth = restore_canopy_depth_from_buffer ((length tree - merkle_tree_size) % 2 ^ 32);
    })

  parse_tree_size-parsed :
      (bytes : Bytes) (t : MerkleTree)
      → x.merkle_tree_from_bytes bytes ≡ ok t
      → parse_tree_size x bytes ≡ parsed t t.serialized_tree
  unfolding parse_tree_size parsed
  parse_tree_size-parsed bytes t e = rw e

  from_bytes-parsed :
      (bytes : Bytes) (t : MerkleTree)
      → x.merkle_tree_from_bytes bytes ≡ ok t
      → x.header_size ≤ length bytes
      → (from_bytes x bytes >>= λ info. ok (size_of info)) ≡ parsed t (drop x.header_size bytes)
  unfolding from_bytes parsed split_at
  from_bytes-parsed bytes t e le =
      elim (Option-cases (calc_merkle_tree_size x t.max_depth t.max_buffer_size 0)) [
        | inl unknown ↦ rw (e, unknown)
        | inr (n, known) ↦ elim (Bool-cases (leb n (length (drop x.header_size bytes)))) [
          | inl fits ↦ rw (e, known, le→leb _ _ le, fits, length-drop n (drop x.header_size bytes))
          | inr short ↦ rw (e, known, le→leb _ _ le, short)
        ]
      ]

  -- On every account, failures and panics included, `parse_tree_size` returns the sizes that
  -- `from_bytes` does, if what `MerkleTree::from_bytes` returns as the tree is the account without
  -- its header.
  pub parse_tree_size-from_bytes :
      (bytes : Bytes)
      → SplitsHeader bytes
      → parse_tree_size x bytes ≡ (from_bytes x bytes >>= λ info. ok (size_of info))
  unfolding parse_tree_size from_bytes
  parse_tree_size-from_bytes bytes splits = elim (Outcome-cases (x.merkle_tree_from_bytes bytes)) [
    | inl (t, e) ↦
        parse_tree_size-parsed bytes t e
        ∙ ap (parsed t) (splits t e).1
        ∙ sym (from_bytes-parsed bytes t e (splits t e).0)
    | inr (inl (failure, e)) ↦ rw e
    | inr (inr e) ↦ rw e
  ]
