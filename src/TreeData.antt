-- ===== src/TreeData.antt =====
-- src/tree_data_acc.rs: what is read back from the bytes of a tree account.
pub mod Reading
pub mod Layout
use bubblegum_batch_sdk.Base.{
  ℕ, zero, suc, ◌+◌, ◌-◌, ◌*◌, ◌%◌, ◌^◌, List, [], ◌∷◌, length, take, drop, leb, ◌==◌,
  if◌then◌else◌, Outcome, ok, err, panic, assert, ok_or, map_err, ◌>>=◌, ◌>>◌, Bool, true, false,
}
use bubblegum_batch_sdk.Base.Bytes.{Bytes, bytes_eq}
use bubblegum_batch_sdk.Deps.{Deps}
use bubblegum_batch_sdk.Errors.{
  BatchMintError, unable_to_parse_tree_err, unexpected_tree_size, canopy_coercion_err,
}
use bubblegum_batch_sdk.MerkleTree.{
  node_size, calc_merkle_tree_size, restore_canopy_depth_from_buffer,
}

pub record TreeDataInfo : Type 0 where
  pub max_depth : ℕ
  pub max_buffer_size : ℕ
  pub canopy_depth : ℕ
  pub canopy_leaves_count : ℕ
  pub canopy_buffer : Bytes

-- `split_at` panics past the end.
unfoldable pub split_at : {E : Type 0} → Bytes → ℕ → Outcome E (Bytes × Bytes)
split_at bytes n = do assert (leb n (length bytes)); ok (take n bytes, drop n bytes)

module _ (x : Deps) where
  unfoldable pub from_bytes : Bytes → Outcome (BatchMintError x) TreeDataInfo
  from_bytes bytes = do
    merkle_tree ← map_err unable_to_parse_tree_err (x.merkle_tree_from_bytes bytes)
    let max_depth = merkle_tree.max_depth
    let max_buffer_size = merkle_tree.max_buffer_size
    merkle_tree_size ←
        ok_or (calc_merkle_tree_size x max_depth max_buffer_size 0)
          (unexpected_tree_size max_depth max_buffer_size)
    header ← split_at bytes x.header_size
    body ← split_at header.1 merkle_tree_size
    let canopy_buffer = body.1
    let canopy_depth = restore_canopy_depth_from_buffer (length canopy_buffer % 2 ^ 32)
    ok (record {
      max_depth = max_depth;
      max_buffer_size = max_buffer_size;
      canopy_depth = canopy_depth;
      canopy_leaves_count = 2 ^ canopy_depth;
      canopy_buffer = canopy_buffer;
    })

  -- The loop over the `n` nodes that are left in the buffer. The access to a slice panics where the
  -- buffer is too short; a slice of 32 bytes is always a node.
  unfoldable pub read_leaves : ℕ → Bytes → Outcome (BatchMintError x) (List Bytes)
  read_leaves zero buffer = ok []
  read_leaves (suc n) buffer =
      let rest =
        read_leaves n (drop node_size buffer) >>= λ leaves. ok (take node_size buffer ∷ leaves) in
      do
        assert (leb node_size (length buffer))
        if bytes_eq (take node_size buffer) x.empty then ok [] else rest

  unfoldable pub non_empty_canopy_leaves : TreeDataInfo → Outcome (BatchMintError x) (List Bytes)
  non_empty_canopy_leaves info = do
    assert (leb (2 ^ info.canopy_depth * node_size) (length info.canopy_buffer))
    let leaves_start_position = length info.canopy_buffer - 2 ^ info.canopy_depth * node_size
    read_leaves info.canopy_leaves_count (drop leaves_start_position info.canopy_buffer)
