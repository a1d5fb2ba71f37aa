-- ===== src/Client/Canopy.antt =====
-- src/batch_mint_client.rs: `calc_canopy_to_add`, and the instructions that write the canopy.
use bubblegum_batch_sdk.Base.{
  ℕ, zero, suc, ◌+◌, ◌*◌, ◌%◌, ◌^◌, Bool, true, ◌&&◌, List, [], ◌∷◌, length, take, drop, leb,
  if◌then◌else◌, Outcome, ok, assert, ◌>>=◌, ◌>>◌,
}
use bubblegum_batch_sdk.Base.Bytes.{Bytes, bytes_eq}
use bubblegum_batch_sdk.Deps.{Deps}
use bubblegum_batch_sdk.Errors.{BatchMintError}
use bubblegum_batch_sdk.TreeData.{TreeDataInfo, non_empty_canopy_leaves}
use bubblegum_batch_sdk.Builder.State.{BatchMintBuilder}

-- The comparison of the zipped lists.
unfoldable pub same_nodes : List Bytes → List Bytes → Bool
same_nodes (a ∷ as') (b ∷ bs) = bytes_eq a b && same_nodes as' bs
same_nodes [] _ = true
same_nodes (a ∷ as') [] = true

abbrev pub canopy_nodes_per_tx : ℕ
canopy_nodes_per_tx = 24

-- `chunks(n)` on fuel: the length of the list is enough.
unfoldable pub chunks : {A : Type 0} → ℕ → ℕ → List A → List (List A)
chunks zero n xs = []
chunks (suc f) n [] = []
chunks (suc f) n (y ∷ ys) = take n (y ∷ ys) ∷ chunks f n (drop n (y ∷ ys))

-- The fields that `AddCanopyBuilder` is given for each chunk, apart from the accounts.
pub record AddCanopy : Type 0 where
  pub canopy_nodes : List Bytes
  pub start_index : ℕ

unfoldable pub add_canopy_from : ℕ → ℕ → List (List Bytes) → List AddCanopy
add_canopy_from offset ind [] = []
add_canopy_from offset ind (chunk ∷ rest) =
    record { canopy_nodes = chunk; start_index = (offset + ind * canopy_nodes_per_tx) % 2 ^ 32 }
    ∷ add_canopy_from offset (suc ind) rest

unfoldable pub add_canopy_instructions : List Bytes → ℕ → List AddCanopy
unfolding add_canopy_from chunks
add_canopy_instructions canopy_to_add canopy_offset =
    add_canopy_from canopy_offset 0
      (chunks (length canopy_to_add) canopy_nodes_per_tx canopy_to_add)

-- What `calc_canopy_to_add` decides from the canopy that is already stored.
unfoldable pub skip_existing : {E : Type 0} → List Bytes → List Bytes → Outcome E (List Bytes × ℕ)
unfolding same_nodes
skip_existing canopy_leaves existing_canopy = do
  assert (leb (length existing_canopy) (length canopy_leaves))
  let canopy_to_skip = take (length existing_canopy) canopy_leaves
  let canopy_to_add = drop (length existing_canopy) canopy_leaves
  ok (
      if same_nodes existing_canopy canopy_to_skip
      then (canopy_to_add, length canopy_to_skip)
      else (canopy_leaves, 0))

module _ (x : Deps) where
  unfoldable pub calc_canopy_to_add :
      TreeDataInfo → BatchMintBuilder x → Outcome (BatchMintError x) (List Bytes × ℕ)
  calc_canopy_to_add tree_data_info b = do
    existing_canopy ← non_empty_canopy_leaves x tree_data_info
    skip_existing b.canopy_leaves existing_canopy
