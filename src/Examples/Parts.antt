-- ===== src/Examples/Parts.antt =====
-- The theorems on the sizes, the messages, the tree account and the canopy at concrete inputs.
use bubblegum_batch_sdk.Base.{
  ℕ, suc, ◌+◌, ◌*◌, ◌<◌, ◌≤◌, ◌^◌, ◌≡◌, ◌≢◌, refl, some, none, List, [], ◌∷◌, ◌++◌, length,
  replicate, arith, ok, panic, Succeeds, if◌then◌else◌, ◌↔◌, true,
}
use bubblegum_batch_sdk.Base.Bytes.{Bytes, bytes_eq}
use bubblegum_batch_sdk.Base.Pow.{ilog2}
use bubblegum_batch_sdk.Deps.Data.{ChangeLog, MerkleTree}
use bubblegum_batch_sdk.Builder.Hashing.{MetadataArgsHash, get_message, get_nonce_from_message}
use bubblegum_batch_sdk.Builder.Messages.{get_nonce_from_message-get_message, get_message_injective}
use bubblegum_batch_sdk.Builder.Changelog.{make_changelog_path}
use bubblegum_batch_sdk.Builder.Numbering.{Ascends, make_changelog_path-Ascends}
use bubblegum_batch_sdk.Builder.State.{BatchMintBuilder}
use bubblegum_batch_sdk.MerkleTree.{
  match_size, tree_impls, tree_creators, changelog_impls, size_arms, creator_arms,
  make_concurrent_merkle_tree, calc_canopy_size, calc_merkle_tree_size,
  restore_canopy_depth_from_buffer,
}
use bubblegum_batch_sdk.MerkleTree.Sizes.{
  contains_size, is_supported, make_concurrent_merkle_tree_bounds,
}
use bubblegum_batch_sdk.MerkleTree.Tables.{contains_depth, make_concurrent_merkle_tree_typed}
use bubblegum_batch_sdk.MerkleTree.Canopy.{
  canopy_nodes, calc_merkle_tree_size-canopy_nodes, restore_canopy_depth_fits,
  restore_canopy_depth-calc_canopy_size,
}
use bubblegum_batch_sdk.TreeData.{
  TreeDataInfo, split_at, from_bytes, read_leaves, non_empty_canopy_leaves,
}
use bubblegum_batch_sdk.TreeData.Reading.{
  stored, non_empty_canopy_leaves-stored, non_empty_canopy_leaves_total,
}
use bubblegum_batch_sdk.TreeData.Layout.{from_bytes_lem}
use bubblegum_batch_sdk.Client.Canopy.{calc_canopy_to_add, add_canopy_instructions}
use bubblegum_batch_sdk.Client.CanopyWrites.{
  Completes, IsContiguous, all_nodes, calc_canopy_to_add-Completes, add_canopy_instructions_lem,
}
use bubblegum_batch_sdk.Examples.Reference.{reference}

restore_canopy_depth_fits_example :
    (calc_canopy_size (restore_canopy_depth_from_buffer 1000) ≤ 1000)
    × (1000 < calc_canopy_size (suc (restore_canopy_depth_from_buffer 1000)))
restore_canopy_depth_fits_example = restore_canopy_depth_fits 1000 (omega arith)

restore_canopy_depth-calc_canopy_size_example :
    restore_canopy_depth_from_buffer (calc_canopy_size 10) ≡ 10
restore_canopy_depth-calc_canopy_size_example =
    restore_canopy_depth-calc_canopy_size 10 (omega arith)

calc_merkle_tree_size-canopy_nodes_example :
    (calc_merkle_tree_size reference 14 64 8 ≡ (
      if is_supported 14 64 then some (reference.tree_size 14 64 + 32 * canopy_nodes 8) else none))
    × (reference.tree_size 14 64 + 32 * canopy_nodes 8 < 2 ^ 64)
calc_merkle_tree_size-canopy_nodes_example =
    calc_merkle_tree_size-canopy_nodes reference 14 64 8 (omega arith) (omega arith)

make_concurrent_merkle_tree_typed_example :
    ((s : ℕ)
      → Succeeds (make_concurrent_merkle_tree reference 14 s) ↔ (
          (contains_size 14 s tree_creators ≡ true)
          × (contains_size 14 s tree_impls ≡ true)
          × (contains_depth 14 changelog_impls ≡ true)))
    × (contains_depth 14 changelog_impls ≡ true
        → (s : ℕ) × Succeeds (make_concurrent_merkle_tree reference 14 s))
make_concurrent_merkle_tree_typed_example = make_concurrent_merkle_tree_typed reference 14

tree_made : make_concurrent_merkle_tree reference 14 64 ≡ ok (14, [])
unfolding make_concurrent_merkle_tree match_size creator_arms tree_impls
tree_made = refl

make_concurrent_merkle_tree_bounds_example :
    ((14, []) ≡ reference.new_tree 14 64) × (3 ≤ 14) × (14 ≤ 30) × (64 ≡ 2 ^ ilog2 64)
make_concurrent_merkle_tree_bounds_example =
    make_concurrent_merkle_tree_bounds reference 14 64 {t = (14, [])} tree_made

abbrev hash : MetadataArgsHash
hash = record {
  id = 1 ∷ [];
  nonce = 300;
  data_hash = [];
  creator_hash = [];
  hashed_leaf = 4 ∷ 5 ∷ [];
}

abbrev hash' : MetadataArgsHash
hash' = record hash { id = 2 ∷ [] }

get_nonce_from_message-get_message_example : get_nonce_from_message (get_message hash) ≡ 300
get_nonce_from_message-get_message_example = get_nonce_from_message-get_message hash (omega arith)

same_message : get_message hash ≡ get_message hash'
unfolding get_message
same_message = refl

get_message_injective_example : (hash.nonce ≡ hash'.nonce) × (hash.hashed_leaf ≡ hash'.hashed_leaf)
get_message_injective_example =
    get_message_injective hash hash' (omega arith) (omega arith) same_message

abbrev log : ChangeLog
log = record { index = 5; root = 0 ∷ []; path = (1 ∷ []) ∷ (2 ∷ []) ∷ (3 ∷ []) ∷ [] }

make_changelog_path-Ascends_example :
    Ascends (2 ^ length log.path + log.index) (make_changelog_path log)
make_changelog_path-Ascends_example = make_changelog_path-Ascends log (omega arith) (omega arith)

abbrev node : Bytes
node = replicate 32 1

-- The header, the four bytes of the tree, and a canopy of depth 1 whose first node is set.
abbrev account : Bytes
account = 3 ∷ 8 ∷ 0 ∷ 0 ∷ 0 ∷ 0 ∷ node ++ replicate 32 0

abbrev info : TreeDataInfo
info = record {
  max_depth = 3;
  max_buffer_size = 8;
  canopy_depth = 1;
  canopy_leaves_count = 2;
  canopy_buffer = node ++ replicate 32 0;
}

account-info : from_bytes reference account ≡ ok info
unfolding from_bytes split_at calc_merkle_tree_size match_size size_arms tree_impls
    restore_canopy_depth_from_buffer calc_canopy_size ilog2
account-info = refl

from_bytes_lem_example :
    (t : MerkleTree) × (front : Bytes) × (reference.merkle_tree_from_bytes account ≡ ok t)
    × (info.max_depth ≡ t.max_depth)
    × (info.max_buffer_size ≡ t.max_buffer_size)
    × (is_supported t.max_depth t.max_buffer_size ≡ true)
    × (account ≡ front ++ info.canopy_buffer)
    × (length front ≡ reference.header_size + reference.tree_size t.max_depth t.max_buffer_size)
    × (info.canopy_leaves_count ≡ 2 ^ info.canopy_depth)
    × (32 * canopy_nodes info.canopy_depth ≤ length info.canopy_buffer)
    × (length info.canopy_buffer < 32 * canopy_nodes (suc info.canopy_depth))
from_bytes_lem_example = from_bytes_lem reference account info (omega arith) account-info

non_empty_canopy_leaves_total_example : Succeeds (non_empty_canopy_leaves reference info)
non_empty_canopy_leaves_total_example =
    non_empty_canopy_leaves_total reference account info (omega arith) account-info (omega arith)

node_nonempty : node ≢ reference.empty
node_nonempty e = cc

buffer_eq : info.canopy_buffer ≡ [] ++ stored reference (node ∷ []) 1
unfolding stored
buffer_eq = refl

non_empty_canopy_leaves-stored_example : non_empty_canopy_leaves reference info ≡ ok (node ∷ [])
non_empty_canopy_leaves-stored_example =
    non_empty_canopy_leaves-stored reference info [] (node ∷ []) 1 refl ((refl, node_nonempty), tt)
      refl refl buffer_eq

leaves_read : non_empty_canopy_leaves reference info ≡ ok (node ∷ [])
unfolding non_empty_canopy_leaves read_leaves bytes_eq
leaves_read = refl

abbrev builder : BatchMintBuilder reference
builder = record {
  tree_account = 7 ∷ [];
  max_depth = 3;
  max_buffer_size = 8;
  canopy_depth = 1;
  merkle = (3, []);
  mints = [];
  last_leaf_hash = [];
  canopy_leaves = node ∷ replicate 32 2 ∷ [];
  collection_config = none;
}

calc_canopy_to_add-Completes_example :
    (length (node ∷ []) ≤ length builder.canopy_leaves
      → (r : List Bytes × ℕ) × (calc_canopy_to_add reference info builder ≡ ok r)
        × Completes builder.canopy_leaves (node ∷ []) r)
    × (length builder.canopy_leaves < length (node ∷ [])
        → calc_canopy_to_add reference info builder ≡ panic)
calc_canopy_to_add-Completes_example =
    calc_canopy_to_add-Completes reference info builder (node ∷ []) leaves_read

add_canopy_instructions_lem_example :
    IsContiguous 3 (add_canopy_instructions (replicate 50 node) 3)
    × (all_nodes (add_canopy_instructions (replicate 50 node) 3) ≡ replicate 50 node)
add_canopy_instructions_lem_example =
    add_canopy_instructions_lem (replicate 50 node) 3 (omega arith)
