-- ===== src/Examples/Rerunning.antt =====
-- A tree account with a canopy of two leaves, and a builder whose canopy is written in two runs.
use bubblegum_batch_sdk.Base.{
  ℕ, ◌-◌, ◌*◌, ◌≤◌, ◌≡◌, refl, sym, ap, subst, arith, true, List, [], ◌∷◌, ◌++◌, length, take,
  replicate, All, leb, le→leb, length-append, take-append, drop-append, ok,
}
use bubblegum_batch_sdk.Base.Bytes.{Bytes}
use bubblegum_batch_sdk.Base.Pow.{ilog2}
use bubblegum_batch_sdk.Errors.{BatchMintError}
use bubblegum_batch_sdk.MerkleTree.{
  match_size, size_arms, calc_canopy_size, calc_merkle_tree_size, restore_canopy_depth_from_buffer,
}
use bubblegum_batch_sdk.TreeData.{TreeDataInfo, split_at, from_bytes}
use bubblegum_batch_sdk.TreeData.Reading.{IsStored, stored, length-stored}
use bubblegum_batch_sdk.Builder.State.{BatchMintBuilder}
use bubblegum_batch_sdk.Client.Rerun.{CanopyAccount, rerun_canopy, total, rerun_canopy_completes}
use bubblegum_batch_sdk.Examples.Reference.{reference}
use bubblegum_batch_sdk.Examples.Runs.{signed_builder}
use bubblegum_batch_sdk.Examples.Sending.{network}

split_at-append :
    (front back : Bytes)
    → split_at {E = BatchMintError reference} (front ++ back) (length front) ≡ ok (front, back)
unfolding split_at
split_at-append front back =
    let long : leb (length front) (length (front ++ back)) ≡ true =
      le→leb _ _ (omega (arith, length-append front back)) in
    rw (long, take-append front back, drop-append front back) refl

abbrev info_of : Bytes → TreeDataInfo
info_of buffer = record {
  max_depth = 3;
  max_buffer_size = 8;
  canopy_depth = 1;
  canopy_leaves_count = 2;
  canopy_buffer = buffer;
}

abbrev data_of : Bytes → Bytes
data_of buffer = 3 ∷ 8 ∷ 0 ∷ 0 ∷ 0 ∷ 0 ∷ buffer

from_bytes-data_of :
    (buffer : Bytes)
    → length buffer ≡ 64
    → from_bytes reference (data_of buffer) ≡ ok (info_of buffer)
unfolding from_bytes calc_merkle_tree_size match_size size_arms restore_canopy_depth_from_buffer
    calc_canopy_size ilog2
from_bytes-data_of buffer size =
    rw
      (
        split_at-append (3 ∷ 8 ∷ []) (0 ∷ 0 ∷ 0 ∷ 0 ∷ buffer),
        split_at-append (0 ∷ 0 ∷ 0 ∷ 0 ∷ []) buffer,
        size,
      )
      refl

-- The nodes that were added.
abbrev Added : List Bytes → List Bytes → Type 0
Added a nodes = (a ≡ nodes) × All (IsStored reference) nodes × (length nodes ≤ 2)

no_nodes : Added [] []
no_nodes = (refl, tt, omega arith)

added_layout :
    (nodes : List Bytes)
    → All (IsStored reference) nodes
    → length nodes ≤ 2
    → from_bytes reference (data_of (stored reference nodes (2 - length nodes)))
      ≡ ok (info_of (stored reference nodes (2 - length nodes)))
added_layout nodes all fits =
    let size = length-stored reference nodes (2 - length nodes) refl all in
    from_bytes-data_of (stored reference nodes (2 - length nodes)) (omega (arith, size, fits))

abbrev two_leaves : CanopyAccount reference
two_leaves = record {
  Account = List Bytes;
  bytes = λ a. data_of (stored reference a (2 - length a));
  apply = λ i a. a ++ i.canopy_nodes;
  capacity = 2;
  Holds = Added;
  layout = λ a nodes (same, all, fits). (
    info_of (stored reference a (2 - length a)),
    [],
    2 - length nodes,
    subst
        (λ n.
          from_bytes reference (data_of (stored reference n (2 - length n)))
          ≡ ok (info_of (stored reference n (2 - length n))))
        (sym same) (added_layout nodes all fits),
    omega arith,
    omega (arith, fits),
    ap (λ n. stored reference n (2 - length n)) same,
  );
  writes = λ a nodes i holds start all fits. (ap (λ n. n ++ i.canopy_nodes) holds.0, all, fits);
}

abbrev node : ℕ → Bytes
node n = n ∷ replicate 31 0

abbrev two_nodes : List Bytes
two_nodes = node 1 ∷ node 2 ∷ []

two_nodes-IsStored : All (IsStored reference) two_nodes
two_nodes-IsStored = ((refl, λ e. cc), ((refl, λ e. cc), tt))

abbrev builder : BatchMintBuilder reference
builder = record signed_builder { canopy_leaves = two_nodes }

-- In the first run no transaction is confirmed.
rerun_canopy_completes_example :
    (a' : List Bytes) × (rerun_canopy reference network two_leaves builder (0 ∷ 1 ∷ []) [] ≡ ok a')
    × Added a' (take (24 * total (0 ∷ 1 ∷ [])) two_nodes)
    × (length two_nodes ≤ 24 * total (0 ∷ 1 ∷ []) → Added a' two_nodes)
rerun_canopy_completes_example =
    rerun_canopy_completes reference network two_leaves builder (0 ∷ 1 ∷ []) [] refl
      two_nodes-IsStored (omega arith) (omega arith) no_nodes
