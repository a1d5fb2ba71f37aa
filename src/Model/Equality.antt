-- ===== src/Model/Equality.antt =====
-- src/model.rs: `PartialEq` of batch mints and of their parts.
use bubblegum_batch_sdk.Base.{
  Bool, true, false, ◌&&◌, Option, none, some, List, [], ◌∷◌, length, ◌==◌,
}
use bubblegum_batch_sdk.Base.Bytes.{Bytes, bytes_eq}
use bubblegum_batch_sdk.Base.Maps.{HashMap, get}
use bubblegum_batch_sdk.Deps.{Deps, Metadata}
use bubblegum_batch_sdk.Deps.Data.{LeafSchema}
use bubblegum_batch_sdk.Model.{ChangeLogEventV1, BatchMintInstruction, BatchMint, path_eq}

-- `PartialEq` of the parts that other packages declare.
pub record PartEq (x : Deps) : Type 0 where
  pub leaf_schema_eq : LeafSchema → LeafSchema → Bool
  pub metadata_args_eq : Metadata x → Metadata x → Bool
  pub signature_eq : x.Signature → x.Signature → Bool

module _ {V : Type 0} (value_eq : V → V → Bool) where
  -- The value under the key in the other map is there and the same.
  unfoldable pub same_value : HashMap V → Bytes → V → Bool
  same_value other k v = elim (get k other) [ none ↦ false | some w ↦ value_eq v w ]

  unfoldable pub all_same : HashMap V → HashMap V → Bool
  unfolding same_value
  all_same [] other = true
  all_same ((k, v) ∷ m) other = same_value other k v && all_same m other

  -- `PartialEq` of `HashMap`: as many entries, and each value under the same key in the other.
  unfoldable pub hash_map_eq : HashMap V → HashMap V → Bool
  unfolding all_same
  hash_map_eq m other = length m == length other && all_same m other

-- `PartialEq` of `Option` and of `Vec`.
unfoldable pub option_eq : {V : Type 0} → (V → V → Bool) → Option V → Option V → Bool
option_eq value_eq none none = true
option_eq value_eq (some v) (some w) = value_eq v w
option_eq value_eq _ _ = false

unfoldable pub vec_eq : {V : Type 0} → (V → V → Bool) → List V → List V → Bool
vec_eq value_eq [] [] = true
vec_eq value_eq (v ∷ vs) (w ∷ ws) = value_eq v w && vec_eq value_eq vs ws
vec_eq value_eq _ _ = false

unfoldable pub change_log_event_eq : ChangeLogEventV1 → ChangeLogEventV1 → Bool
change_log_event_eq e other =
    bytes_eq e.id other.id
    && path_eq e.path other.path
    && e.seq == other.seq
    && e.index == other.index

module _ (x : Deps) (eq : PartEq x) where
  unfoldable pub instruction_eq : BatchMintInstruction x → BatchMintInstruction x → Bool
  unfolding change_log_event_eq option_eq hash_map_eq
  instruction_eq m other =
      change_log_event_eq m.tree_update other.tree_update
      && eq.leaf_schema_eq m.leaf_update other.leaf_update
      && eq.metadata_args_eq m.mint_args other.mint_args
      && bytes_eq m.authority other.authority
      && option_eq (hash_map_eq eq.signature_eq) m.creator_signature other.creator_signature

  -- It leaves out `raw_metadata_map`.
  unfoldable pub batch_mint_eq : BatchMint x → BatchMint x → Bool
  unfolding instruction_eq vec_eq
  batch_mint_eq bm other =
      bytes_eq bm.tree_id other.tree_id
      && vec_eq instruction_eq bm.batch_mints other.batch_mints
      && bm.max_depth == other.max_depth
      && bm.max_buffer_size == other.max_buffer_size
      && bytes_eq bm.merkle_root other.merkle_root
      && bytes_eq bm.last_leaf_hash other.last_leaf_hash
