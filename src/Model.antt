-- ===== src/Model.antt =====
-- src/model.rs: the batch mint as it is stored and validated, and the conversions of its parts.
pub mod Conversions
pub mod Equality
pub mod SameMaps
pub mod Instruction
use Prim.Native.String.{String}
use bubblegum_batch_sdk.Base.{ℕ, Option, List, [], ◌∷◌, map, Bool, true, false, ◌&&◌, ◌==◌}
use bubblegum_batch_sdk.Base.Bytes.{Bytes, bytes_eq}
use bubblegum_batch_sdk.Base.Maps.{HashMap}
use bubblegum_batch_sdk.Deps.{Deps, Metadata}
use bubblegum_batch_sdk.Deps.Data.{LeafSchema}

pub record PathNode : Type 0 where
  pub node : Bytes
  pub index : ℕ

-- `spl_account_compression::state::PathNode`, with the fields that the conversions name
pub record SplPathNode : Type 0 where
  pub node : Bytes
  pub index : ℕ

pub record ChangeLogEventV1 : Type 0 where
  pub id : Bytes
  pub path : List PathNode
  pub seq : ℕ
  pub index : ℕ

-- `blockbuster::programs::bubblegum::ChangeLogEventV1`, with the fields that the conversions name
pub record BlockbusterChangeLogEventV1 : Type 0 where
  pub id : Bytes
  pub path : List SplPathNode
  pub seq : ℕ
  pub index : ℕ

unfoldable pub from_spl : SplPathNode → PathNode
from_spl value = record { node = value.node; index = value.index }

unfoldable pub to_spl : PathNode → SplPathNode
to_spl value = record { node = value.node; index = value.index }

unfoldable pub to_blockbuster : ChangeLogEventV1 → BlockbusterChangeLogEventV1
to_blockbuster value = record {
  id = value.id;
  path = map to_spl value.path;
  seq = value.seq;
  index = value.index;
}

unfoldable pub from_blockbuster : BlockbusterChangeLogEventV1 → ChangeLogEventV1
from_blockbuster value = record {
  id = value.id;
  path = map from_spl value.path;
  seq = value.seq;
  index = value.index;
}

pub record CollectionConfig (x : Deps) : Type 0 where
  pub collection_authority : x.Keypair
  pub collection_authority_record_pda : Option Bytes
  pub collection_mint : Bytes
  pub collection_metadata : Bytes
  pub edition_account : Bytes

pub record BatchMintInstruction (x : Deps) : Type 0 where
  pub tree_update : ChangeLogEventV1
  pub leaf_update : LeafSchema
  pub mint_args : Metadata x
  pub authority : Bytes
  pub creator_signature : Option (HashMap x.Signature)

pub record BatchMint (x : Deps) : Type 0 where
  pub tree_id : Bytes
  pub batch_mints : List (BatchMintInstruction x)
  pub raw_metadata_map : List (String × x.RawValue)
  pub max_depth : ℕ
  pub max_buffer_size : ℕ
  pub merkle_root : Bytes
  pub last_leaf_hash : Bytes

-- The derived `PartialEq` of path nodes, and of paths.
unfoldable pub path_eq : List PathNode → List PathNode → Bool
path_eq [] [] = true
path_eq (a ∷ as') (b ∷ bs) = bytes_eq a.node b.node && a.index == b.index && path_eq as' bs
path_eq _ _ = false
