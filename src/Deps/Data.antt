-- ===== src/Deps/Data.antt =====
-- Data of other packages, with the fields that the code names, and the traits `ITree` and
-- `IChangeLog` of merkle_tree_wrapper.rs, through which it uses the concurrent merkle tree.
use Prim.Native.String.{String}
use bubblegum_batch_sdk.Base.{ℕ, Bool, Option, List, Outcome, length}
use bubblegum_batch_sdk.Base.Bytes.{Bytes}

pub record Creator : Type 0 where
  pub address : Bytes
  pub verified : Bool
  pub share : ℕ

pub record Collection : Type 0 where
  pub verified : Bool
  pub key : Bytes

pub record MetadataArgs (TokenStandard Uses TokenProgramVersion : Type 0) : Type 0 where
  pub name : String
  pub symbol : String
  pub uri : String
  pub seller_fee_basis_points : ℕ
  pub primary_sale_happened : Bool
  pub is_mutable : Bool
  pub edition_nonce : Option ℕ
  pub token_standard : Option TokenStandard
  pub collection : Option Collection
  pub uses : Option Uses
  pub token_program_version : TokenProgramVersion
  pub creators : List Creator

-- The one variant, `LeafSchema::V1`.
pub record LeafSchema : Type 0 where
  pub id : Bytes
  pub owner : Bytes
  pub delegate : Bytes
  pub nonce : ℕ
  pub data_hash : Bytes
  pub creator_hash : Bytes

-- `IChangeLog` reads these fields, and the length of the path.
pub record ChangeLog : Type 0 where
  pub index : ℕ
  pub root : Bytes
  pub path : List Bytes

abbrev pub path_len : ChangeLog → ℕ
path_len c = length c.path

-- A call that fails leaves a tree that neither caller looks at again, so only a successful one
-- returns the changed tree. `change_logs` is an array access, and has no element out of range.
pub record ITree (Tree TreeError : Type 0) : Type 0 where
  pub initialize : Tree → Outcome TreeError (Bytes × Tree)
  pub append : Tree → Bytes → Outcome TreeError (Bytes × Tree)
  pub active_index : Tree → ℕ
  pub change_logs : Tree → ℕ → Option ChangeLog
  pub sequence_number : Tree → ℕ
  pub get_root : Tree → Bytes
  pub get_rightmost_proof : Tree → List Bytes

-- What `MerkleTree::from_bytes` finds in the data of a tree account.
pub record MerkleTree : Type 0 where
  pub max_depth : ℕ
  pub max_buffer_size : ℕ
  pub serialized_tree : Bytes
