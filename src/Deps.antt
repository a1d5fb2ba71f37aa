-- ===== src/Deps.antt =====
-- What the sdk takes from other packages (mpl_bubblegum, spl_account_compression,
-- spl_concurrent_merkle_tree, solana_sdk, borsh): data whose fields the code of src/ reads or builds,
-- and one record of the operations that it calls.
pub mod Data
pub mod Merkle
pub mod Laws
use Prim.Native.String.{String}
use bubblegum_batch_sdk.Base.{ℕ, Bool, List, Outcome}
use bubblegum_batch_sdk.Base.Bytes.{Bytes}
use Data.{Creator, Collection, MetadataArgs, LeafSchema, ITree, ChangeLog, MerkleTree}

pub record Deps : Type 1 where
  -- Types whose values the sdk only passes on.
  pub TokenStandard : Type 0
  pub Uses : Type 0
  pub TokenProgramVersion : Type 0
  pub Signature : Type 0
  pub Keypair : Type 0
  pub RawValue : Type 0
  pub ClientError : Type 0
  pub IoError : Type 0
  pub ParsePubkeyError : Type 0
  pub NestedError : Type 0
  pub TreeError : Type 0
  -- `ConcurrentMerkleTree<D, B>`, for all sizes together
  pub Tree : Type 0
  -- `ConcurrentMerkleTree::<D, B>::new` and `size_of::<ConcurrentMerkleTree<D, B>>`
  pub new_tree : ℕ → ℕ → Tree
  pub tree_size : ℕ → ℕ → ℕ
  pub merkle : ITree Tree TreeError
  -- `CONCURRENT_MERKLE_TREE_HEADER_SIZE_V1`, `MAX_ACC_PROOFS_SIZE` and `EMPTY`
  pub header_size : ℕ
  pub max_acc_proofs_size : ℕ
  pub empty : Bytes
  -- `keccak::hashv`, `MetadataArgs::try_to_vec`, `get_asset_id`, `LeafSchema::hash`
  pub hashv : List Bytes → Bytes
  pub try_to_vec : MetadataArgs TokenStandard Uses TokenProgramVersion → Outcome IoError Bytes
  pub get_asset_id : Bytes → ℕ → Bytes
  pub leaf_hash : LeafSchema → Bytes
  -- `Signature::verify` (the signature, the key, the message) and `Signer::pubkey`
  pub verify : Signature → Bytes → Bytes → Bool
  pub pubkey : Keypair → Bytes
  -- `MerkleTree::from_bytes`
  pub merkle_tree_from_bytes : Bytes → Outcome IoError MerkleTree
  -- `to_string` of keys, hashes and foreign errors
  pub key_to_string : Bytes → String
  pub hash_to_string : Bytes → String
  pub client_error_to_string : ClientError → String
  pub io_error_to_string : IoError → String
  pub parse_pubkey_error_to_string : ParsePubkeyError → String
  pub nested_error_to_string : NestedError → String
  pub tree_error_to_string : TreeError → String

abbrev pub Metadata : Deps → Type 0
Metadata x = MetadataArgs x.TokenStandard x.Uses x.TokenProgramVersion
