-- ===== src/Errors.antt =====
-- src/errors.rs, and `BatchMintValidationError` of src/batch_mint_validations.rs: the error values,
-- their messages, and the conversions that `?` makes.
use Prim.Native.String.{String, ◌++◌}
use bubblegum_batch_sdk.Base.{ℕ}
use bubblegum_batch_sdk.Base.Text.{show_ℕ}
use bubblegum_batch_sdk.Deps.{Deps}

pub data BatchMintError (x : Deps) : Type 0 where
  solana_client_err : x.ClientError → BatchMintError x
  unable_to_parse_tree_err : x.IoError → BatchMintError x
  unexpected_tree_size : ℕ → ℕ → BatchMintError x
  illegal_argumets : String → BatchMintError x
  io_error : x.IoError → BatchMintError x
  invalid_pub_key : x.ParsePubkeyError → BatchMintError x
  genric_err : String → BatchMintError x
  nested_err : x.NestedError → BatchMintError x
  invalid_creators_signature : String → BatchMintError x
  missing_batch_mint : ℕ → BatchMintError x
  extra_creators_received : BatchMintError x
  missed_signatures_for_asset : String → BatchMintError x
  missed_signature_from_creator : String → BatchMintError x
  cannot_add_signature_for_unverified_creator : String → BatchMintError x
  canopy_coercion_err : BatchMintError x
  missing_collection_signature : String → BatchMintError x

pub data BatchMintValidationError (x : Deps) : Type 0 where
  pda_check_fail : String → String → BatchMintValidationError x
  invalid_data_hash : String → String → BatchMintValidationError x
  invalid_creators_hash : String → String → BatchMintValidationError x
  invalid_root : String → String → BatchMintValidationError x
  no_relevant_rolled_mint : ℕ → BatchMintValidationError x
  wrong_asset_path : String → BatchMintValidationError x
  std_io : String → BatchMintValidationError x
  wrong_tree_id_for_change_log : String → String → String → BatchMintValidationError x
  wrong_change_log_index : String → ℕ → ℕ → BatchMintValidationError x
  spl_compression : x.TreeError → BatchMintValidationError x
  validation_tree_size : ℕ → ℕ → BatchMintValidationError x
  batch_mint : String → BatchMintValidationError x
  failed_creator_verification : String → BatchMintValidationError x
  missing_creator_signature : String → BatchMintValidationError x
  wrong_collection_verified : String → BatchMintValidationError x
  verified_collection_mismatch : String → String → BatchMintValidationError x

-- The `#[error("…")]` formats of `BatchMintError`.
unfoldable pub batch_mint_error_to_string : {x : Deps} → BatchMintError x → String
batch_mint_error_to_string {x} (solana_client_err e) =
    "Solana client error: " ++ x.client_error_to_string e
batch_mint_error_to_string {x} (unable_to_parse_tree_err e) =
    "Merkle tree bytes parsing error: " ++ x.io_error_to_string e
batch_mint_error_to_string (unexpected_tree_size d s) =
    "Unexpected tree depth=" ++ (show_ℕ d ++ (" and max size=" ++ show_ℕ s))
batch_mint_error_to_string (illegal_argumets s) = "Illegal arguments: " ++ s
batch_mint_error_to_string {x} (io_error e) = "I/O error: " ++ x.io_error_to_string e
batch_mint_error_to_string {x} (invalid_pub_key e) =
    "Cannot parse pubkey: " ++ x.parse_pubkey_error_to_string e
batch_mint_error_to_string (genric_err s) = "Generic error: " ++ s
batch_mint_error_to_string {x} (nested_err e) = "Nester error: " ++ x.nested_error_to_string e
batch_mint_error_to_string (invalid_creators_signature s) =
    "Failed signature verification for creator: " ++ s
batch_mint_error_to_string (missing_batch_mint n) = "Missing batch mint with ID: " ++ show_ℕ n
batch_mint_error_to_string extra_creators_received = "Extra creators were passed for verification"
batch_mint_error_to_string (missed_signatures_for_asset s) = "Missed signatures for asset: " ++ s
batch_mint_error_to_string (missed_signature_from_creator s) =
    "Missed signature from creator: " ++ s
batch_mint_error_to_string (cannot_add_signature_for_unverified_creator s) =
    "Cannot add signature for unverified creator: " ++ s
batch_mint_error_to_string canopy_coercion_err =
    "Cannot parse canopy leaf nodes from tree data account"
batch_mint_error_to_string (missing_collection_signature s) = "Missing collection signature: " ++ s

-- The `#[error("…")]` formats of `BatchMintValidationError`, each placeholder as it is written.
unfoldable pub validation_error_to_string : {x : Deps} → BatchMintValidationError x → String
validation_error_to_string (pda_check_fail a b) =
    "PDACheckFail: expected: " ++ (a ++ (", got: " ++ b))
validation_error_to_string (invalid_data_hash a b) =
    "InvalidDataHash: expected: " ++ (a ++ (", got: " ++ b))
validation_error_to_string (invalid_creators_hash a b) =
    "InvalidCreatorsHash: expected: " ++ (a ++ (", got: " ++ b))
validation_error_to_string (invalid_root a b) = "InvalidRoot: expected: " ++ (a ++ (", got: " ++ b))
validation_error_to_string (no_relevant_rolled_mint i) = "NoRelevantRolledMint: index " ++ show_ℕ i
validation_error_to_string (wrong_asset_path a) = "WrongAssetPath: id " ++ a
validation_error_to_string (std_io a) = "StdIo " ++ a
validation_error_to_string (wrong_tree_id_for_change_log a b c) =
    "WrongTreeIdForChangeLog: asset: " ++ (a ++ (", expected: " ++ (b ++ (", got: " ++ c))))
validation_error_to_string (wrong_change_log_index a b c) =
    "WrongChangeLogIndex: asset: " ++ (a ++ (", expected: " ++ (a ++ (", got: " ++ show_ℕ b))))
validation_error_to_string {x} (spl_compression e) = "SplCompression: " ++ x.tree_error_to_string e
validation_error_to_string (validation_tree_size d s) =
    "Unexpected tree depth=" ++ (show_ℕ d ++ (" and max size=" ++ show_ℕ s))
validation_error_to_string (batch_mint s) = "BatchMintError: " ++ s
validation_error_to_string (failed_creator_verification s) =
    "Failed creator's signature verification: " ++ s
validation_error_to_string (missing_creator_signature s) =
    "Missing creator's signature in batch mint: " ++ s
validation_error_to_string (wrong_collection_verified s) = "WrongCollectionVerified: " ++ s
validation_error_to_string (verified_collection_mismatch a b) =
    "VerifiedCollectionMismatch: expected :" ++ (a ++ (", got :" ++ b))

-- `From<std::io::Error>` and `From<BatchMintError>`
unfoldable pub from_io : {x : Deps} → x.IoError → BatchMintValidationError x
from_io {x} e = std_io (x.io_error_to_string e)

unfoldable pub from_batch_mint_error : {x : Deps} → BatchMintError x → BatchMintValidationError x
unfolding batch_mint_error_to_string
from_batch_mint_error e = batch_mint (batch_mint_error_to_string e)
