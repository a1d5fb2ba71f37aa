-- ===== src/Lib.antt =====
-- bubblegum-batch-sdk, checked: building batch mints of compressed NFTs, validating them, and the
-- canopy of their merkle tree.
--
-- A builder (src/batch_mint_builder.rs) holds a merkle tree and numbered entries. `add_asset`
-- hashes the asset to a leaf, appends it to the tree and records the changelog; creators sign a
-- message made of the number and the leaf, and `add_signatures_for_verified_creators` checks and
-- keeps the signatures; `build_batch_mint` refuses a mint that lacks a signature or names a wrong
-- collection. The validator (src/batch_mint_validations.rs) gets only the batch mint. It derives
-- every leaf anew, checks the signatures and replays the tree. The client
-- (src/batch_mint_client.rs) reads the sizes of a tree from its account (src/tree_data_acc.rs),
-- makes or restores a builder for it, and sends the canopy nodes that the account does not hold
-- yet.
--
-- - Base: results with an error or a panic, maps, bytes, powers of two, decimal text.
-- - Deps: what comes from other packages (mpl_bubblegum, spl_concurrent_merkle_tree, solana_sdk,
--   borsh) is the record `Deps`, a parameter of every definition that needs it. Deps/Merkle is the
--   merkle tree that spl_concurrent_merkle_tree documents, and Deps/Laws the documented behaviour
--   that some theorems assume, by name.
-- - Errors: src/errors.rs, and the errors of src/batch_mint_validations.rs.
-- - Model: src/model.rs, the data of a batch mint and its conversions. Model/Equality is
--   `PartialEq`, with that of other packages' types as a parameter; Model/Instruction is the
--   conversion to blockbuster's instruction, and JSON with serde_json as a parameter.
-- - MerkleTree: src/merkle_tree_wrapper.rs, the tables of tree sizes and the sizes of canopies.
-- - Builder: src/batch_mint_builder.rs. State is `BatchMintBuilder`, `new` and
--   `setup_collection_config`; Hashing is `hash_metadata_args` and `MetadataArgsHash`; Changelog is
--   `make_changelog_path`; Assets is `add_asset`; Signatures is
--   `add_signatures_for_verified_creators`; Building is `build_batch_mint`. The other files prove.
-- - Validations: `validate_batch_mint` and its helpers. Validations/Spec is the independent
--   description; Validations/Generate is `generate_batch_mint`, with the random draws as a
--   parameter. Tampered and Equal are about batch mints that differ from one another, Indexed about
--   what an indexer is given.
-- - Flow: the builder from the first call to the last. Flow/Reach is the relation of the builders
--   that the public calls can reach, and the files beside it prove what holds of all of them.
--   Flow/Generated and Flow/Drawn are about `generate_batch_mint`.
-- - TreeData: src/tree_data_acc.rs, `TreeDataInfo`.
-- - Client: src/batch_mint_client.rs. Tree is `parse_tree_size` and `create_batch_mint_builder`,
--   Canopy is `calc_canopy_to_add` and the chunks that `finalize_tree` sends, Restore is
--   `restore_batch_mint_builder`, Network is the RPC node and src/pubkey_util.rs, Prepare is
--   `prepare_tree` and Finalize `finalize_tree`. The other files prove: RoundTrip, Unconfigured and
--   Rebuilt of restored builders, Expected and Sent of what `finalize_tree` sends, Rerun of the
--   canopy loop run again after a stop.
-- - Build: build.rs.
-- - Examples: a reference implementation of the parameters that meets the laws, and test runs.
--
-- Conventions. An operation that may fail returns `Outcome`: a value, an error of the source, or a
-- panic (unwrap, a slice out of range, an underflow). An operation on `&mut self` returns the new
-- state. `add_signatures_for_verified_creators` also returns the state that an error leaves
-- behind. A HashMap is a list of pairs in the order in which it is iterated, a BTreeMap a list
-- sorted by its keys. Integers are natural numbers with the wrap-around of a cast written out.
-- Keys, hashes and nodes are lists of bytes.
--
-- Bounds and fuel. `calc_canopy_size` is the source's function up to depth 58; from 59 on the
-- source's 64-bit arithmetic overflows, and the theorems keep the depth below that. `chunks` runs
-- on the length of the list as fuel, and each chunk takes one element or more. `ilog2` tries 64
-- exponents, enough for any number below 2 ^ 64. `show_ℕ` prints 20 digits, enough for a u64.
--
-- The RPC node answers as a function of the transactions sent before, and a call of the client
-- returns its result with all transactions sent so far.
--
-- Not modelled: the JSON text itself, which is serde's, the ids of programs that every instruction
-- of a kind has alike, and the tests.
pub mod Base
pub mod Deps
pub mod Errors
pub mod Model
pub mod MerkleTree
pub mod Builder
pub mod Validations
pub mod Flow
pub mod TreeData
pub mod Client
pub mod Examples
pub mod Build
