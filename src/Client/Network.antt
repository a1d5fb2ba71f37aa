-- ===== src/Client/Network.antt =====
-- What src/batch_mint_client.rs hands to the network: instructions, transactions, and the answers of
-- the RPC node. The accounts of the instructions are those of src/pubkey_util.rs.
use Prim.Native.String.{String}
use bubblegum_batch_sdk.Base.{
  ℕ, Bool, Option, List, [], ◌∷◌, ◌++◌, refl, ◌≡◌, Outcome, ok, err, panic, if◌then◌else◌, map_err,
  ◌>>=◌,
}
use bubblegum_batch_sdk.Base.Bytes.{Bytes}
use bubblegum_batch_sdk.Deps.{Deps}
use bubblegum_batch_sdk.Errors.{BatchMintError, solana_client_err}
use bubblegum_batch_sdk.Client.Canopy.{AddCanopy}

-- What `PrepareTreeBuilder` is given.
pub record PrepareTree : Type 0 where
  pub payer : Bytes
  pub tree_creator : Bytes
  pub max_depth : ℕ
  pub max_buffer_size : ℕ
  pub merkle_tree : Bytes
  pub tree_config : Bytes

-- What `FinalizeTreeWithRootAndCollectionBuilder` is given beyond `FinalizeTreeWithRootBuilder`.
pub record FinalizeCollection : Type 0 where
  pub collection_authority : Bytes
  pub collection_mint : Bytes
  pub collection_edition : Bytes
  pub collection_metadata : Bytes
  pub collection_authority_record_pda : Option Bytes

-- What `FinalizeTreeWithRootBuilder` is given.
pub record FinalizeTree : Type 0 where
  pub merkle_tree : Bytes
  pub tree_config : Bytes
  pub staker : Bytes
  pub fee_receiver : Bytes
  pub tree_creator_or_delegate : Bytes
  pub registrar : Bytes
  pub voter : Bytes
  pub root : Bytes
  pub rightmost_leaf : Bytes
  pub rightmost_index : ℕ
  pub metadata_url : String
  pub metadata_hash : String
  pub remaining_accounts : List Bytes
  pub mining : Bytes
  pub payer : Bytes

-- The programs that each builder is given (the log wrapper, compression and system) are constants,
-- and are left out.
pub data Instruction : Type 0 where
  create_account : Bytes → Bytes → ℕ → ℕ → Instruction
  set_compute_unit_limit : ℕ → Instruction
  prepare_tree_with : PrepareTree → Instruction
  add_canopy : Bytes → Bytes → Bytes → AddCanopy → Instruction
  finalize_tree_with_root : FinalizeTree → Instruction
  finalize_tree_with_root_and_collection : FinalizeTree → FinalizeCollection → Instruction

pub record Transaction (x : Deps) : Type 0 where
  pub instructions : List Instruction
  pub payer : Bytes
  pub signers : List x.Keypair
  pub blockhash : Bytes

-- The RPC node's answers depend on the transactions that were sent before. `can_sign` says for which
-- transactions `new_signed_with_payer` does not panic.
pub record Network (x : Deps) : Type 0 where
  pub get_account : List (Transaction x) → Bytes → Outcome x.ClientError Bytes
  pub get_minimum_balance : List (Transaction x) → ℕ → Outcome x.ClientError ℕ
  pub get_latest_blockhash : List (Transaction x) → Outcome x.ClientError Bytes
  pub send_and_confirm : List (Transaction x) → Transaction x → Outcome x.ClientError x.Signature
  pub can_sign : Transaction x → Bool
  pub find_program_address : List Bytes → Bytes → Bytes
  pub find_mining_program_address : Bytes → Bytes → Bytes → Bytes
  pub dao_pubkey : Bytes
  pub dao_governing_mint : Bytes
  pub staking_id : Bytes
  pub rewards_id : Bytes
  pub bubblegum_id : Bytes
  pub fee_receiver : Bytes
  -- `b"registrar"`, `b"voter"` and `REWARD_POOL_ADDRESS`, as bytes
  pub registrar_seed : Bytes
  pub voter_seed : Bytes
  pub reward_pool_address : Bytes

-- A call of the client: its result, and all transactions sent so far.
abbrev pub Call : Deps → Type 0 → Type 0
Call x A = List (Transaction x) → Outcome (BatchMintError x) A × List (Transaction x)

module _ {x : Deps} where
  unfoldable pub and_then :
      {A B : Type 0}
      → Outcome (BatchMintError x) A × List (Transaction x)
      → (A → Call x B)
      → Outcome (BatchMintError x) B × List (Transaction x)
  and_then (ok a, sent) next = next a sent
  and_then (err e, sent) next = (err e, sent)
  and_then (panic, sent) next = (panic, sent)

  pub and_then-eq-ok :
      {A B : Type 0} (r : Outcome (BatchMintError x) A × List (Transaction x)) (next : A → Call x B)
      {b : B} {sent' : List (Transaction x)}
      → and_then r next ≡ (ok b, sent')
      → (a : A) × (r.0 ≡ ok a) × (next a r.1 ≡ (ok b, sent'))
  unfolding and_then
  and_then-eq-ok (ok a, sent) next h = (a, refl, h)
  and_then-eq-ok (err e, sent) next h = cc
  and_then-eq-ok (panic, sent) next h = cc

module _ (x : Deps) (net : Network x) where
  -- src/pubkey_util.rs
  unfoldable pub get_registrar_key : Bytes
  get_registrar_key =
      net.find_program_address (net.dao_pubkey ∷ net.registrar_seed ∷ net.dao_governing_mint ∷ [])
        net.staking_id

  unfoldable pub get_voter_key : Bytes → Bytes → Bytes
  get_voter_key registrar_account voter_authority =
      net.find_program_address (registrar_account ∷ net.voter_seed ∷ voter_authority ∷ [])
        net.staking_id

  unfoldable pub get_mining_key : Bytes → Bytes
  get_mining_key staker =
      net.find_mining_program_address net.rewards_id staker net.reward_pool_address

  unfoldable pub derive_tree_config_account : Bytes → Bytes
  derive_tree_config_account tree_data_account =
      net.find_program_address (tree_data_account ∷ []) net.bubblegum_id

  -- `new_signed_with_payer` panics where a signature is missing.
  unfoldable pub sign_transaction : Transaction x → Outcome (BatchMintError x) (Transaction x)
  sign_transaction tx = if net.can_sign tx then ok tx else panic

  -- `new_signed_with_payer` with the latest block's hash.
  unfoldable pub new_transaction :
      List Instruction
      → Bytes
      → List x.Keypair
      → List (Transaction x)
      → Outcome (BatchMintError x) (Transaction x)
  new_transaction instructions payer signers sent = do
    blockhash ← map_err solana_client_err (net.get_latest_blockhash sent)
    sign_transaction (record {
      instructions = instructions;
      payer = payer;
      signers = signers;
      blockhash = blockhash;
    })

  -- A transaction that fails to be confirmed has been sent all the same.
  unfoldable pub send_and_confirm_transaction :
      List Instruction → Bytes → List x.Keypair → Call x x.Signature
  send_and_confirm_transaction instructions payer signers sent =
      and_then (new_transaction instructions payer signers sent, sent)
        (λ tx sent. (map_err solana_client_err (net.send_and_confirm sent tx), sent ++ tx ∷ []))
