-- ===== src/Model/Instruction.antt =====
-- src/model.rs: the instruction of blockbuster's bubblegum parser that an entry of a batch mint is
-- converted to, and a batch mint as JSON.
use bubblegum_batch_sdk.Base.{Option, some, Outcome, ok, ◌>>=◌}
use bubblegum_batch_sdk.Base.Bytes.{Bytes}
use bubblegum_batch_sdk.Deps.{Deps, Metadata}
use bubblegum_batch_sdk.Deps.Data.{LeafSchema}
use bubblegum_batch_sdk.Model.{
  BatchMint, BatchMintInstruction, BlockbusterChangeLogEventV1, to_blockbuster,
}

-- The variants of `Version` and `InstructionName` that the conversion names.
pub data Version : Type 0 where
  v1 : Version

pub data InstructionName : Type 0 where
  mint_v1 : InstructionName

-- What `LeafSchemaEvent::new` takes.
pub record LeafSchemaEvent : Type 0 where
  pub version : Version
  pub schema : LeafSchema
  pub leaf_hash : Bytes

-- `Payload::MintV1`
pub record Payload (x : Deps) : Type 0 where
  pub args : Metadata x
  pub authority : Bytes
  pub tree_id : Bytes

pub record BubblegumInstruction (x : Deps) : Type 0 where
  pub instruction : InstructionName
  pub tree_update : Option BlockbusterChangeLogEventV1
  pub leaf_update : Option LeafSchemaEvent
  pub payload : Option (Payload x)

-- What is used of serde_json, over a type of writers and readers.
pub record SerdeJson (x : Deps) : Type 1 where
  pub Writer : Type 0
  pub Reader : Type 0
  pub JsonError : Type 0
  pub to_writer : Writer → BatchMint x → Outcome JsonError (Unit {0}) × Writer
  pub from_reader : Reader → Outcome JsonError (BatchMint x)

module _ (x : Deps) where
  unfoldable pub to_bubblegum_instruction : BatchMintInstruction x → BubblegumInstruction x
  to_bubblegum_instruction value =
      let hash = x.leaf_hash value.leaf_update in
      record {
        instruction = mint_v1;
        tree_update = some (to_blockbuster value.tree_update);
        leaf_update = some (record { version = v1; schema = value.leaf_update; leaf_hash = hash });
        payload = some (record {
          args = value.mint_args;
          authority = value.authority;
          tree_id = value.tree_update.id;
        });
      }

  -- It also returns the writer.
  unfoldable write_as_json :
      (json : SerdeJson x)
      → BatchMint x
      → json.Writer
      → Outcome json.JsonError (Unit {0}) × json.Writer
  write_as_json json batch_mint writer = json.to_writer writer batch_mint

  unfoldable read_as_json :
      (json : SerdeJson x) → json.Reader → Outcome json.JsonError (BatchMint x)
  read_as_json json reader = do batch_mint ← json.from_reader reader; ok batch_mint
