-- ===== src/Client/Restore.antt =====
-- src/batch_mint_client.rs: `restore_batch_mint_builder`.
use bubblegum_batch_sdk.Base.{ℕ, none, some, List, [], ◌∷◌, Outcome, ok, ◌>>=◌}
use bubblegum_batch_sdk.Base.Bytes.{Bytes}
use bubblegum_batch_sdk.Base.Maps.{HashMap}
use bubblegum_batch_sdk.Deps.{Deps}
use bubblegum_batch_sdk.Errors.{BatchMintError}
use bubblegum_batch_sdk.Model.{BatchMint, BatchMintInstruction}
use bubblegum_batch_sdk.Builder.State.{BatchMintBuilder, new}
use bubblegum_batch_sdk.Builder.Assets.{add_asset}
use bubblegum_batch_sdk.Builder.Signatures.{add_signatures_for_verified_creators}
use bubblegum_batch_sdk.Client.Tree.{read_prepared_tree_size}

module _ (x : Deps) where
  -- `add_signatures_for_verified_creators(…)?`
  unfoldable pub add_signatures_or_fail :
      BatchMintBuilder x
      → List (ℕ × HashMap x.Signature)
      → Outcome (BatchMintError x) (BatchMintBuilder x)
  add_signatures_or_fail b entries =
      let (r, b') = add_signatures_for_verified_creators x b entries in r >>= λ _. ok b'

  -- One entry: add its asset, and its signatures if it has any.
  unfoldable pub restore_entry :
      BatchMintBuilder x → BatchMintInstruction x → Outcome (BatchMintError x) (BatchMintBuilder x)
  unfolding add_signatures_or_fail
  restore_entry b m = do
    added ← add_asset x b m.leaf_update.owner m.leaf_update.delegate m.mint_args
    elim m.creator_signature [
      | some creator_signature ↦
          add_signatures_or_fail added.1 ((added.0.nonce, creator_signature) ∷ [])
      | none ↦ ok added.1
    ]

  unfoldable pub restore_entries :
      BatchMintBuilder x
      → List (BatchMintInstruction x)
      → Outcome (BatchMintError x) (BatchMintBuilder x)
  unfolding restore_entry
  restore_entries b [] = ok b
  restore_entries b (m ∷ ms) = do b' ← restore_entry b m; restore_entries b' ms

  unfoldable pub restore_batch_mint_builder :
      Outcome x.ClientError Bytes → BatchMint x → Outcome (BatchMintError x) (BatchMintBuilder x)
  restore_batch_mint_builder account batch_mint = do
    size ← read_prepared_tree_size x account
    b ← new x batch_mint.tree_id size.max_depth size.max_buffer_size size.canopy_depth
    restore_entries b batch_mint.batch_mints
