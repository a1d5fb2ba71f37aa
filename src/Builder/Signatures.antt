-- ===== src/Builder/Signatures.antt =====
-- src/batch_mint_builder.rs: `add_signatures_for_verified_creators` and `check_extra_creators`.
use bubblegum_batch_sdk.Base.{
  ℕ, Bool, true, false, ◌||◌, ◌&&◌, Option, none, some, List, [], ◌∷◌, Outcome, ok, err, panic,
  ok_or, guard, ◌>>=◌, ◌>>◌,
}
use bubblegum_batch_sdk.Base.Bytes.{Bytes, bytes_eq}
use bubblegum_batch_sdk.Base.Maps.{HashMap, lookup, put, get, add}
use bubblegum_batch_sdk.Deps.{Deps}
use bubblegum_batch_sdk.Deps.Data.{Creator}
use bubblegum_batch_sdk.Errors.{
  BatchMintError, missing_batch_mint, extra_creators_received,
  cannot_add_signature_for_unverified_creator, invalid_creators_signature,
}
use bubblegum_batch_sdk.Builder.Hashing.{metadata_args_hash_new, get_message}
use bubblegum_batch_sdk.Builder.State.{BatchMintBuilder}

-- Membership in the set of the creators' addresses.
unfoldable pub is_creator : List Creator → Bytes → Bool
is_creator [] k = false
is_creator (c ∷ cs) k = bytes_eq k c.address || is_creator cs k

-- The difference of the two sets of keys is empty.
unfoldable pub no_extra_creators : {S : Type 0} → List Creator → HashMap S → Bool
unfolding is_creator
no_extra_creators creators [] = true
no_extra_creators creators ((k, s) ∷ m) = is_creator creators k && no_extra_creators creators m

unfoldable pub signatures_or_default : {S : Type 0} → Option (HashMap S) → HashMap S
signatures_or_default (some m) = m
signatures_or_default none = []

module _ (x : Deps) where
  unfoldable pub check_extra_creators :
      List Creator → HashMap x.Signature → Outcome (BatchMintError x) (Unit {0})
  unfolding no_extra_creators
  check_extra_creators creators signatures =
      guard (no_extra_creators creators signatures) extra_creators_received

  -- `verify_signature`
  unfoldable pub verify_signature : Bytes → Bytes → x.Signature → Bool
  verify_signature signer msg signature = x.verify signature signer msg

  -- The body of the loop over the creators.
  unfoldable pub sign_creator :
      Bytes
      → HashMap x.Signature
      → Creator
      → HashMap x.Signature
      → Outcome (BatchMintError x) (HashMap x.Signature)
  unfolding verify_signature
  sign_creator msg received creator signatures = elim (get creator.address received) [
    | none ↦ ok signatures
    | some signature ↦ do
      guard creator.verified
          (cannot_add_signature_for_unverified_creator (x.key_to_string creator.address))
      guard (verify_signature creator.address msg signature)
          (invalid_creators_signature (x.key_to_string creator.address))
      ok (add creator.address signature signatures)
  ]

  unfoldable pub sign_creators :
      Bytes
      → HashMap x.Signature
      → List Creator
      → HashMap x.Signature
      → Outcome (BatchMintError x) (HashMap x.Signature)
  unfolding sign_creator
  sign_creators msg received [] signatures = ok signatures
  sign_creators msg received (c ∷ cs) signatures = do
    signatures' ← sign_creator msg received c signatures
    sign_creators msg received cs signatures'

  -- One asset whose map of signatures is not empty.
  unfoldable pub sign_asset :
      BatchMintBuilder x → ℕ → HashMap x.Signature → Outcome (BatchMintError x) (BatchMintBuilder x)
  sign_asset b asset_nonce received = do
    batch_mint ← ok_or (lookup asset_nonce b.mints) (missing_batch_mint asset_nonce)
    check_extra_creators batch_mint.mint_args.creators received
    metadata_hash ←
        metadata_args_hash_new x batch_mint.leaf_update b.tree_account batch_mint.mint_args
    signatures ←
        sign_creators (get_message metadata_hash) received batch_mint.mint_args.creators
          (signatures_or_default batch_mint.creator_signature)
    ok (record b {
      mints = put asset_nonce (record batch_mint { creator_signature = some signatures }) b.mints;
    })

  -- `?` on the result of one asset: an error leaves the builder as it was before that asset.
  unfoldable pub or_return :
      BatchMintBuilder x
      → Outcome (BatchMintError x) (BatchMintBuilder x)
      → (BatchMintBuilder x → Outcome (BatchMintError x) (Unit {0}) × BatchMintBuilder x)
      → Outcome (BatchMintError x) (Unit {0}) × BatchMintBuilder x
  or_return b (ok b') next = next b'
  or_return b (err e) next = (err e, b)
  or_return b panic next = (panic, b)

  -- The assets come in the order of the map's iteration. What was signed before a failure stays.
  unfoldable pub add_signatures_for_verified_creators :
      BatchMintBuilder x
      → List (ℕ × HashMap x.Signature)
      → Outcome (BatchMintError x) (Unit {0}) × BatchMintBuilder x
  add_signatures_for_verified_creators b [] = (ok tt, b)
  add_signatures_for_verified_creators b ((asset_nonce, []) ∷ rest) =
      add_signatures_for_verified_creators b rest
  add_signatures_for_verified_creators b ((asset_nonce, s ∷ received) ∷ rest) =
      or_return b (sign_asset b asset_nonce (s ∷ received))
        (λ b'. add_signatures_for_verified_creators b' rest)
