-- ===== src/Builder/AddAsset.antt =====
-- The calls that a successful `add_asset` of src/batch_mint_builder.rs is made of.
use bubblegum_batch_sdk.Base.{
  ℕ, ◌≡◌, some, List, length, ok, unwrap, expect, >>=-eq-ok, unwrap-eq-ok, expect-eq-ok,
  ok_injective, sym,
}
use bubblegum_batch_sdk.Base.Bytes.{Bytes}
use bubblegum_batch_sdk.Deps.{Deps, Metadata}
use bubblegum_batch_sdk.Deps.Data.{ChangeLog}
use bubblegum_batch_sdk.Errors.{BatchMintError}
use bubblegum_batch_sdk.Builder.Hashing.{MetadataArgsHash, hashes_of, hash_metadata_args}
use bubblegum_batch_sdk.Builder.State.{BatchMintBuilder}
use bubblegum_batch_sdk.Builder.Assets.{record_asset, update_canopy, add_asset}

module _ (x : Deps) where
  pub record Added (b : BatchMintBuilder x) (owner delegate : Bytes) (metadata_args : Metadata x)
      (result : MetadataArgsHash × BatchMintBuilder x) : Type 0 where
    pub args : Bytes
    pub serialized : x.try_to_vec metadata_args ≡ ok args
    pub hashes : MetadataArgsHash
    pub hashes_eq :
        hashes ≡ hashes_of x (length b.mints) b.tree_account owner delegate metadata_args args
    pub root : Bytes
    pub next : x.Tree
    pub appended : x.merkle.append b.merkle hashes.hashed_leaf ≡ ok (root, next)
    pub log : ChangeLog
    pub logged : x.merkle.change_logs next (x.merkle.active_index next) ≡ some log
    pub canopy : List Bytes
    pub canopy_eq : update_canopy x b log ≡ ok canopy
    pub result_eq : record_asset x b owner delegate metadata_args hashes next log canopy ≡ result

  hash_metadata_args_sound :
      (E : Type 0) (nonce : ℕ) (tree owner delegate : Bytes) (metadata_args : Metadata x)
      {h : MetadataArgsHash}
      → hash_metadata_args x {E = E} nonce tree owner delegate metadata_args ≡ ok h
      → (args : Bytes) × (x.try_to_vec metadata_args ≡ ok args)
        × (h ≡ hashes_of x nonce tree owner delegate metadata_args args)
  unfolding hash_metadata_args
  hash_metadata_args_sound E nonce tree owner delegate metadata_args e =
      let (args, serialized, rest) = >>=-eq-ok (unwrap {F = E} (x.try_to_vec metadata_args)) _ e in
      (args, unwrap-eq-ok {F = E} _ serialized, sym (ok_injective rest))

  pub add_asset_sound :
      (b : BatchMintBuilder x) (owner delegate : Bytes) (metadata_args : Metadata x)
      {result : MetadataArgsHash × BatchMintBuilder x}
      → add_asset x b owner delegate metadata_args ≡ ok result
      → Added b owner delegate metadata_args result
  unfolding add_asset
  add_asset_sound b owner delegate metadata_args e =
      let E : Type 0 = BatchMintError x in
      let (h, hashed, e₁) =
        >>=-eq-ok
          (hash_metadata_args x {E = E} (length b.mints) b.tree_account owner delegate
            metadata_args)
          _ e in
      let (step, appended, e₂) =
        >>=-eq-ok (unwrap {F = E} (x.merkle.append b.merkle h.hashed_leaf)) _ e₁ in
      let (c, logged, e₃) =
        >>=-eq-ok (expect (x.merkle.change_logs step.1 (x.merkle.active_index step.1))) _ e₂ in
      let (canopy, canopy_eq, e₄) = >>=-eq-ok (update_canopy x b c) _ e₃ in
      let (args, serialized, hashes_eq) =
        hash_metadata_args_sound E (length b.mints) b.tree_account owner delegate metadata_args
          hashed in
      record {
        args = args;
        serialized = serialized;
        hashes = h;
        hashes_eq = hashes_eq;
        root = step.0;
        next = step.1;
        appended = unwrap-eq-ok {F = E} _ appended;
        log = c;
        logged = expect-eq-ok _ logged;
        canopy = canopy;
        canopy_eq = canopy_eq;
        result_eq = ok_injective e₄;
      }
