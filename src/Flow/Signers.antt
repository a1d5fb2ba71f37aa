-- ===== src/Flow/Signers.antt =====
-- Who has signed the assets of a builder of src/batch_mint_builder.rs.
use bubblegum_batch_sdk.Base.{
  ℕ, ◌≡◌, refl, sym, ap, ◌∙◌, subst, true, none, some, List, [], ◌∷◌, ok, All, All-map₂, Bool-cases,
  All-append, All-of, inl, inr, >>=-eq-ok, ok_injective, unwrap,
}
use bubblegum_batch_sdk.Base.Bytes.{Bytes, bytes_eq, bytes_eq→eq, bytes_eq_refl}
use bubblegum_batch_sdk.Base.Maps.{HashMap, get, values}
use bubblegum_batch_sdk.Deps.{Deps}
use bubblegum_batch_sdk.Deps.Data.{Creator}
use bubblegum_batch_sdk.Deps.Laws.{HashLaws}
use bubblegum_batch_sdk.Errors.{BatchMintError}
use bubblegum_batch_sdk.Model.{BatchMintInstruction, CollectionConfig}
use bubblegum_batch_sdk.MerkleTree.{make_concurrent_merkle_tree}
use bubblegum_batch_sdk.Builder.State.{BatchMintBuilder, new, setup_collection_config}
use bubblegum_batch_sdk.Builder.Signatures.{
  is_creator, no_extra_creators, sign_creators, sign_asset, signatures_or_default,
}
use bubblegum_batch_sdk.Flow.Invariant.{values-snoc}
use bubblegum_batch_sdk.Flow.Runs.{All-put, All-lookup}
use bubblegum_batch_sdk.Flow.Signing.{sign_asset_sound, add_signatures_elim}
use bubblegum_batch_sdk.Flow.Signed.{latest, pick-eq-some, sign_creators_sound}
use bubblegum_batch_sdk.Flow.Erased.{add_asset-Entered}
use bubblegum_batch_sdk.Flow.Reach.{Reach, created, added, signed, configured, Reach-IsConsistent}

module _ {S : Type 0} where
  -- Every key with a signature is a creator's.
  abbrev pub OnlyCreators : List Creator → HashMap S → Type 0
  OnlyCreators cs m = (k : Bytes) (s : S) → get k m ≡ some s → is_creator cs k ≡ true

  pub OnlyCreators-no_extra :
      (cs : List Creator) (m : HashMap S) → OnlyCreators cs m → no_extra_creators cs m ≡ true
  unfolding no_extra_creators get
  OnlyCreators-no_extra cs [] only = refl
  OnlyCreators-no_extra cs ((j, t) ∷ m) only =
      let here : is_creator cs j ≡ true = only j t (rw (bytes_eq_refl j) refl) in
      rw here (
        OnlyCreators-no_extra cs m (λ k s e. elim (Bool-cases (bytes_eq k j)) [
          | inl same ↦ subst (λ i. is_creator cs i ≡ true) (sym (bytes_eq→eq k j same)) here
          | inr other ↦ only k s (rw other e)
        ]))

module _ (x : Deps) where
  -- Only creators have signed, and all that have are marked as verified.
  pub record HasSigners (m : BatchMintInstruction x) : Type 0 where
    pub only : OnlyCreators m.mint_args.creators (signatures_or_default m.creator_signature)
    pub verified :
        All
          (λ (c : Creator).
            (s : x.Signature)
            → get c.address (signatures_or_default m.creator_signature) ≡ some s
            → c.verified ≡ true)
          m.mint_args.creators

  unsigned-HasSigners : (m : BatchMintInstruction x) → m.creator_signature ≡ none → HasSigners m
  unfolding signatures_or_default get
  unsigned-HasSigners m unsigned = record {
    only = λ k s e. cc (rw unsigned at e);
    verified = All-of _ (λ c s e. cc (rw unsigned at e)) m.mint_args.creators;
  }

  signed-HasSigners :
      (m : BatchMintInstruction x) (msg : Bytes) (received signatures : HashMap x.Signature)
      → HasSigners m
      → sign_creators x msg received m.mint_args.creators
          (signatures_or_default m.creator_signature)
        ≡ ok signatures
      → HasSigners (record m { creator_signature = some signatures })
  unfolding signatures_or_default latest
  signed-HasSigners m msg received signatures v h =
      let (accepted, now) = sign_creators_sound x msg received m.mint_args.creators _ h in
      record {
        only = λ k s e. elim (Bool-cases (is_creator m.mint_args.creators k)) [
          | inl creator ↦ creator
          | inr other ↦ v.only k s (rw other at (sym (now k) ∙ e))
        ];
        verified =
            All-map₂ _ _ _
              (λ c takes was s e.
                elim (pick-eq-some (is_creator m.mint_args.creators c.address) _ _
                  (sym (now c.address) ∙ e)) [ inl new ↦ (takes s new).0 | inr old ↦ was s old ])
              m.mint_args.creators accepted v.verified;
      }

  abbrev AllSigners : BatchMintBuilder x → Type 0
  AllSigners b = All HasSigners (values b.mints)

  sign_asset-AllSigners :
      (b : BatchMintBuilder x) (k : ℕ) (received : HashMap x.Signature) (b' : BatchMintBuilder x)
      → AllSigners b
      → sign_asset x b k received ≡ ok b'
      → AllSigners b'
  sign_asset-AllSigners b k received b' v h =
      let s = sign_asset_sound x b k received h in
      subst AllSigners s.state_eq (
        All-put HasSigners k _ b.mints
          (signed-HasSigners s.entry _ received s.signatures
            (All-lookup HasSigners k b.mints s.found v) s.signed)
          v)

  setup-AllSigners :
      (b : BatchMintBuilder x) (config : CollectionConfig x)
      → AllSigners b
      → AllSigners (setup_collection_config x b config)
  unfolding setup_collection_config
  setup-AllSigners b config v = v

  new-AllSigners :
      (tree : Bytes) (d s c : ℕ) {b : BatchMintBuilder x} → new x tree d s c ≡ ok b → AllSigners b
  unfolding new values
  new-AllSigners tree d s c e =
      let (t, made, e₁) = >>=-eq-ok (make_concurrent_merkle_tree x d s) _ e in
      let (init, initialized, e₂) =
        >>=-eq-ok (unwrap {F = BatchMintError x} (x.merkle.initialize t)) _ e₁ in
      subst AllSigners (ok_injective e₂) tt

  -- If leaves are hashed as documented: in every builder that can be reached, an asset has been
  -- signed by its creators only, and by none that is not marked as verified.
  pub Reach-HasSigners :
      HashLaws x → {b : BatchMintBuilder x} → Reach x b → All HasSigners (values b.mints)
  Reach-HasSigners laws (created tree d s c e) = new-AllSigners tree d s c e
  Reach-HasSigners laws (added {b = b} owner delegate metadata_args h r e) =
      let n =
        add_asset-Entered x b owner delegate metadata_args (Reach-IsConsistent x laws r).counted
          e in
      subst (All HasSigners) (sym (ap values n.mints_eq ∙ values-snoc x b n.entry)) (
        All-append HasSigners (values b.mints) (n.entry ∷ []) (Reach-HasSigners laws r)
          (unsigned-HasSigners n.entry n.unsigned_eq, tt))
  Reach-HasSigners laws (signed entries r e) =
      subst AllSigners e
        (add_signatures_elim x AllSigners sign_asset-AllSigners _ entries (Reach-HasSigners laws r))
  Reach-HasSigners laws (configured config r e) =
      subst AllSigners e (setup-AllSigners _ config (Reach-HasSigners laws r))
