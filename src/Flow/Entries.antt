-- ===== src/Flow/Entries.antt =====
-- The entries of a builder of src/batch_mint_builder.rs as the assets that were added to it.
use bubblegum_batch_sdk.Base.{
  ℕ, ◌≡◌, refl, sym, ap, ◌∙◌, some, List, [], ◌∷◌, ◌++◌, map, length, ok, ◌==◌, Bool-cases, inl,
  inr, some_injective,
}
use bubblegum_batch_sdk.Base.Bytes.{Bytes}
use bubblegum_batch_sdk.Base.Maps.{HashMap, BTreeMap, lookup, insert, put, values}
use bubblegum_batch_sdk.Flow.Invariant.{IsConsistent, insert_entry, values-snoc}
use bubblegum_batch_sdk.Flow.Signing.{sign_asset_sound, add_signatures_elim}
use bubblegum_batch_sdk.Deps.{Deps, Metadata}
use bubblegum_batch_sdk.Model.{BatchMintInstruction}
use bubblegum_batch_sdk.Builder.Hashing.{MetadataArgsHash, hashes_of}
use bubblegum_batch_sdk.Builder.State.{BatchMintBuilder}
use bubblegum_batch_sdk.Builder.Assets.{leaf_schema, record_asset, add_asset}
use bubblegum_batch_sdk.Builder.AddAsset.{add_asset_sound}
use bubblegum_batch_sdk.Builder.Signatures.{sign_asset, add_signatures_for_verified_creators}

pub map-append {ℓ κ} :
    {A : Type ℓ} {B : Type κ} (f : A → B) (xs ys : List A) → map f (xs ++ ys) ≡ map f xs ++ map f ys
map-append f [] ys = refl
map-append f (x ∷ xs) ys = ap (λ r. f x ∷ r) (map-append f xs ys)

pub map-put {ℓ κ} :
    {V : Type ℓ} {B : Type κ} (f : V → B) (k : ℕ) (m : BTreeMap V) {v v' : V}
    → lookup k m ≡ some v
    → f v' ≡ f v
    → map f (values (put k v' m)) ≡ map f (values m)
unfolding lookup put values
map-put f k [] found e = refl
map-put f k ((j, w) ∷ m) found e = elim (Bool-cases (k == j)) [
  | inl here ↦
      let same = some_injective (rw here at found) in
      rw here (ap (λ b. b ∷ map f (values m)) (e ∙ ap f (sym same)))
  | inr on ↦ rw on (ap (λ r. f w ∷ r) (map-put f k m (rw on at found) e))
]

module _ (x : Deps) where
  -- Whose asset it is, who may act for the owner, and its arguments.
  abbrev pub asset_of : BatchMintInstruction x → Bytes × Bytes × Metadata x
  asset_of m = (m.leaf_update.owner, m.leaf_update.delegate, m.mint_args)

  abbrev pub assets_of : List (BatchMintInstruction x) → List (Bytes × Bytes × Metadata x)
  assets_of ms = map asset_of ms

  pub insert_assets :
      (b : BatchMintBuilder x) (n : ℕ) (m : BatchMintInstruction x)
      → IsConsistent x b
      → n ≡ length b.mints
      → assets_of (values (insert n m b.mints)) ≡ assets_of (values b.mints) ++ asset_of m ∷ []
  insert_assets b n m v e =
      ap (λ k. assets_of (values (insert k m b.mints))) e
      ∙ ap (λ r. assets_of (values r)) (insert_entry x b m v.counted)
      ∙ ap assets_of (values-snoc x b m)
      ∙ map-append asset_of (values b.mints) (m ∷ [])

  pub add_asset_assets :
      (b : BatchMintBuilder x) (owner delegate : Bytes) (metadata_args : Metadata x)
      {h : MetadataArgsHash} {b' : BatchMintBuilder x}
      → IsConsistent x b
      → add_asset x b owner delegate metadata_args ≡ ok (h, b')
      → assets_of (values b'.mints)
        ≡ assets_of (values b.mints) ++ (owner, delegate, metadata_args) ∷ []
  unfolding record_asset leaf_schema
  add_asset_assets b owner delegate metadata_args {b' = b'} v e =
      let a = add_asset_sound x b owner delegate metadata_args e in
      let nonce_eq : a.hashes.nonce ≡ length b.mints =
        ap (λ h. h.nonce) a.hashes_eq ∙ (unfold hashes_of in refl) in
      let mints_eq = ap (λ (r : MetadataArgsHash × BatchMintBuilder x). r.1.mints) a.result_eq in
      ap (λ m. assets_of (values m)) (sym mints_eq) ∙ insert_assets b a.hashes.nonce _ v nonce_eq

  pub sign_asset_assets :
      (b : BatchMintBuilder x) (k : ℕ) (received : HashMap x.Signature) {b' : BatchMintBuilder x}
      → sign_asset x b k received ≡ ok b'
      → assets_of (values b'.mints) ≡ assets_of (values b.mints)
  sign_asset_assets b k received e =
      let s = sign_asset_sound x b k received e in
      ap (λ b'. assets_of (values b'.mints)) (sym s.state_eq)
      ∙ map-put asset_of k b.mints s.found refl

  pub add_signatures_assets :
      (b : BatchMintBuilder x) (entries : List (ℕ × HashMap x.Signature))
      → assets_of (values (add_signatures_for_verified_creators x b entries).1.mints)
        ≡ assets_of (values b.mints)
  add_signatures_assets b entries =
      add_signatures_elim x (λ b'. assets_of (values b'.mints) ≡ assets_of (values b.mints))
        (λ c k received c' same e. sign_asset_assets c k received e ∙ same) b entries refl
