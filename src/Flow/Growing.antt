-- ===== src/Flow/Growing.antt =====
-- Assets that are added one after the other, with `add_asset` of src/batch_mint_builder.rs.
use bubblegum_batch_sdk.Base.{
  ℕ, suc, ◌+◌, ◌≡◌, refl, sym, ap, ◌∙◌, subst, arith, List, [], ◌∷◌, ◌++◌, map, length, length-snoc,
  Outcome, ok, ◌>>=◌, >>=-eq-ok, ok_injective,
}
use bubblegum_batch_sdk.Base.Bytes.{Bytes}
use bubblegum_batch_sdk.Base.Maps.{values, insert}
use bubblegum_batch_sdk.Deps.{Deps, Metadata}
use bubblegum_batch_sdk.Deps.Laws.{HashLaws}
use bubblegum_batch_sdk.Errors.{BatchMintError}
use bubblegum_batch_sdk.Model.{BatchMintInstruction}
use bubblegum_batch_sdk.Builder.Hashing.{MetadataArgsHash, hashes_of}
use bubblegum_batch_sdk.Builder.State.{BatchMintBuilder}
use bubblegum_batch_sdk.Builder.Assets.{record_asset, add_asset}
use bubblegum_batch_sdk.Flow.Entries.{assets_of, add_asset_assets}
use bubblegum_batch_sdk.Flow.Reach.{Reach, added, Reach-IsConsistent}
use mathlib.Core.List.{append-nil, append_assoc}
use bubblegum_batch_sdk.Builder.AddAsset.{add_asset_sound}
use bubblegum_batch_sdk.Flow.Invariant.{IsConsistent, add_asset-IsConsistent, insert_entry}

module _ (x : Deps) where
  -- The assets one after the other, with one owner who is also the delegate.
  unfoldable pub add_assets :
      BatchMintBuilder x
      → Bytes
      → List (Metadata x)
      → Outcome (BatchMintError x) (BatchMintBuilder x)
  add_assets b owner [] = ok b
  add_assets b owner (m ∷ ms) = do r ← add_asset x b owner owner m; add_assets r.1 owner ms

  length-insert_entry :
      (b : BatchMintBuilder x) (n : ℕ) (m : BatchMintInstruction x)
      → IsConsistent x b
      → n ≡ length b.mints
      → length (insert n m b.mints) ≡ suc (length b.mints)
  length-insert_entry b n m v e =
      ap (λ k. length (insert k m b.mints)) e
      ∙ ap length (insert_entry x b m v.counted)
      ∙ length-snoc b.mints (length b.mints, m)

  -- What one more asset changes and keeps.
  pub record Extended (b b' : BatchMintBuilder x) : Type 0 where
    pub consistent : IsConsistent x b'
    pub tree_account : b'.tree_account ≡ b.tree_account
    pub max_depth : b'.max_depth ≡ b.max_depth
    pub max_buffer_size : b'.max_buffer_size ≡ b.max_buffer_size
    pub canopy_depth : b'.canopy_depth ≡ b.canopy_depth
    pub collection_config : b'.collection_config ≡ b.collection_config
    pub count : length b'.mints ≡ suc (length b.mints)

  pub add_asset-Extended :
      HashLaws x
      → (b : BatchMintBuilder x) (owner delegate : Bytes) (m : Metadata x) {h : MetadataArgsHash}
        {b' : BatchMintBuilder x}
      → IsConsistent x b
      → add_asset x b owner delegate m ≡ ok (h, b')
      → Extended b b'
  unfolding record_asset
  add_asset-Extended laws b owner delegate m v e =
      let a = add_asset_sound x b owner delegate m e in
      let n_eq : a.hashes.nonce ≡ length b.mints =
        ap (λ h. h.nonce) a.hashes_eq ∙ (unfold hashes_of in refl) in
      let state = ap (λ (r : MetadataArgsHash × BatchMintBuilder x). r.1) (sym a.result_eq) in
      record {
        consistent = add_asset-IsConsistent x laws b owner delegate m v e;
        tree_account = ap (λ r. r.tree_account) state;
        max_depth = ap (λ r. r.max_depth) state;
        max_buffer_size = ap (λ r. r.max_buffer_size) state;
        canopy_depth = ap (λ r. r.canopy_depth) state;
        collection_config = ap (λ r. r.collection_config) state;
        count = ap (λ r. length r.mints) state ∙ length-insert_entry b a.hashes.nonce _ v n_eq;
      }

  -- What adding assets changes and keeps.
  pub record Grown (b b' : BatchMintBuilder x) (owner : Bytes) (ms : List (Metadata x))
      : Type 0 where
    pub tree_account : b'.tree_account ≡ b.tree_account
    pub max_depth : b'.max_depth ≡ b.max_depth
    pub max_buffer_size : b'.max_buffer_size ≡ b.max_buffer_size
    pub collection_config : b'.collection_config ≡ b.collection_config
    pub count : length b'.mints ≡ length b.mints + length ms
    pub reach : Reach x b'
    pub assets :
        assets_of x (values b'.mints)
        ≡ assets_of x (values b.mints) ++ map (λ m. (owner, owner, m)) ms

  pub add_assets_sound :
      HashLaws x
      → (b : BatchMintBuilder x) (owner : Bytes) (ms : List (Metadata x)) {b' : BatchMintBuilder x}
      → Reach x b
      → add_assets b owner ms ≡ ok b'
      → Grown b b' owner ms
  unfolding add_assets record_asset
  add_assets_sound laws b owner [] r h =
      subst (λ c. Grown b c owner []) (ok_injective h)
        (record {
          tree_account = refl;
          max_depth = refl;
          max_buffer_size = refl;
          collection_config = refl;
          count = omega arith;
          reach = r;
          assets = sym (append-nil (assets_of x (values b.mints)));
        })
  add_assets_sound laws b owner (m ∷ ms) {b' = b'} r h =
      let ((hash, next), e, rest) = >>=-eq-ok (add_asset x b owner owner m) _ h in
      let one = add_asset-Extended laws b owner owner m (Reach-IsConsistent x laws r) e in
      let g = add_assets_sound laws next owner ms (added owner owner m hash r e) rest in
      record {
        tree_account = g.tree_account ∙ one.tree_account;
        max_depth = g.max_depth ∙ one.max_depth;
        max_buffer_size = g.max_buffer_size ∙ one.max_buffer_size;
        collection_config = g.collection_config ∙ one.collection_config;
        count = g.count ∙ (let step = one.count in omega (arith, step));
        reach = g.reach;
        assets =
            g.assets
            ∙ ap (λ l. l ++ map (λ m. (owner, owner, m)) ms)
                (add_asset_assets x b owner owner m (Reach-IsConsistent x laws r) e)
            ∙ append_assoc (assets_of x (values b.mints)) ((owner, owner, m) ∷ []) _;
      }
