-- ===== src/Validations/Same.antt =====
-- Batch mints whose entries differ in the order of their signatures, before the validator of
-- src/batch_mint_validations.rs.
use bubblegum_batch_sdk.Base.{
  ℕ, zero, suc, ◌≡◌, refl, sym, ap, ◌∙◌, none, Option, List, [], ◌∷◌, ◌++◌, map, get_elem?, Outcome,
  ok, ◌>>=◌, ◌>>◌, bind_congr, bind_through, map_err, ok_or, expect, guard, AllPairs,
}
use bubblegum_batch_sdk.Base.Bytes.{Bytes, bytes_eq}
use bubblegum_batch_sdk.Base.Maps.{HashMap, get}
use bubblegum_batch_sdk.Deps.{Deps}
use bubblegum_batch_sdk.Deps.Data.{Creator, ChangeLog}
use bubblegum_batch_sdk.Errors.{
  BatchMintValidationError, spl_compression, from_batch_mint_error, no_relevant_rolled_mint,
  invalid_root,
}
use bubblegum_batch_sdk.Model.{BatchMint, BatchMintInstruction}
use bubblegum_batch_sdk.MerkleTree.{make_concurrent_merkle_tree}
use bubblegum_batch_sdk.Builder.Signatures.{signatures_or_default}
use bubblegum_batch_sdk.Validations.{
  check_change_log, get_leaf_hash, verify_creator, verify_creators, verify_creators_signatures,
  validate_collection, validate_asset, validate_assets, replay_leaves, validate_change_logs,
  validate_batch_mint,
}

module _ (x : Deps) where
  abbrev pub unsigned : BatchMintInstruction x → BatchMintInstruction x
  unsigned m = record m { creator_signature = none }

  -- Each key has the same signature in both entries, or none in both.
  abbrev pub SameSignatures : BatchMintInstruction x → BatchMintInstruction x → Type 0
  SameSignatures m n =
      (k : Bytes)
      → get k (signatures_or_default n.creator_signature)
        ≡ get k (signatures_or_default m.creator_signature)

  verify_creators_same :
      (msg : Bytes) (held held' : HashMap x.Signature) (cs : List Creator)
      → ((k : Bytes) → get k held' ≡ get k held)
      → verify_creators x msg held' cs ≡ verify_creators x msg held cs
  unfolding verify_creators
  verify_creators_same msg held held' [] same = refl
  verify_creators_same msg held held' (c ∷ cs) same =
      let first : verify_creator x msg held' c ≡ verify_creator x msg held c =
        rw (verify_creator, same c.address) refl in
      rw first (
        bind_congr (verify_creator x msg held c) _ _
          (λ u. verify_creators_same msg held held' cs same))

  -- The check of an entry with signatures that are given apart.
  check_with :
      Bytes
      → Option Bytes
      → HashMap x.Signature
      → BatchMintInstruction x
      → Outcome (BatchMintValidationError x) Bytes
  check_with tree_id mint held m = do
    leaf_hash ← get_leaf_hash x m tree_id
    validate_collection x mint m.mint_args.collection
    verify_creators_signatures x tree_id m held
    ok leaf_hash

  check_with_same :
      (tree_id : Bytes) (mint : Option Bytes) (held held' : HashMap x.Signature)
      (m : BatchMintInstruction x)
      → ((k : Bytes) → get k held' ≡ get k held)
      → check_with tree_id mint held' m ≡ check_with tree_id mint held m
  unfolding check_with verify_creators_signatures
  check_with_same tree_id mint held held' m same =
      bind_congr (get_leaf_hash x m tree_id) _ _ (λ leaf_hash.
        bind_congr (validate_collection x mint m.mint_args.collection) _ _ (λ u.
          ap (λ o. o >>= λ v. ok leaf_hash)
            (bind_congr _ _ _
              (λ hash. verify_creators_same _ held held' m.mint_args.creators same))))

  validate_asset_same :
      (tree_id : Bytes) (mint : Option Bytes) (m n : BatchMintInstruction x)
      → unsigned n ≡ unsigned m
      → SameSignatures m n
      → validate_asset x tree_id mint n ≡ validate_asset x tree_id mint m
  unfolding validate_asset check_with get_leaf_hash verify_creators_signatures
  validate_asset_same tree_id mint m n e same =
      ap (check_with tree_id mint (signatures_or_default n.creator_signature)) e
      ∙ check_with_same tree_id mint (signatures_or_default m.creator_signature)
          (signatures_or_default n.creator_signature) (unsigned m) same

  validate_assets_same :
      (tree_id : Bytes) (mint : Option Bytes) (ms ns : List (BatchMintInstruction x))
      (hashes : List Bytes)
      → map unsigned ns ≡ map unsigned ms
      → AllPairs SameSignatures ms ns
      → validate_assets x tree_id mint ns hashes ≡ validate_assets x tree_id mint ms hashes
  unfolding validate_assets
  validate_assets_same tree_id mint [] [] hashes e same = refl
  validate_assets_same tree_id mint [] (n ∷ ns) hashes e same = absurd same
  validate_assets_same tree_id mint (m ∷ ms) [] hashes e same = absurd same
  validate_assets_same tree_id mint (m ∷ ms) (n ∷ ns) hashes e (first, others) =
      let here : unsigned n ≡ unsigned m = cc in
      rw (validate_asset_same tree_id mint m n here first) (
        bind_congr (validate_asset x tree_id mint m) _ _
          (λ leaf. validate_assets_same tree_id mint ms ns (hashes ++ leaf ∷ []) (cc) others))

  -- The entry at a number, as far as the changelogs are checked.
  check_at_same :
      (bm : BatchMint x) (log : ChangeLog) (ms ns : List (BatchMintInstruction x)) (i j : ℕ)
      (other : BatchMint x)
      → other.tree_id ≡ bm.tree_id
      → map unsigned ns ≡ map unsigned ms
      → (ok_or (get_elem? ns i) (no_relevant_rolled_mint j) >>= λ m. check_change_log x other m log)
        ≡ (ok_or (get_elem? ms i) (no_relevant_rolled_mint j) >>= λ m. check_change_log x bm m log)
  unfolding check_change_log
  check_at_same bm log [] [] i j other tree e = refl
  check_at_same bm log [] (n ∷ ns) i j other tree e = absurd (cc)
  check_at_same bm log (m ∷ ms) [] i j other tree e = absurd (cc)
  check_at_same bm log (m ∷ ms) (n ∷ ns) zero j other tree e =
      let here : unsigned n ≡ unsigned m = cc in
      λ i. check_change_log x (record bm { tree_id = tree i }) (here i) log
  check_at_same bm log (m ∷ ms) (n ∷ ns) (suc i) j other tree e =
      check_at_same bm log ms ns i j other tree (cc)

  replay_leaves_same :
      (bm other : BatchMint x) (i : ℕ) (hashes : List Bytes) (t : x.Tree)
      → other.tree_id ≡ bm.tree_id
      → map unsigned other.batch_mints ≡ map unsigned bm.batch_mints
      → replay_leaves x other i hashes t ≡ replay_leaves x bm i hashes t
  unfolding replay_leaves
  replay_leaves_same bm other i [] t tree e = refl
  replay_leaves_same bm other i (h ∷ hs) t tree e =
      bind_congr (map_err spl_compression (x.merkle.append t h)) _ _ (λ appended.
        bind_congr (expect (x.merkle.change_logs appended.1 (x.merkle.active_index appended.1))) _ _
          (λ log.
            bind_through (ok_or (get_elem? other.batch_mints i) (no_relevant_rolled_mint i))
              (λ m. check_change_log x other m log) _
              (λ u. replay_leaves x other (suc i) hs appended.1) (λ m. refl)
            ∙ ap (λ o. o >>= λ u. replay_leaves x other (suc i) hs appended.1)
                (check_at_same bm log bm.batch_mints other.batch_mints i i other tree e)
            ∙ bind_congr _ _ _ (λ u. replay_leaves_same bm other (suc i) hs appended.1 tree e)
            ∙ sym (
                bind_through (ok_or (get_elem? bm.batch_mints i) (no_relevant_rolled_mint i))
                  (λ m. check_change_log x bm m log) _
                  (λ u. replay_leaves x bm (suc i) hs appended.1) (λ m. refl))))

  -- What the validator reads of a batch mint.
  pub record IsSameBatch (bm other : BatchMint x) : Type 0 where
    pub tree_id : other.tree_id ≡ bm.tree_id
    pub entries : map unsigned other.batch_mints ≡ map unsigned bm.batch_mints
    pub signatures : AllPairs SameSignatures bm.batch_mints other.batch_mints
    pub max_depth : other.max_depth ≡ bm.max_depth
    pub max_buffer_size : other.max_buffer_size ≡ bm.max_buffer_size
    pub merkle_root : other.merkle_root ≡ bm.merkle_root

  -- The batch mint of other entries, a raw metadata map and a last leaf hash.
  abbrev with_entries : BatchMint x → BatchMint x → BatchMint x
  with_entries bm other = record bm {
    batch_mints = other.batch_mints;
    raw_metadata_map = other.raw_metadata_map;
    last_leaf_hash = other.last_leaf_hash;
  }

  validate_with_entries :
      (bm other : BatchMint x) (mint : Option Bytes)
      → map unsigned other.batch_mints ≡ map unsigned bm.batch_mints
      → AllPairs SameSignatures bm.batch_mints other.batch_mints
      → validate_batch_mint x (with_entries bm other) mint ≡ validate_batch_mint x bm mint
  unfolding validate_batch_mint validate_change_logs
  validate_with_entries bm other mint entries signatures =
      ap
        (λ o. o >>= λ hashes.
          validate_change_logs x bm.max_depth bm.max_buffer_size hashes (with_entries bm other))
        (validate_assets_same bm.tree_id mint bm.batch_mints other.batch_mints [] entries
          signatures)
      ∙ bind_congr (validate_assets x bm.tree_id mint bm.batch_mints []) _ _ (λ hashes.
        bind_congr
          (map_err from_batch_mint_error
            (make_concurrent_merkle_tree x bm.max_depth bm.max_buffer_size))
          _ _
          (λ tree.
            bind_congr (map_err spl_compression (x.merkle.initialize tree)) _ _ (λ initialized.
              ap
                (λ replayed. replayed >>= λ final.
                  guard (bytes_eq (x.merkle.get_root final) bm.merkle_root) (
                    invalid_root (x.hash_to_string (x.merkle.get_root final))
                      (x.hash_to_string bm.merkle_root)))
                (replay_leaves_same bm (with_entries bm other) 0 hashes initialized.1 refl
                  entries))))

  pub validate_same :
      (bm other : BatchMint x) (mint : Option Bytes)
      → IsSameBatch bm other
      → validate_batch_mint x other mint ≡ validate_batch_mint x bm mint
  validate_same bm other mint s =
      (λ i.
        validate_batch_mint x
          (record other {
            tree_id = s.tree_id i;
            max_depth = s.max_depth i;
            max_buffer_size = s.max_buffer_size i;
            merkle_root = s.merkle_root i;
          })
          mint)
      ∙ validate_with_entries bm other mint s.entries s.signatures
