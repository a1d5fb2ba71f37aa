-- ===== src/Validations/Equal.antt =====
-- Batch mints that `PartialEq` of src/model.rs finds equal, before the validator of
-- src/batch_mint_validations.rs.
use bubblegum_batch_sdk.Base.{
  ◌≡◌, refl, sym, true, none, some, Option, List, [], ◌∷◌, map, AllPairs, All, ◌==◌, ==_iff,
}
use bubblegum_batch_sdk.Base.Bytes.{Bytes, bytes_eq, bytes_eq→eq}
use bubblegum_batch_sdk.Base.Maps.{HashMap, get}
use bubblegum_batch_sdk.Deps.{Deps, Metadata}
use bubblegum_batch_sdk.Deps.Data.{LeafSchema}
use bubblegum_batch_sdk.Model.{ChangeLogEventV1, BatchMint, BatchMintInstruction, path_eq}
use bubblegum_batch_sdk.Model.Equality.{
  PartEq, hash_map_eq, option_eq, vec_eq, change_log_event_eq, instruction_eq, batch_mint_eq,
}
use bubblegum_batch_sdk.Model.SameMaps.{both, IsDistinct, hash_map_eq_sound}
use bubblegum_batch_sdk.Builder.Signatures.{signatures_or_default}
use bubblegum_batch_sdk.Validations.{validate_batch_mint}
use bubblegum_batch_sdk.Validations.Replay.{path_eq_iff}
use bubblegum_batch_sdk.Validations.Same.{unsigned, SameSignatures, IsSameBatch, validate_same}

-- Values of other packages that are found equal are the same.
pub record PartLaws (x : Deps) (eq : PartEq x) : Type 0 where
  pub leaf_schema : (a b : LeafSchema) → eq.leaf_schema_eq a b ≡ true → a ≡ b
  pub metadata_args : (a b : Metadata x) → eq.metadata_args_eq a b ≡ true → a ≡ b
  pub signature : (a b : x.Signature) → eq.signature_eq a b ≡ true → a ≡ b

change_log_event_eq_sound :
    (e other : ChangeLogEventV1) → change_log_event_eq e other ≡ true → other ≡ e
unfolding change_log_event_eq
change_log_event_eq_sound e other h =
    let (h₁, index) = both _ (e.index == other.index) h in
    let (h₂, seq) = both _ (e.seq == other.seq) h₁ in
    let (id, path) = both _ (path_eq e.path other.path) h₂ in
    λ i. record {
      id = sym (bytes_eq→eq e.id other.id id) i;
      path = sym ((path_eq_iff e.path other.path).0 path) i;
      seq = sym ((==_iff e.seq other.seq).0 seq) i;
      index = sym ((==_iff e.index other.index).0 index) i;
    }

module _ (x : Deps) (eq : PartEq x) (laws : PartLaws x eq) where
  -- No key of an entry's signatures stands twice.
  abbrev pub HasDistinctSigners : BatchMintInstruction x → Type 0
  HasDistinctSigners m = IsDistinct (signatures_or_default m.creator_signature)

  signatures_eq_sound :
      (o o' : Option (HashMap x.Signature))
      → IsDistinct (signatures_or_default o)
      → IsDistinct (signatures_or_default o')
      → option_eq (hash_map_eq eq.signature_eq) o o' ≡ true
      → (k : Bytes) → get k (signatures_or_default o') ≡ get k (signatures_or_default o)
  unfolding option_eq signatures_or_default
  signatures_eq_sound none none d d' h k = refl
  signatures_eq_sound none (some m') d d' h k = cc
  signatures_eq_sound (some m) none d d' h k = cc
  signatures_eq_sound (some m) (some m') d d' h k =
      hash_map_eq_sound eq.signature_eq laws.signature m m' d d' h k

  instruction_eq_sound :
      (m n : BatchMintInstruction x)
      → HasDistinctSigners m
      → HasDistinctSigners n
      → instruction_eq x eq m n ≡ true
      → (unsigned x n ≡ unsigned x m) × SameSignatures x m n
  unfolding instruction_eq
  instruction_eq_sound m n d d' h =
      let (h₁, signatures) =
        both _ (option_eq (hash_map_eq eq.signature_eq) m.creator_signature n.creator_signature)
          h in
      let (h₂, authority) = both _ (bytes_eq m.authority n.authority) h₁ in
      let (h₃, args) = both _ (eq.metadata_args_eq m.mint_args n.mint_args) h₂ in
      let (update, leaf) = both _ (eq.leaf_schema_eq m.leaf_update n.leaf_update) h₃ in
      (
        λ i. record {
          tree_update = change_log_event_eq_sound m.tree_update n.tree_update update i;
          leaf_update = sym (laws.leaf_schema m.leaf_update n.leaf_update leaf) i;
          mint_args = sym (laws.metadata_args m.mint_args n.mint_args args) i;
          authority = sym (bytes_eq→eq m.authority n.authority authority) i;
          creator_signature = none;
        },
        signatures_eq_sound m.creator_signature n.creator_signature d d' signatures,
      )

  entries_eq_sound :
      (ms ns : List (BatchMintInstruction x))
      → All HasDistinctSigners ms
      → All HasDistinctSigners ns
      → vec_eq (instruction_eq x eq) ms ns ≡ true
      → (map (unsigned x) ns ≡ map (unsigned x) ms) × AllPairs (SameSignatures x) ms ns
  unfolding vec_eq
  entries_eq_sound [] [] d d' h = (refl, tt)
  entries_eq_sound [] (n ∷ ns) d d' h = cc
  entries_eq_sound (m ∷ ms) [] d d' h = cc
  entries_eq_sound (m ∷ ms) (n ∷ ns) (d, ds) (d', ds') h =
      let (here, others) = both (instruction_eq x eq m n) _ h in
      let (entry, signatures) = instruction_eq_sound m n d d' here in
      let (entries, all_signatures) = entries_eq_sound ms ns ds ds' others in
      ((λ i. entry i ∷ entries i), (signatures, all_signatures))

  batch_mint_eq-IsSameBatch :
      (bm other : BatchMint x)
      → All HasDistinctSigners bm.batch_mints
      → All HasDistinctSigners other.batch_mints
      → batch_mint_eq x eq bm other ≡ true
      → IsSameBatch x bm other
  unfolding batch_mint_eq
  batch_mint_eq-IsSameBatch bm other d d' h =
      let (h₁, last) = both _ (bytes_eq bm.last_leaf_hash other.last_leaf_hash) h in
      let (h₂, root) = both _ (bytes_eq bm.merkle_root other.merkle_root) h₁ in
      let (h₃, size) = both _ (bm.max_buffer_size == other.max_buffer_size) h₂ in
      let (h₄, depth) = both _ (bm.max_depth == other.max_depth) h₃ in
      let (tree_id, mints) =
        both _ (vec_eq (instruction_eq x eq) bm.batch_mints other.batch_mints) h₄ in
      let (entries, signatures) = entries_eq_sound bm.batch_mints other.batch_mints d d' mints in
      record {
        tree_id = sym (bytes_eq→eq bm.tree_id other.tree_id tree_id);
        entries = entries;
        signatures = signatures;
        max_depth = sym ((==_iff bm.max_depth other.max_depth).0 depth);
        max_buffer_size = sym ((==_iff bm.max_buffer_size other.max_buffer_size).0 size);
        merkle_root = sym (bytes_eq→eq bm.merkle_root other.merkle_root root);
      }

  -- If values of other packages that are found equal are the same, and no key signs an entry
  -- twice: the validator answers alike for two batch mints that are found equal, with success or
  -- with the same error.
  pub validate-batch_mint_eq :
      (bm other : BatchMint x) (mint : Option Bytes)
      → All HasDistinctSigners bm.batch_mints
      → All HasDistinctSigners other.batch_mints
      → batch_mint_eq x eq bm other ≡ true
      → validate_batch_mint x other mint ≡ validate_batch_mint x bm mint
  validate-batch_mint_eq bm other mint d d' h =
      validate_same x bm other mint (batch_mint_eq-IsSameBatch bm other d d' h)
