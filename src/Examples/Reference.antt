-- ===== src/Examples/Reference.antt =====
-- Simple functions for what `Deps` takes from other packages, which meet the laws: a hash that adds
-- up bytes, and a tree that keeps all its leaves.
use bubblegum_batch_sdk.Base.{
  ℕ, zero, suc, ◌+◌, ◌-◌, ◌*◌, ◌/◌, ◌%◌, ◌^◌, ◌<◌, ◌≡◌, ◌≢◌, refl, sym, ap, arith, Bool, not, ◌&&◌,
  some, List, [], ◌∷◌, ◌++◌, length, length-snoc, replicate, get_or, ltb, lt→ltb, ltb→lt,
  if◌then◌else◌, inl, inr, Bool-cases, Outcome, ok, err, ok_injective,
}
use bubblegum_batch_sdk.Base.Bytes.{Bytes, to_le_bytes, bytes_eq, bytes_eq→eq}
use bubblegum_batch_sdk.Deps.{Deps}
use bubblegum_batch_sdk.Deps.Data.{LeafSchema, ITree, ChangeLog, MerkleTree}
use bubblegum_batch_sdk.Deps.Merkle.{node, path_from}
use bubblegum_batch_sdk.Deps.Laws.{HashLaws, TreeLaws}
use mathlib.Core.Path.{ap₂}

abbrev total : Bytes → ℕ
total [] = 0
total (b ∷ bs) = b + total bs

abbrev totals : List Bytes → ℕ
totals [] = 1
totals (b ∷ bs) = total b + 3 * totals bs

-- One byte, so no hash is the empty node.
abbrev pub hashv : List Bytes → Bytes
hashv bs = totals bs % 256 ∷ []

abbrev empty : Bytes
empty = replicate 32 0

abbrev leaf_hash : LeafSchema → Bytes
leaf_hash s = hashv (
    (1 ∷ [])
    ∷ s.id
    ∷ s.owner
    ∷ s.delegate
    ∷ to_le_bytes 8 s.nonce
    ∷ s.data_hash
    ∷ s.creator_hash
    ∷ [])

abbrev node_of : ℕ → ℕ → List Bytes → Bytes
node_of zero i leaves = get_or leaves i empty
node_of (suc level) i leaves =
    hashv (node_of level (2 * i) leaves ∷ node_of level (2 * i + 1) leaves ∷ [])

abbrev path_of : ℕ → ℕ → ℕ → List Bytes → List Bytes
path_of zero level i leaves = []
path_of (suc k) level i leaves =
    node_of level (i / 2 ^ level) leaves ∷ path_of k (suc level) i leaves

-- The depth and the leaves.
abbrev pub LeafTree : Type 0
LeafTree = ℕ × List Bytes

abbrev has_room : LeafTree → Bytes → Bool
has_room (d, leaves) leaf = ltb (length leaves) (2 ^ d) && not (bytes_eq leaf empty)

abbrev log_of : LeafTree → ChangeLog
log_of (d, leaves) = record {
  index = length leaves - 1;
  root = node_of d 0 leaves;
  path = path_of d 0 (length leaves - 1) leaves;
}

abbrev merkle : ITree LeafTree (Unit {0})
merkle = record {
  initialize = λ t. ok (node_of t.0 0 [], (t.0, []));
  append = λ t leaf.
      if has_room t leaf
      then ok (node_of t.0 0 (t.1 ++ leaf ∷ []), (t.0, t.1 ++ leaf ∷ []))
      else err tt;
  active_index = λ t. 0;
  change_logs = λ t i. some (log_of t);
  sequence_number = λ t. length t.1;
  get_root = λ t. node_of t.0 0 t.1;
  get_rightmost_proof = λ t. [];
}

-- The first two bytes of an account are the depth and the buffer size.
abbrev parse : Bytes → Outcome (Unit {0}) MerkleTree
parse [] = err tt
parse (d ∷ []) = err tt
parse (d ∷ s ∷ bytes) = ok (record { max_depth = d; max_buffer_size = s; serialized_tree = bytes })

abbrev pub reference : Deps
reference = record {
  TokenStandard = Unit {0};
  Uses = Unit {0};
  TokenProgramVersion = Unit {0};
  Signature = Bytes;
  Keypair = Bytes;
  RawValue = Unit {0};
  ClientError = Unit {0};
  IoError = Unit {0};
  ParsePubkeyError = Unit {0};
  NestedError = Unit {0};
  TreeError = Unit {0};
  Tree = LeafTree;
  new_tree = λ d s. (d, []);
  tree_size = λ d s. 4;
  merkle = merkle;
  header_size = 2;
  max_acc_proofs_size = 17;
  empty = empty;
  hashv = hashv;
  try_to_vec = λ m. ok (m.seller_fee_basis_points % 256 ∷ length m.creators ∷ []);
  get_asset_id = λ tree nonce. tree ++ nonce ∷ [];
  leaf_hash = leaf_hash;
  verify = λ s key msg. bytes_eq s (key ++ msg);
  pubkey = λ k. k;
  merkle_tree_from_bytes = parse;
  key_to_string = λ k. "key";
  hash_to_string = λ h. "hash";
  client_error_to_string = λ e. "client";
  io_error_to_string = λ e. "io";
  parse_pubkey_error_to_string = λ e. "pubkey";
  nested_error_to_string = λ e. "nested";
  tree_error_to_string = λ e. "tree";
}

pub reference_hash_laws : HashLaws reference
reference_hash_laws = record { leaf_hash_lem = λ s. refl }

node_of-node :
    (level i : ℕ) (leaves : List Bytes) → node_of level i leaves ≡ node reference level i leaves
unfolding node
node_of-node zero i leaves = refl
node_of-node (suc level) i leaves =
    ap₂ (λ a b. hashv (a ∷ b ∷ [])) (node_of-node level (2 * i) leaves)
      (node_of-node level (2 * i + 1) leaves)

path_of-path_from :
    (k level i : ℕ) (leaves : List Bytes)
    → path_of k level i leaves ≡ path_from reference k level i leaves
unfolding path_from
path_of-path_from zero level i leaves = refl
path_of-path_from (suc k) level i leaves =
    ap₂ (λ a b. a ∷ b) (node_of-node level (i / 2 ^ level) leaves)
      (path_of-path_from k (suc level) i leaves)

Appended : LeafTree → Bytes → LeafTree → Type 0
Appended t leaf t' = (length t.1 < 2 ^ t.0) × (t' ≡ (t.0, t.1 ++ leaf ∷ []))

append-Appended :
    (t t' : LeafTree) (leaf root : Bytes)
    → merkle.append t leaf ≡ ok (root, t')
    → Appended t leaf t'
unfolding Appended
append-Appended t t' leaf root h = elim (Bool-cases (ltb (length t.1) (2 ^ t.0))) [
  | inl room ↦ elim (Bool-cases (bytes_eq leaf empty)) [
    | inl same ↦ cc (rw (room, same) at h)
    | inr other ↦ (
      ltb→lt _ _ room,
      ap (λ (p : Bytes × LeafTree). p.1) (sym (ok_injective (rw (room, other) at h))),
    )
  ]
  | inr full ↦ cc (rw full at h)
]

append_succeeds :
    (t : LeafTree) (leaf : Bytes)
    → length t.1 < 2 ^ t.0
    → leaf ≢ empty
    → merkle.append t leaf ≡ ok (node_of t.0 0 (t.1 ++ leaf ∷ []), (t.0, t.1 ++ leaf ∷ []))
append_succeeds t leaf room nonempty = elim (Bool-cases (bytes_eq leaf empty)) [
  | inl same ↦ absurd (nonempty (bytes_eq→eq leaf empty same))
  | inr other ↦ rw (lt→ltb _ _ room, other)
]

log_of_append :
    (d : ℕ) (leaves : List Bytes) (leaf : Bytes)
    → log_of (d, leaves ++ leaf ∷ []) ≡ record {
      index = length leaves;
      root = node reference d 0 (leaves ++ leaf ∷ []);
      path = path_from reference d 0 (length leaves) (leaves ++ leaf ∷ []);
    }
log_of_append d leaves leaf =
    let count : length (leaves ++ leaf ∷ []) - 1 ≡ length leaves =
      omega (arith, length-snoc leaves leaf) in
    rw (
      count,
      node_of-node d 0 (leaves ++ leaf ∷ []),
      path_of-path_from d 0 (length leaves) (leaves ++ leaf ∷ []),
    )

pub reference_tree_laws : TreeLaws reference
unfolding Appended
reference_tree_laws = record {
  Holds = λ d t leaves. t ≡ (d, leaves);
  initialize_total = λ d s supported. (node_of d 0 [], (d, []), refl);
  initialize_lem =
      λ d s root t supported h. ap (λ (p : Bytes × LeafTree). p.1) (sym (ok_injective h));
  append_total = λ d t leaves leaf holds room nonempty. (
    node_of t.0 0 (t.1 ++ leaf ∷ []),
    (t.0, t.1 ++ leaf ∷ []),
    append_succeeds t leaf (rw holds room) nonempty,
  );
  append_lem = λ d t t' leaves leaf root holds h.
      let (room, made) = append-Appended t t' leaf root h in
      let made' : t' ≡ (d, leaves ++ leaf ∷ []) = rw holds at made in
      (made', rw holds at room, rw made' (ap some (log_of_append d leaves leaf)));
  get_root_lem = λ d t leaves holds. rw holds (node_of-node d 0 leaves);
}
