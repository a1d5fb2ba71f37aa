-- ===== src/Deps/Laws.antt =====
-- Documented behaviour of other packages, as the hypotheses of the theorems that rely on it.
use bubblegum_batch_sdk.Base.{ℕ, ◌^◌, ◌≡◌, ◌≢◌, ◌<◌, true, List, [], ◌∷◌, ◌++◌, length, some, ok}
use bubblegum_batch_sdk.Base.Bytes.{Bytes, to_le_bytes}
use bubblegum_batch_sdk.Deps.{Deps}
use bubblegum_batch_sdk.Deps.Merkle.{node, path_from}
use bubblegum_batch_sdk.MerkleTree.Sizes.{is_supported}
use bubblegum_batch_sdk.Deps.Data.{LeafSchema}

-- `LeafSchema::hash` hashes the version, 1, and the fields in their order.
pub record HashLaws (x : Deps) : Type 0 where
  pub leaf_hash_lem :
      (s : LeafSchema)
      → x.leaf_hash s
        ≡ x.hashv (
            (1 ∷ [])
            ∷ s.id
            ∷ s.owner
            ∷ s.delegate
            ∷ to_le_bytes 8 s.nonce
            ∷ s.data_hash
            ∷ s.creator_hash
            ∷ [])

-- A concurrent merkle tree of depth d that `Holds` a list of leaves is the merkle tree over
-- them. A new tree of a supported size holds none. It takes leaves until it is full, except for
-- the empty node; the changelog of its last change has the number of the leaf, the nodes on its
-- way up, and the new root.
pub record TreeLaws (x : Deps) : Type 1 where
  pub Holds : ℕ → x.Tree → List Bytes → Type 0
  pub initialize_total :
      (d s : ℕ)
      → is_supported d s ≡ true
      → (root : Bytes) × (t : x.Tree) × (x.merkle.initialize (x.new_tree d s) ≡ ok (root, t))
  pub initialize_lem :
      (d s : ℕ) (root : Bytes) (t : x.Tree)
      → is_supported d s ≡ true
      → x.merkle.initialize (x.new_tree d s) ≡ ok (root, t)
      → Holds d t []
  pub append_total :
      (d : ℕ) (t : x.Tree) (leaves : List Bytes) (leaf : Bytes)
      → Holds d t leaves
      → length leaves < 2 ^ d
      → leaf ≢ x.empty
      → (root : Bytes) × (t' : x.Tree) × (x.merkle.append t leaf ≡ ok (root, t'))
  pub append_lem :
      (d : ℕ) (t t' : x.Tree) (leaves : List Bytes) (leaf root : Bytes)
      → Holds d t leaves
      → x.merkle.append t leaf ≡ ok (root, t')
      → Holds d t' (leaves ++ leaf ∷ [])
        × (length leaves < 2 ^ d)
        × (x.merkle.change_logs t' (x.merkle.active_index t')
            ≡ some (record {
              index = length leaves;
              root = node x d 0 (leaves ++ leaf ∷ []);
              path = path_from x d 0 (length leaves) (leaves ++ leaf ∷ []);
            }))
  pub get_root_lem :
      (d : ℕ) (t : x.Tree) (leaves : List Bytes)
      → Holds d t leaves
      → x.merkle.get_root t ≡ node x d 0 leaves
