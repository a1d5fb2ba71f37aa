-- ===== src/Validations/Spec.antt =====
-- What it means for a batch mint to be valid, with no reference to the validator's code: each asset is
-- authentic, and the log of each asset is that of a run of the merkle tree over the assets'
-- hashes.
use bubblegum_batch_sdk.Base.{◌≡◌, true, Option, none, some, List, [], ◌∷◌, map, All, ok}
use bubblegum_batch_sdk.Base.Bytes.{Bytes}
use bubblegum_batch_sdk.Base.Maps.{HashMap, get}
use bubblegum_batch_sdk.Deps.{Deps}
use bubblegum_batch_sdk.Deps.Data.{Creator, Collection, ChangeLog}
use bubblegum_batch_sdk.Model.{BatchMint, BatchMintInstruction, from_spl}
use bubblegum_batch_sdk.MerkleTree.{make_concurrent_merkle_tree}
use bubblegum_batch_sdk.Builder.Hashing.{data_hash_of, creator_hash_of, hashes_of, get_message}
use bubblegum_batch_sdk.Builder.Changelog.{make_changelog_path}
use bubblegum_batch_sdk.Builder.Signatures.{signatures_or_default}

module _ (x : Deps) where
  -- The message that the creators of the asset sign.
  unfoldable pub message_of : Bytes → BatchMintInstruction x → Bytes → Bytes
  message_of tree_id m args = get_message (
      hashes_of x m.leaf_update.nonce tree_id m.leaf_update.owner m.leaf_update.delegate m.mint_args
        args)

  -- The leaf of the asset is derived from the tree, the nonce and the arguments.
  pub record IsHashed (tree_id : Bytes) (m : BatchMintInstruction x) (args : Bytes) : Type 0 where
    pub serialized : x.try_to_vec m.mint_args ≡ ok args
    pub id_eq : m.leaf_update.id ≡ x.get_asset_id tree_id m.leaf_update.nonce
    pub data_hash_eq :
        m.leaf_update.data_hash ≡ data_hash_of x args m.mint_args.seller_fee_basis_points
    pub creator_hash_eq : m.leaf_update.creator_hash ≡ creator_hash_of x m.mint_args.creators

  -- A creator that is marked as verified has signed the message.
  abbrev pub HasSigned : Bytes → HashMap x.Signature → Creator → Type 0
  HasSigned msg signatures c =
      c.verified ≡ true
      → (s : x.Signature) × (get c.address signatures ≡ some s) × (x.verify s c.address msg ≡ true)

  -- A collection that is marked as verified is the expected one.
  abbrev pub IsExpected : Option Bytes → Option Collection → Type 0
  IsExpected mint none = Unit
  IsExpected mint (some c) = c.verified ≡ true → mint ≡ some c.key

  pub record IsAuthentic (tree_id : Bytes) (collection_mint : Option Bytes)
      (m : BatchMintInstruction x) : Type 0 where
    pub args : Bytes
    pub hashed : IsHashed tree_id m args
    pub collection : IsExpected collection_mint m.mint_args.collection
    pub signed :
        All
          (HasSigned (message_of tree_id m args) (signatures_or_default m.creator_signature))
          m.mint_args.creators

  -- A run of the tree over the hashes of the assets, whose changelogs meet `P`.
  abbrev pub Run :
      (x.Tree → ChangeLog → BatchMintInstruction x → Type 0)
      → x.Tree
      → List (BatchMintInstruction x)
      → x.Tree
      → Type 0
  Run P t [] t' = t ≡ t'
  Run P t (m ∷ ms) t' =
      (root : Bytes) × (next : x.Tree) × (c : ChangeLog) × (x.merkle.append t
          (x.leaf_hash m.leaf_update)
        ≡ ok (root, next))
      × (x.merkle.change_logs next (x.merkle.active_index next) ≡ some c)
      × P next c m
      × Run P next ms t'

  -- The entry holds the path, the tree and the index of the changelog.
  abbrev pub IsLogged : Bytes → x.Tree → ChangeLog → BatchMintInstruction x → Type 0
  IsLogged tree_id t c m =
      (m.tree_update.path ≡ map from_spl (make_changelog_path c))
      × (m.tree_update.id ≡ tree_id)
      × (m.tree_update.index ≡ c.index)

  pub record IsValidBatch (bm : BatchMint x) (collection_mint : Option Bytes) : Type 0 where
    pub authentic : All (IsAuthentic bm.tree_id collection_mint) bm.batch_mints
    pub empty_tree : x.Tree
    pub made : make_concurrent_merkle_tree x bm.max_depth bm.max_buffer_size ≡ ok empty_tree
    pub first_root : Bytes
    pub start : x.Tree
    pub initialized : x.merkle.initialize empty_tree ≡ ok (first_root, start)
    pub final : x.Tree
    pub run : Run (IsLogged bm.tree_id) start bm.batch_mints final
    pub root_eq : x.merkle.get_root final ≡ bm.merkle_root
