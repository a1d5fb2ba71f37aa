-- ===== src/Builder/Hashing.antt =====
-- src/batch_mint_builder.rs: `MetadataArgsHash`, `hash_metadata_args` and the message that creators
-- sign.
use bubblegum_batch_sdk.Base.{
  ℕ, List, [], ◌∷◌, ◌++◌, map, length, take, replicate, if◌then◌else◌, Outcome, ok, unwrap, ◌>>=◌,
  ◌-◌,
}
use bubblegum_batch_sdk.Base.Bytes.{Bytes, to_le_bytes, to_be_bytes, from_be_bytes}
use bubblegum_batch_sdk.Deps.{Deps, Metadata}
use bubblegum_batch_sdk.Deps.Data.{Creator, LeafSchema}
use Prim.Native.Nat.{min}

pub record MetadataArgsHash : Type 0 where
  pub id : Bytes
  pub nonce : ℕ
  pub data_hash : Bytes
  pub creator_hash : Bytes
  pub hashed_leaf : Bytes

-- `[c.address.as_ref(), &[c.verified as u8], &[c.share]].concat()`
unfoldable pub creator_bytes : Creator → Bytes
creator_bytes c = c.address ++ (if c.verified then 1 else 0) ∷ c.share ∷ []

module _ (x : Deps) where
  -- The hash of the arguments' bytes, and the fee once more.
  unfoldable pub data_hash_of : Bytes → ℕ → Bytes
  data_hash_of args seller_fee_basis_points =
      let metadata_args_hash = x.hashv (args ∷ []) in
      x.hashv (metadata_args_hash ∷ to_le_bytes 2 seller_fee_basis_points ∷ [])

  unfoldable pub creator_hash_of : List Creator → Bytes
  creator_hash_of creators = x.hashv (map creator_bytes creators)

  -- The hashes of an asset whose arguments are serialized as `args`.
  unfoldable pub hashes_of : ℕ → Bytes → Bytes → Bytes → Metadata x → Bytes → MetadataArgsHash
  hashes_of nonce tree_account owner delegate metadata_args args =
      let id = x.get_asset_id tree_account nonce in
      let data_hash = data_hash_of args metadata_args.seller_fee_basis_points in
      let creator_hash = creator_hash_of metadata_args.creators in
      record {
        id = id;
        nonce = nonce;
        data_hash = data_hash;
        creator_hash = creator_hash;
        hashed_leaf = x.hashv (
            (1 ∷ []) ∷ id ∷ owner ∷ delegate ∷ to_le_bytes 8 nonce ∷ data_hash ∷ creator_hash ∷ []);
      }

  unfoldable pub hash_metadata_args :
      {E : Type 0} → ℕ → Bytes → Bytes → Bytes → Metadata x → Outcome E MetadataArgsHash
  hash_metadata_args nonce tree_account owner delegate metadata_args = do
    args ← unwrap (x.try_to_vec metadata_args)
    ok (hashes_of nonce tree_account owner delegate metadata_args args)

  -- `MetadataArgsHash::new`
  unfoldable pub metadata_args_hash_new :
      {E : Type 0} → LeafSchema → Bytes → Metadata x → Outcome E MetadataArgsHash
  metadata_args_hash_new leaf_schema tree metadata_args =
      hash_metadata_args leaf_schema.nonce tree leaf_schema.owner leaf_schema.delegate metadata_args

unfoldable pub get_message : MetadataArgsHash → Bytes
get_message h = to_be_bytes 8 h.nonce ++ h.hashed_leaf

-- The first 8 bytes of the message, filled up with zeros at the end if there are fewer.
unfoldable pub get_nonce_from_message : Bytes → ℕ
get_nonce_from_message message =
    let len = min 8 (length message) in from_be_bytes 0 (take len message ++ replicate (8 - len) 0)
