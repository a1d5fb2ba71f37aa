-- ===== src/Validations/Generate.antt =====
-- src/batch_mint_validations.rs: `generate_batch_mint`, which makes a batch mint of random assets.
use Prim.Native.String.{String, ◌++◌ as append_text}
use bubblegum_batch_sdk.Base.{
  ℕ, zero, suc, ◌+◌, ◌-◌, ◌/◌, ◌%◌, ◌^◌, Bool, false, none, some, List, [], ◌∷◌, ◌++◌, map,
  replicate, if◌then◌else◌, Outcome, ok, unwrap, expect, ◌>>=◌,
}
use bubblegum_batch_sdk.Base.Bytes.{Bytes, to_le_bytes}
use bubblegum_batch_sdk.Deps.{Deps, Metadata}
use bubblegum_batch_sdk.Deps.Data.{Creator, ChangeLog, path_len}
use bubblegum_batch_sdk.Model.{BatchMint, BatchMintInstruction, SplPathNode, from_spl}

-- What the random generator and `Pubkey::new_unique` answer for one asset.
pub record Draws : Type 0 where
  pub name : String
  pub symbol : String
  pub uri_tail : String
  pub seller_fee_basis_points : ℕ
  pub primary_sale_happened : Bool
  pub is_mutable : Bool
  pub no_edition_nonce : Bool
  pub edition_nonce : ℕ
  pub no_token_standard : Bool
  pub no_collection : Bool
  pub collection_key : Bytes
  pub creator_count : ℕ
  pub creator_address : ℕ → Bytes
  pub creator_share : ℕ → ℕ

-- `Pubkey::from_str`, `TokenStandard::NonFungible`, `TokenProgramVersion::Original`, and the draws by
-- the number of the asset.
pub record Generator (x : Deps) : Type 0 where
  pub pubkey_from_str : String → Outcome x.ParsePubkeyError Bytes
  pub non_fungible : x.TokenStandard
  pub original : x.TokenProgramVersion
  pub draws : ℕ → Draws

-- The creators from number j on.
unfoldable pub random_creators : Draws → ℕ → ℕ → List Creator
random_creators r zero j = []
random_creators r (suc n) j =
    record { address = r.creator_address j; verified = false; share = r.creator_share j }
    ∷ random_creators r n (suc j)

-- The enumeration of the path in the body of the loop, from level `lvl` on.
unfoldable pub generated_nodes : ℕ → ℕ → ℕ → List Bytes → List SplPathNode
generated_nodes len index lvl [] = []
generated_nodes len index lvl (n ∷ ns) =
    record { node = n; index = (2 ^ (len - lvl) + index / 2 ^ lvl) % 2 ^ 32 }
    ∷ generated_nodes len index (suc lvl) ns

unfoldable pub generated_path : ChangeLog → List SplPathNode
unfolding generated_nodes
generated_path changelog =
    generated_nodes (path_len changelog) changelog.index 0 changelog.path
    ++ record { node = changelog.root; index = 1 } ∷ []

module _ (x : Deps) (g : Generator x) where
  unfoldable pub random_args : Draws → Metadata x
  unfolding random_creators
  random_args r = record {
    name = r.name;
    symbol = r.symbol;
    uri = append_text "https://arweave.net/" r.uri_tail;
    seller_fee_basis_points = r.seller_fee_basis_points;
    primary_sale_happened = r.primary_sale_happened;
    is_mutable = r.is_mutable;
    edition_nonce = if r.no_edition_nonce then none else some r.edition_nonce;
    token_standard = if r.no_token_standard then none else some g.non_fungible;
    collection =
        if r.no_collection
        then none
        else some (record { verified = false; key = r.collection_key });
    uses = none;
    token_program_version = g.original;
    creators = random_creators r r.creator_count 0;
  }

-- The variables that the loop changes.
pub record Generated (x : Deps) : Type 0 where
  pub mints : List (BatchMintInstruction x)
  pub merkle : x.Tree
  pub last_leaf_hash : Bytes

module _ (x : Deps) where
  -- The body of the loop for asset number i.
  unfoldable pub generate_asset :
      {E : Type 0} → Bytes → Bytes → Metadata x → ℕ → Generated x → Outcome E (Generated x)
  unfolding generated_path
  generate_asset authority tree mint_args i s = do
    let nonce = i
    let id = x.get_asset_id tree nonce
    let owner = authority
    let delegate = authority
    args ← unwrap (x.try_to_vec mint_args)
    let metadata_args_hash = x.hashv (args ∷ [])
    let data_hash =
        x.hashv (metadata_args_hash ∷ to_le_bytes 2 mint_args.seller_fee_basis_points ∷ [])
    let creator_data =
        map (λ (c : Creator). c.address ++ (if c.verified then 1 else 0) ∷ c.share ∷ [])
          mint_args.creators
    let creator_hash = x.hashv creator_data
    let hashed_leaf =
        x.hashv
          ((1 ∷ []) ∷ id ∷ owner ∷ delegate ∷ to_le_bytes 8 nonce ∷ data_hash ∷ creator_hash ∷ [])
    appended ← unwrap (x.merkle.append s.merkle hashed_leaf)
    changelog ← expect (x.merkle.change_logs appended.1 (x.merkle.active_index appended.1))
    let path = generated_path changelog
    let rolled_mint : BatchMintInstruction x = record {
      tree_update = record {
        id = tree;
        path = map from_spl path;
        seq = x.merkle.sequence_number appended.1;
        index = changelog.index;
      };
      leaf_update = record {
        id = id;
        owner = owner;
        delegate = delegate;
        nonce = nonce;
        data_hash = data_hash;
        creator_hash = creator_hash;
      };
      mint_args = mint_args;
      authority = authority;
      creator_signature = none;
    }
    ok (record {
      mints = s.mints ++ rolled_mint ∷ [];
      merkle = appended.1;
      last_leaf_hash = hashed_leaf;
    })

module _ (x : Deps) (g : Generator x) where
  -- The rounds that are left, from asset number i on.
  unfoldable pub generate_assets :
      {E : Type 0} → Bytes → Bytes → ℕ → ℕ → Generated x → Outcome E (Generated x)
  unfolding random_args
  generate_assets authority tree zero i s = ok s
  generate_assets authority tree (suc n) i s = do
    s' ← generate_asset x authority tree (random_args x g (g.draws i)) i s
    generate_assets authority tree n (suc i) s'

  unfoldable pub generate_batch_mint : {E : Type 0} → ℕ → Outcome E (BatchMint x)
  generate_batch_mint size = do
    authority ← unwrap (g.pubkey_from_str "3VvLDXqJbw3heyRwFxv8MmurPznmDVUJS9gPMX2BDqfM")
    tree ← unwrap (g.pubkey_from_str "HxhCw9g3kZvrdg9zZvctmh6qpSDg1FfsBXfFvRkbCHB7")
    initialized ← unwrap (x.merkle.initialize (x.new_tree 10 32))
    s ←
        generate_assets authority tree size 0
          (record { mints = []; merkle = initialized.1; last_leaf_hash = replicate 32 0 })
    ok (record {
      tree_id = tree;
      raw_metadata_map = [];
      max_depth = 10;
      batch_mints = s.mints;
      merkle_root = x.merkle.get_root s.merkle;
      last_leaf_hash = s.last_leaf_hash;
      max_buffer_size = 32;
    })
