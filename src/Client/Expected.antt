-- ===== src/Client/Expected.antt =====
-- What has to be sent to finalize a tree: the arguments of src/batch_mint_client.rs in terms of the
-- merkle tree over the builder's assets, and the canopy nodes that an account lacks.
use Prim.Native.String.{String}
use bubblegum_batch_sdk.Base.{
  ℕ, zero, suc, ◌+◌, ◌-◌, ◌*◌, ◌^◌, ◌≤◌, ◌<◌, ◌≡◌, sym, ap, ◌∙◌, subst, arith, ◌⊎◌, inl, inr,
  Bool-cases, Option, none, some, List, [], ◌∷◌, ◌++◌, length, take, length-take, length-append,
  ltb, ltb→lt, leb, leb→le, ok, >>=-eq-ok, ok_injective,
}
use bubblegum_batch_sdk.Base.Bytes.{Bytes}
use bubblegum_batch_sdk.Base.Pow.{pow_pos}
use bubblegum_batch_sdk.Base.Maps.{values, length-values}
use bubblegum_batch_sdk.Deps.{Deps}
use bubblegum_batch_sdk.Deps.Laws.{HashLaws, TreeLaws}
use bubblegum_batch_sdk.Deps.Merkle.{node}
use bubblegum_batch_sdk.Model.{CollectionConfig}
use bubblegum_batch_sdk.TreeData.{TreeDataInfo, non_empty_canopy_leaves}
use bubblegum_batch_sdk.Builder.State.{BatchMintBuilder}
use bubblegum_batch_sdk.Builder.Canopy.{IsCanopy}
use bubblegum_batch_sdk.Flow.Reach.{Reach}
use bubblegum_batch_sdk.Flow.Canopy.{asset_hashes, length-leaves, Reach-IsTracked}
use bubblegum_batch_sdk.Flow.LastLeaf.{last_hash, Reach-small}
use bubblegum_batch_sdk.Client.Canopy.{AddCanopy, calc_canopy_to_add, add_canopy_instructions}
use bubblegum_batch_sdk.Client.CanopyWrites.{
  IsContiguous, all_nodes, calc_canopy_to_add-Completes, add_canopy_instructions_lem,
}
use bubblegum_batch_sdk.Client.Network.{
  Instruction, finalize_tree_with_root, finalize_tree_with_root_and_collection, FinalizeTree,
  Network,
}
use bubblegum_batch_sdk.Client.Finalize.{canopy_instructions}

module _ (x : Deps) (net : Network x) where
  -- The addresses that programs derive.
  abbrev pub tree_config_of : Bytes → Bytes
  tree_config_of tree = net.find_program_address (tree ∷ []) net.bubblegum_id

  abbrev registrar : Bytes
  registrar =
      net.find_program_address (net.dao_pubkey ∷ net.registrar_seed ∷ net.dao_governing_mint ∷ [])
        net.staking_id

  -- The root is that of the merkle tree over the hashes of all assets, and the rightmost leaf is
  -- the last of these hashes, with its index.
  abbrev pub expected_args :
      x.Keypair → String → String → BatchMintBuilder x → x.Keypair → x.Keypair → FinalizeTree
  expected_args payer url hash b creator staker = record {
    merkle_tree = b.tree_account;
    tree_config = tree_config_of b.tree_account;
    staker = x.pubkey staker;
    fee_receiver = net.fee_receiver;
    tree_creator_or_delegate = x.pubkey creator;
    registrar = registrar;
    voter =
        net.find_program_address (registrar ∷ net.voter_seed ∷ x.pubkey payer ∷ []) net.staking_id;
    root = node x b.max_depth 0 (asset_hashes x b);
    rightmost_leaf = last_hash (asset_hashes x b);
    rightmost_index = length (asset_hashes x b) - 1;
    metadata_url = url;
    metadata_hash = hash;
    remaining_accounts = x.merkle.get_rightmost_proof b.merkle;
    mining =
        net.find_mining_program_address net.rewards_id (x.pubkey staker) net.reward_pool_address;
    payer = x.pubkey payer;
  }

  abbrev pub expected_final : Option (CollectionConfig x) → FinalizeTree → Instruction
  expected_final none args = finalize_tree_with_root args
  expected_final (some c) args = finalize_tree_with_root_and_collection args (record {
    collection_authority = x.pubkey c.collection_authority;
    collection_mint = c.collection_mint;
    collection_edition = c.edition_account;
    collection_metadata = c.collection_metadata;
    collection_authority_record_pda = c.collection_authority_record_pda;
  })

  -- With a collection its authority signs too.
  abbrev pub expected_signers :
      Option (CollectionConfig x) → x.Keypair → x.Keypair → x.Keypair → List x.Keypair
  expected_signers none payer creator staker = payer ∷ creator ∷ staker ∷ []
  expected_signers (some c) payer creator staker =
      payer ∷ creator ∷ staker ∷ c.collection_authority ∷ []

  -- Nothing is written without a canopy. With one, the instructions write on without a gap from
  -- a place within the nodes that are stored, and with what is stored before that place their
  -- nodes are all of the builder's canopy.
  abbrev pub CompletesCanopy : TreeDataInfo → BatchMintBuilder x → List AddCanopy → Type 0
  CompletesCanopy info b is =
      ((info.canopy_depth ≡ 0) × (is ≡ []))
      ⊎ ((0 < info.canopy_depth)
          × (existing : List Bytes) × (offset : ℕ) × (non_empty_canopy_leaves x info ≡ ok existing)
          × (offset ≤ length existing)
          × IsContiguous offset is
          × (take offset existing ++ all_nodes is ≡ b.canopy_leaves))

  pub canopy_instructions_sound :
      (info : TreeDataInfo) (b : BatchMintBuilder x) {is : List AddCanopy}
      → length b.canopy_leaves < 2 ^ 32
      → canopy_instructions x net info b ≡ ok is
      → CompletesCanopy info b is
  unfolding canopy_instructions calc_canopy_to_add
  canopy_instructions_sound info b {is = is} small h = elim (Bool-cases (ltb 0 info.canopy_depth)) [
    | inr flat ↦
        let none_below : info.canopy_depth ≡ 0 = ground (arith, flat) in
        inl (none_below, sym (ok_injective (rw flat at h)))
    | inl deep ↦
        let (to_add, found, made) = >>=-eq-ok (calc_canopy_to_add x info b) _ (rw deep at h) in
        let (existing, read, skipped) = >>=-eq-ok (non_empty_canopy_leaves x info) _ found in
        let (fits, panics) = calc_canopy_to_add-Completes x info b existing read in
        elim (Bool-cases (leb (length existing) (length b.canopy_leaves))) [
          | inr more ↦ let stopped = panics (ground (arith, more)) in absurd (cc (stopped, found))
          | inl le ↦
              let (r, same, done) = fits (leb→le _ _ le) in
              let (within, whole) = done in
              let r_eq = ok_injective (sym same ∙ found) in
              let front = length-take r.1 existing within in
              let size = sym (length-append (take r.1 existing) r.0) ∙ ap length whole in
              let (contiguous, nodes) =
                add_canopy_instructions_lem r.0 r.1 (omega (arith, front, size, small)) in
              let is_eq : add_canopy_instructions r.0 r.1 ≡ is =
                ap (λ s. add_canopy_instructions s.0 s.1) r_eq ∙ ok_injective made in
              inr (
                ltb→lt 0 info.canopy_depth deep,
                existing,
                r.1,
                read,
                within,
                subst (IsContiguous r.1) is_eq contiguous,
                ap (λ is'. take r.1 existing ++ all_nodes is') (sym is_eq)
                    ∙ ap (λ ns. take r.1 existing ++ ns) nodes
                    ∙ whole,
              )
        ]
  ]

-- A number of blocks of which all but the last are full.
few_blocks : (n l p : ℕ) → 0 < p → l * p < n + p → l ≤ n
few_blocks n zero p pos h = omega arith
few_blocks zero (suc l) p pos h = absurd (grind arith)
few_blocks (suc n) (suc l) p pos h = omega (arith, few_blocks n l p pos (grind arith))

IsCanopy-small :
    (x : Deps) (level : ℕ) (leaves canopy : List Bytes)
    → IsCanopy x level leaves canopy
    → length canopy ≤ length leaves
IsCanopy-small x level leaves canopy c =
    few_blocks (length leaves) (length canopy) (2 ^ level) (pow_pos level) c.least

module _ (x : Deps) (trees : TreeLaws x) (laws : HashLaws x) where
  pub canopy_leaves-small : (b : BatchMintBuilder x) → Reach x b → length b.canopy_leaves < 2 ^ 32
  canopy_leaves-small b r =
      let t = Reach-IsTracked x trees laws r in
      let count = length-leaves x (values b.mints) ∙ length-values b.mints in
      let small = Reach-small x trees laws r in
      elim (Bool-cases (ltb 0 b.canopy_depth)) [
        | inl deep ↦
            let few =
              IsCanopy-small x (b.max_depth - b.canopy_depth) (asset_hashes x b) b.canopy_leaves
                (t.canopy.1 (ltb→lt 0 b.canopy_depth deep)) in
            omega (arith, few, count, small)
        | inr flat ↦
            let nothing = ap length (t.canopy.0 (ground (arith, flat))) in omega (arith, nothing)
      ]
