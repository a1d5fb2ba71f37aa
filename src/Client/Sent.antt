-- ===== src/Client/Sent.antt =====
-- What `finalize_tree` of src/batch_mint_client.rs has sent when it returns.
use Prim.Native.String.{String}
use bubblegum_batch_sdk.Base.{
  ◌-◌, ◌%◌, ◌^◌, ◌≡◌, refl, sym, ap, ◌∙◌, arith, Option, none, some, List, [], ◌∷◌, ◌++◌, map,
  length, Bool-cases, inl, inr, Outcome, ok, map_err, >>=-eq-ok, ok_injective,
}
use bubblegum_batch_sdk.Base.Bytes.{Bytes}
use bubblegum_batch_sdk.Base.Maps.{values, length-values}
use mathlib.Core.List.{append-nil, append_assoc}
use bubblegum_batch_sdk.Deps.{Deps}
use bubblegum_batch_sdk.Deps.Laws.{HashLaws, TreeLaws}
use bubblegum_batch_sdk.Errors.{BatchMintError, solana_client_err}
use bubblegum_batch_sdk.Model.{BatchMint, CollectionConfig}
use bubblegum_batch_sdk.TreeData.{TreeDataInfo}
use bubblegum_batch_sdk.Builder.State.{BatchMintBuilder}
use bubblegum_batch_sdk.Builder.Building.{check_mints, build_batch_mint}
use bubblegum_batch_sdk.Validations.{validate_batch_mint}
use bubblegum_batch_sdk.Flow.Reach.{Reach}
use bubblegum_batch_sdk.Flow.Accepted.{expected_mint, validate-build_batch_mint}
use bubblegum_batch_sdk.Flow.Canopy.{asset_hashes, length-leaves}
use bubblegum_batch_sdk.Flow.Total.{merkle_root_lem}
use bubblegum_batch_sdk.Flow.LastLeaf.{Reach-KeepsLast, Reach-small}
use bubblegum_batch_sdk.Client.Canopy.{AddCanopy}
use bubblegum_batch_sdk.Client.Network.{
  Instruction, set_compute_unit_limit, add_canopy, FinalizeTree, Transaction, Network,
  and_then-eq-ok, derive_tree_config_account, get_registrar_key, get_voter_key, get_mining_key,
  new_transaction, sign_transaction, send_and_confirm_transaction,
}
use bubblegum_batch_sdk.Client.Finalize.{
  finalize_args, with_collection, finalize_tree_instruction, send_canopy, canopy_instructions,
  collection_signers, read_tree_data, finalize_tree,
}
use bubblegum_batch_sdk.Client.Expected.{
  tree_config_of, expected_args, expected_final, expected_signers, CompletesCanopy,
  canopy_instructions_sound, canopy_leaves-small,
}

-- What a transaction does, who pays for it and who signs.
pub record Order (x : Deps) : Type 0 where
  pub instructions : List Instruction
  pub payer : Bytes
  pub signers : List x.Keypair

module _ {x : Deps} where
  -- What the transactions do, in their order.
  abbrev pub instructions_of : List (Transaction x) → List (List Instruction)
  instructions_of sent = map (λ tx. tx.instructions) sent

  abbrev pub order_of : Transaction x → Order x
  order_of tx = record { instructions = tx.instructions; payer = tx.payer; signers = tx.signers }

  map_append :
      {A : Type 0} (f : Transaction x → A) (xs ys : List (Transaction x))
      → map f (xs ++ ys) ≡ map f xs ++ map f ys
  map_append f [] ys = refl
  map_append f (t ∷ ts) ys = ap (λ r. f t ∷ r) (map_append f ts ys)

module _ (x : Deps) (net : Network x) where
  sign_transaction_same :
      (tx : Transaction x) {tx' : Transaction x} → sign_transaction x net tx ≡ ok tx' → tx ≡ tx'
  unfolding sign_transaction
  sign_transaction_same tx h = elim (Bool-cases (net.can_sign tx)) [
    | inl signed ↦ ok_injective (rw signed at h)
    | inr unsigned ↦ cc (rw unsigned at h)
  ]

  new_transaction_order :
      (instructions : List Instruction) (payer : Bytes) (signers : List x.Keypair)
      (sent : List (Transaction x)) {tx : Transaction x}
      → new_transaction x net instructions payer signers sent ≡ ok tx
      → order_of tx ≡ record { instructions = instructions; payer = payer; signers = signers }
  unfolding new_transaction
  new_transaction_order instructions payer signers sent h =
      let (hash, e, h₁) =
        >>=-eq-ok (map_err {F = BatchMintError x} solana_client_err (net.get_latest_blockhash sent))
          _ h in
      ap order_of (sym (sign_transaction_same _ h₁))

  -- A transaction that is confirmed is the next one, in whatever respect orders are looked at.
  send_view :
      {A : Type 0} (f : Order x → A) (instructions : List Instruction) (payer : Bytes)
      (signers : List x.Keypair) (sent : List (Transaction x)) {signature : x.Signature}
      {sent' : List (Transaction x)}
      → send_and_confirm_transaction x net instructions payer signers sent ≡ (ok signature, sent')
      → map (λ tx. f (order_of tx)) sent'
        ≡ map (λ tx. f (order_of tx)) sent
          ++ f (record { instructions = instructions; payer = payer; signers = signers }) ∷ []
  unfolding send_and_confirm_transaction
  send_view f instructions payer signers sent h =
      let (tx, made, h₁) =
        and_then-eq-ok (new_transaction x net instructions payer signers sent, sent) _ h in
      ap
        (λ (r : Outcome (BatchMintError x) x.Signature × List (Transaction x)).
          map (λ tx. f (order_of tx)) r.1)
        (sym h₁)
      ∙ map_append (λ tx. f (order_of tx)) sent (tx ∷ [])
      ∙ ap (λ o. map (λ tx. f (order_of tx)) sent ++ f o ∷ [])
          (new_transaction_order instructions payer signers sent made)

  send_orders :
      (o : Order x) (sent : List (Transaction x)) {signature : x.Signature}
      {sent' : List (Transaction x)}
      → send_and_confirm_transaction x net o.instructions o.payer o.signers sent
        ≡ (ok signature, sent')
      → map order_of sent' ≡ map order_of sent ++ o ∷ []
  send_orders o sent h = send_view (λ p. p) o.instructions o.payer o.signers sent h

  pub send_instructions :
      (instructions : List Instruction) (payer : Bytes) (signers : List x.Keypair)
      (sent : List (Transaction x)) {signature : x.Signature} {sent' : List (Transaction x)}
      → send_and_confirm_transaction x net instructions payer signers sent ≡ (ok signature, sent')
      → instructions_of sent' ≡ instructions_of sent ++ instructions ∷ []
  send_instructions instructions payer signers sent h =
      send_view (λ o. o.instructions) instructions payer signers sent h

  -- The transaction that writes some canopy nodes: the tree's creator pays and signs.
  abbrev pub canopy_order : Bytes → x.Keypair → AddCanopy → Order x
  canopy_order tree creator i = record {
    instructions =
        set_compute_unit_limit 1000000
        ∷ add_canopy (tree_config_of x net tree) tree (x.pubkey creator) i
        ∷ [];
    payer = x.pubkey creator;
    signers = creator ∷ [];
  }

  -- The transaction that finalizes the tree.
  abbrev pub final_order :
      x.Keypair → String → String → BatchMintBuilder x → x.Keypair → x.Keypair → Order x
  final_order payer url hash b creator staker = record {
    instructions =
        set_compute_unit_limit 1000000
        ∷ expected_final x net b.collection_config
            (expected_args x net payer url hash b creator staker)
        ∷ [];
    payer = x.pubkey creator;
    signers = expected_signers x net b.collection_config payer creator staker;
  }

  send_canopy_orders :
      (tree : Bytes) (creator : x.Keypair) (is : List AddCanopy) (sent : List (Transaction x))
      {u : Unit {0}} {sent' : List (Transaction x)}
      → send_canopy x net (tree_config_of x net tree) tree creator is sent ≡ (ok u, sent')
      → map order_of sent' ≡ map order_of sent ++ map (canopy_order tree creator) is
  unfolding send_canopy
  send_canopy_orders tree creator [] sent h =
      ap (λ (r : Outcome (BatchMintError x) (Unit {0}) × List (Transaction x)). map order_of r.1)
        (sym h)
      ∙ sym (append-nil (map order_of sent))
  send_canopy_orders tree creator (i ∷ is) sent h =
      let o = canopy_order tree creator i in
      let first = send_and_confirm_transaction x net o.instructions o.payer o.signers sent in
      let (signature, e, h₁) = and_then-eq-ok first _ h in
      send_canopy_orders tree creator is first.1 h₁
      ∙ ap (λ r. r ++ map (canopy_order tree creator) is)
          (send_orders o sent (ap (λ r. (r, first.1)) e))
      ∙ append_assoc (map order_of sent) (o ∷ []) _

  signers_lem :
      (config : Option (CollectionConfig x)) (payer creator staker : x.Keypair)
      → (payer ∷ creator ∷ staker ∷ [] ++ collection_signers x net config)
        ≡ expected_signers x net config payer creator staker
  unfolding collection_signers
  signers_lem none payer creator staker = refl
  signers_lem (some c) payer creator staker = refl

  with_collection_lem :
      (config : Option (CollectionConfig x)) (args : FinalizeTree)
      → with_collection x net config args ≡ expected_final x net config args
  unfolding with_collection
  with_collection_lem none args = refl
  with_collection_lem (some c) args = refl

module _ (x : Deps) (net : Network x) (trees : TreeLaws x) (laws : HashLaws x) where
  finalize_args_lem :
      (payer : x.Keypair) (url hash : String) (b : BatchMintBuilder x) (bm : BatchMint x)
      (creator staker : x.Keypair)
      → Reach x b
      → build_batch_mint x b ≡ ok bm
      → finalize_args x net payer bm url hash
          (x.merkle.get_rightmost_proof b.merkle)
          (tree_config_of x net b.tree_account)
          (x.pubkey staker)
          (x.pubkey creator)
        ≡ expected_args x net payer url hash b creator staker
  unfolding finalize_args build_batch_mint get_registrar_key get_voter_key get_mining_key
  finalize_args_lem payer url hash b bm creator staker r built =
      let (u, checked, made) =
        >>=-eq-ok (check_mints x b.collection_config (values b.mints)) _ built in
      let same = sym (ok_injective made) in
      let count = ap (λ m. length m.batch_mints) same in
      let total = length-leaves x (values b.mints) in
      let mints = length-values b.mints in
      let small = Reach-small x trees laws r in
      let index : length bm.batch_mints % 2 ^ 32 - 1 ≡ length (asset_hashes x b) - 1 =
        omega (arith, count, total, mints, small) in
      let root = merkle_root_lem x trees laws b bm r built in
      let last = ap (λ m. m.last_leaf_hash) same ∙ Reach-KeepsLast x laws r in
      λ i. record (expected_args x net payer url hash b creator staker) {
        merkle_tree = (same i).tree_id;
        root = root i;
        rightmost_leaf = last i;
        rightmost_index = index i;
      }

  -- Over a tree and hashes that behave as documented: when `finalize_tree` succeeds on a builder
  -- that can be reached, its batch mint is one that the validator accepts, and it has sent the
  -- following and nothing else. First, if the account has a canopy, one transaction for each of
  -- a row of instructions with at most 24 canopy nodes that write on without a gap, and with
  -- what the account stores before them make up the builder's canopy. Then one transaction that
  -- finalizes the tree with the root of the merkle tree over the hashes of all assets, the last
  -- of these hashes and its index. The creator of the tree pays for all of them, and the last
  -- one is also signed by the payer, the staker and, if there is one, the authority of the
  -- collection.
  pub finalize_tree_sends :
      (payer : x.Keypair) (metadata_url metadata_hash : String) (b : BatchMintBuilder x)
      (tree_creator staker : x.Keypair) (sent sent' : List (Transaction x))
      (signature : x.Signature)
      → Reach x b
      → finalize_tree x net payer metadata_url metadata_hash b tree_creator staker sent
        ≡ (ok signature, sent')
      → (info : TreeDataInfo) × (is : List AddCanopy) × (bm : BatchMint x) × (read_tree_data x net
            b.tree_account sent
          ≡ ok info)
        × CompletesCanopy x net info b is
        × (build_batch_mint x b ≡ ok bm)
        × (validate_batch_mint x bm (expected_mint x b.collection_config) ≡ ok tt)
        × (map order_of sent'
            ≡ (map order_of sent ++ map (canopy_order x net b.tree_account tree_creator) is)
              ++ final_order x net payer metadata_url metadata_hash b tree_creator staker ∷ [])
  unfolding finalize_tree finalize_tree_instruction derive_tree_config_account
  finalize_tree_sends payer url hash b creator staker sent sent' signature r h =
      let config = tree_config_of x net b.tree_account in
      let (info, read, h₁) = and_then-eq-ok (read_tree_data x net b.tree_account sent, sent) _ h in
      let (is, found, h₂) = and_then-eq-ok (canopy_instructions x net info b, sent) _ h₁ in
      let canopy = send_canopy x net config b.tree_account creator is sent in
      let (u, written, h₃) = and_then-eq-ok canopy _ h₂ in
      let (i, instruction, h₄) =
        and_then-eq-ok
          (
            finalize_tree_instruction x net payer b url hash (x.merkle.get_rightmost_proof b.merkle)
                config (x.pubkey staker) (x.pubkey creator),
            canopy.1,
          )
          _ h₃ in
      let (bm, built, made) = >>=-eq-ok (build_batch_mint x b) _ instruction in
      let final : i
          ≡ expected_final x net b.collection_config
              (expected_args x net payer url hash b creator staker) =
        sym (ok_injective made)
        ∙ with_collection_lem x net b.collection_config _
        ∙ ap (expected_final x net b.collection_config)
            (finalize_args_lem payer url hash b bm creator staker r built) in
      let sent_last : Order x = record {
        instructions = set_compute_unit_limit 1000000 ∷ i ∷ [];
        payer = x.pubkey creator;
        signers = payer ∷ creator ∷ staker ∷ [] ++ collection_signers x net b.collection_config;
      } in
      (
        info,
        is,
        bm,
        read,
        canopy_instructions_sound x net info b (canopy_leaves-small x trees laws b r) found,
        built,
        validate-build_batch_mint x laws b bm r built,
        send_orders x net sent_last canopy.1 h₄
            ∙ ap (λ before. before ++ sent_last ∷ [])
                (send_canopy_orders x net b.tree_account creator is sent
                  (ap (λ o. (o, canopy.1)) written))
            ∙ (λ k.
                (map order_of sent ++ map (canopy_order x net b.tree_account creator) is)
                ++ record sent_last {
                  instructions = set_compute_unit_limit 1000000 ∷ final k ∷ [];
                  signers = signers_lem x net b.collection_config payer creator staker k;
                }
                  ∷ []),
      )
