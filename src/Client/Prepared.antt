-- ===== src/Client/Prepared.antt =====
-- Which trees `prepare_tree` of src/batch_mint_client.rs prepares, and what it sends.
use bubblegum_batch_sdk.Base.{
  ℕ, ◌+◌, ◌-◌, ◌≤◌, ◌<◌, ◌≡◌, ◌↔◌, sym, subst, map_err-eq-ok, ap, arith, true, none, some, List, [],
  ◌∷◌, ◌++◌, ltb, leb, ltb→lt, lt→ltb, leb→le, le→leb, Bool-cases, inl, inr, if◌then◌else◌, ok,
  map_err, ok_injective,
}
use bubblegum_batch_sdk.Deps.{Deps}
use bubblegum_batch_sdk.Errors.{solana_client_err}
use bubblegum_batch_sdk.MerkleTree.{calc_canopy_size, calc_tree_data_account_size}
use bubblegum_batch_sdk.MerkleTree.Sizes.{is_supported, calc_merkle_tree_size_lem}
use bubblegum_batch_sdk.Client.Network.{
  create_account, prepare_tree_with, Transaction, Network, and_then-eq-ok,
  derive_tree_config_account,
}
use bubblegum_batch_sdk.Client.Prepare.{check_tree_size, prepare_tree}
use bubblegum_batch_sdk.Client.Sent.{instructions_of, send_instructions}

module _ (x : Deps) where
  -- The size of the account: the header, the tree, and the canopy.
  abbrev pub account_size : ℕ → ℕ → ℕ → ℕ
  account_size d s c = x.header_size + (x.tree_size d s + calc_canopy_size c)

  -- A canopy below the root, no more proofs than an instruction takes, and a tree that exists.
  pub record CanPrepare (d s c : ℕ) : Type 0 where
    pub below : c < d
    pub proofs : d ≤ c + x.max_acc_proofs_size
    pub supported : is_supported d s ≡ true

  calc_tree_data_account_size_lem :
      (d s c : ℕ)
      → calc_tree_data_account_size x d s c
        ≡ (if is_supported d s then some (account_size d s c) else none)
  unfolding calc_tree_data_account_size
  calc_tree_data_account_size_lem d s c =
      rw (calc_merkle_tree_size_lem x d s c)
        (elim (Bool-cases (is_supported d s)) [ inl y ↦ rw y | inr n ↦ rw n ])

  -- The checks are passed exactly for these trees, with the size of the account.
  pub check_tree_size_iff :
      (d s c n : ℕ)
      → (check_tree_size x d s c ≡ ok n) ↔ (CanPrepare d s c × (n ≡ account_size d s c))
  unfolding check_tree_size
  check_tree_size_iff d s c n = elim (Bool-cases (ltb c d)) [
    | inl below ↦ elim (Bool-cases (leb (d - x.max_acc_proofs_size) c)) [
      | inl proofs ↦ elim (Bool-cases (is_supported d s)) [
        | inl supported ↦ (
          λ h. (
            record {
              below = ltb→lt c d below;
              proofs = omega (arith, leb→le (d - x.max_acc_proofs_size) c proofs);
              supported = supported;
            },
            sym (
                ok_injective
                  (rw (below, proofs, calc_tree_data_account_size_lem d s c, supported) at h)),
          ),
          λ (p, e).
              rw (below, proofs, calc_tree_data_account_size_lem d s c, supported) (ap ok (sym e)),
        )
        | inr unsupported ↦ (
          λ h. cc (rw (below, proofs, calc_tree_data_account_size_lem d s c, unsupported) at h),
          λ (p, e). cc (p.supported, unsupported),
        )
      ]
      | inr many ↦ (
        λ h. cc (rw (below, many) at h),
        λ (p, e).
            let le = le→leb (d - x.max_acc_proofs_size) c (omega (arith, p.proofs)) in
            cc (le, many),
      )
    ]
    | inr above ↦ (λ h. cc (rw above at h), λ (p, e). let lt = lt→ltb c d p.below in cc (lt, above))
  ]

module _ (x : Deps) (net : Network x) where
  -- When `prepare_tree` succeeds, the tree is one that can be prepared, and one transaction has been
  -- sent, which makes an account of the size of the header, the tree and the canopy, and prepares the
  -- tree in it.
  pub prepare_tree_sends :
      (payer tree_creator tree_data_account : x.Keypair) (d s c : ℕ)
      (sent sent' : List (Transaction x)) (signature : x.Signature)
      → prepare_tree x net payer tree_creator tree_data_account d s c sent ≡ (ok signature, sent')
      → CanPrepare x d s c
        × (balance : ℕ) × (net.get_minimum_balance sent (account_size x d s c) ≡ ok balance)
        × (instructions_of sent'
            ≡ instructions_of sent
              ++ (create_account
                    (x.pubkey payer)
                    (x.pubkey tree_data_account)
                    balance
                    (account_size x d s c)
                  ∷ prepare_tree_with (record {
                    payer = x.pubkey tree_creator;
                    tree_creator = x.pubkey tree_creator;
                    max_depth = d;
                    max_buffer_size = s;
                    merkle_tree = x.pubkey tree_data_account;
                    tree_config = derive_tree_config_account x net (x.pubkey tree_data_account);
                  })
                  ∷ [])
                ∷ [])
  unfolding prepare_tree
  prepare_tree_sends payer creator account d s c sent sent' signature h =
      let (n, checked, h₁) = and_then-eq-ok (check_tree_size x d s c, sent) _ h in
      let (can, size) = (check_tree_size_iff x d s c n).0 checked in
      let (balance, answer, h₂) =
        and_then-eq-ok (map_err solana_client_err (net.get_minimum_balance sent n), sent) _ h₁ in
      (
        can,
        balance,
        subst (λ k. net.get_minimum_balance sent k ≡ ok balance) size
            (map_err-eq-ok solana_client_err _ answer),
        subst
            (λ k.
              instructions_of sent'
              ≡ instructions_of sent
                ++ (create_account (x.pubkey payer) (x.pubkey account) balance k
                    ∷ prepare_tree_with (record {
                      payer = x.pubkey creator;
                      tree_creator = x.pubkey creator;
                      max_depth = d;
                      max_buffer_size = s;
                      merkle_tree = x.pubkey account;
                      tree_config = derive_tree_config_account x net (x.pubkey account);
                    })
                    ∷ [])
                  ∷ [])
            size (send_instructions x net _ _ _ sent h₂),
      )
