-- ===== src/Flow/Runs.antt =====
-- Runs of the merkle tree over a list of entries, and entries under their numbers.
use bubblegum_batch_sdk.Base.{
  ℕ, ◌≡◌, refl, sym, ap, ◌∙◌, subst, inl, inr, Bool-cases, some_injective, some, List, [], ◌∷◌,
  ◌++◌, All, ok, ◌==◌,
}
use bubblegum_batch_sdk.Base.Bytes.{Bytes}
use bubblegum_batch_sdk.Base.Maps.{BTreeMap, lookup, put, values}
use bubblegum_batch_sdk.Deps.{Deps}
use bubblegum_batch_sdk.Deps.Data.{ChangeLog}
use bubblegum_batch_sdk.Model.{BatchMintInstruction}
use bubblegum_batch_sdk.Validations.Spec.{Run}

module _ (x : Deps) (P : x.Tree → ChangeLog → BatchMintInstruction x → Type 0) where
  -- One more entry at the end of a run.
  pub Run-snoc :
      (t t' : x.Tree) (ms : List (BatchMintInstruction x)) (m : BatchMintInstruction x)
      (root : Bytes) (next : x.Tree) (c : ChangeLog)
      → Run x P t ms t'
      → x.merkle.append t' (x.leaf_hash m.leaf_update) ≡ ok (root, next)
      → x.merkle.change_logs next (x.merkle.active_index next) ≡ some c
      → P next c m
      → Run x P t (ms ++ m ∷ []) next
  Run-snoc t t' [] m root next c run appended logged p =
      (root, next, c, rw run appended, logged, p, refl)
  Run-snoc t t' (n ∷ ms) m root next c (root', next', c', a, l, q, run) appended logged p =
      (root', next', c', a, l, q, Run-snoc next' t' ms m root next c run appended logged p)

  -- An entry may be replaced by one with the same leaf that meets `P` wherever the old one did.
  pub Run-put :
      (t t' : x.Tree) (k : ℕ) (mints : BTreeMap (BatchMintInstruction x))
      (m m' : BatchMintInstruction x)
      → lookup k mints ≡ some m
      → m'.leaf_update ≡ m.leaf_update
      → ((u : x.Tree) (c : ChangeLog) → P u c m → P u c m')
      → Run x P t (values mints) t'
      → Run x P t (values (put k m' mints)) t'
  unfolding lookup put values
  Run-put t t' k [] m m' found leaf keep run = run
  Run-put t t' k ((j, n) ∷ mints) m m' found leaf keep (root, next, c, a, l, p, run) =
      elim (Bool-cases (k == j)) [
        | inl here ↦
            let same : n ≡ m = some_injective (rw here at found) in
            let leaf_eq : n.leaf_update ≡ m'.leaf_update =
              ap (λ r. r.leaf_update) same ∙ sym leaf in
            rw here (
              root,
              next,
              c,
              subst (λ s. x.merkle.append t (x.leaf_hash s) ≡ ok (root, next)) leaf_eq a,
              l,
              keep next c (subst (P next c) same p),
              run,
            )
        | inr on ↦
            rw on
              (root, next, c, a, l, p, Run-put next t' k mints m m' (rw on at found) leaf keep run)
      ]

module _ {ℓ κ} {V : Type ℓ} (Q : V → Type κ) where
  pub All-put :
      (k : ℕ) (v : V) (m : BTreeMap V) → Q v → All Q (values m) → All Q (values (put k v m))
  unfolding put values
  All-put k v [] q h = tt
  All-put k v ((j, w) ∷ m) q h = elim (Bool-cases (k == j)) [
    | inl here ↦ rw here (q, h.1)
    | inr on ↦ rw on (h.0, All-put k v m q h.1)
  ]

  pub All-lookup : (k : ℕ) (m : BTreeMap V) {v : V} → lookup k m ≡ some v → All Q (values m) → Q v
  unfolding lookup values
  All-lookup k [] e h = cc
  All-lookup k ((j, w) ∷ m) e h = elim (Bool-cases (k == j)) [
    | inl here ↦ subst Q (some_injective (rw here at e)) h.0
    | inr on ↦ All-lookup k m (rw on at e) h.1
  ]
