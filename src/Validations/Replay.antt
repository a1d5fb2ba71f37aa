-- ===== src/Validations/Replay.antt =====
-- The loop of `validate_change_logs` in src/batch_mint_validations.rs against a run of the tree.
use bubblegum_batch_sdk.Base.{
  ℕ, suc, ◌≡◌, refl, sym, ap, ◌∙◌, true, some, List, [], ◌∷◌, ◌++◌, map, ok, arith, >>=-eq-ok,
  guard-eq-ok, map_err-eq-ok, expect-eq-ok, length, expect, map_err, length-snoc, get_elem?,
  get_elem?-append_here, ==_iff, ◌↔◌,
}
use bubblegum_batch_sdk.Base.Bytes.{Bytes, bytes_eq_iff, bytes_eq→eq}
use mathlib.Core.List.{append_assoc}
use bubblegum_batch_sdk.Deps.{Deps}
use bubblegum_batch_sdk.Deps.Data.{ChangeLog}
use bubblegum_batch_sdk.Errors.{spl_compression}
use bubblegum_batch_sdk.Model.{PathNode, BatchMint, BatchMintInstruction, from_spl, path_eq}
use bubblegum_batch_sdk.Builder.Changelog.{make_changelog_path}
use bubblegum_batch_sdk.Validations.{check_change_log, replay_leaves}
use bubblegum_batch_sdk.Validations.Spec.{Run, IsLogged}
use bubblegum_batch_sdk.Validations.Assets.{leaves}

pub path_eq_iff : (p q : List PathNode) → (path_eq p q ≡ true) ↔ (p ≡ q)
unfolding path_eq
path_eq_iff [] [] = (λ _. refl, λ _. refl)
path_eq_iff [] (b ∷ bs) = (λ h. cc, λ h. cc)
path_eq_iff (a ∷ as') [] = (λ h. cc, λ h. cc)
path_eq_iff (a ∷ as') (b ∷ bs) = ground (arith, path_eq_iff as' bs, bytes_eq_iff a.node b.node)

module _ (x : Deps) where
  check_change_log_complete :
      (bm : BatchMint x) (m : BatchMintInstruction x) (t : x.Tree) (c : ChangeLog)
      → IsLogged x bm.tree_id t c m
      → check_change_log x bm m c ≡ ok tt
  unfolding check_change_log
  check_change_log_complete bm m t c (path, id, index) = rw (
    (path_eq_iff m.tree_update.path (map from_spl (make_changelog_path c))).1 path,
    (bytes_eq_iff m.tree_update.id bm.tree_id).1 id,
    (==_iff m.tree_update.index c.index).1 index,
  )

  check_change_log_sound :
      (bm : BatchMint x) (m : BatchMintInstruction x) (t : x.Tree) (c : ChangeLog)
      → check_change_log x bm m c ≡ ok tt
      → IsLogged x bm.tree_id t c m
  unfolding check_change_log
  check_change_log_sound bm m t c h =
      let (u, path, h₁) = >>=-eq-ok _ _ h in
      let (v, id, h₂) = >>=-eq-ok _ _ h₁ in
      (
        (path_eq_iff _ _).0 (guard-eq-ok _ _ path),
        bytes_eq→eq _ _ (guard-eq-ok _ _ id),
        (==_iff _ _).0 (guard-eq-ok _ _ h₂),
      )

  -- `done` are the entries before the ones that are left.
  pub replay_leaves_complete :
      (bm : BatchMint x) (done ms : List (BatchMintInstruction x)) (t t' : x.Tree)
      → bm.batch_mints ≡ done ++ ms
      → Run x (IsLogged x bm.tree_id) t ms t'
      → replay_leaves x bm (length done) (leaves x ms) t ≡ ok t'
  unfolding replay_leaves leaves
  replay_leaves_complete bm done [] t t' e h = ap ok h
  replay_leaves_complete bm done (m ∷ ms) t t' e (root, next, c, appended, logged, p, rest) =
      rw
        (
          appended,
          logged,
          e,
          get_elem?-append_here done m ms,
          check_change_log_complete bm m next c p,
          ← length-snoc done m,
        )
        (replay_leaves_complete bm (done ++ m ∷ []) ms next t'
          (e ∙ sym (append_assoc done (m ∷ []) ms)) rest)

  -- One round of the loop that succeeds, at the entry `m`.
  replay_step :
      (bm : BatchMint x) (m : BatchMintInstruction x) (i : ℕ) (hashes : List Bytes) (t t' : x.Tree)
      → get_elem? bm.batch_mints i ≡ some m
      → replay_leaves x bm i (x.leaf_hash m.leaf_update ∷ hashes) t ≡ ok t'
      → (root : Bytes) × (next : x.Tree) × (c : ChangeLog) × (x.merkle.append t
            (x.leaf_hash m.leaf_update)
          ≡ ok (root, next))
        × (x.merkle.change_logs next (x.merkle.active_index next) ≡ some c)
        × IsLogged x bm.tree_id next c m
        × (replay_leaves x bm (suc i) hashes next ≡ ok t')
  unfolding replay_leaves
  replay_step bm m i hashes t t' at_i h =
      let (step, appended, h₁) =
        >>=-eq-ok (map_err spl_compression (x.merkle.append t (x.leaf_hash m.leaf_update))) _
          (rw at_i at h) in
      let (c, logged, h₂) =
        >>=-eq-ok (expect (x.merkle.change_logs step.1 (x.merkle.active_index step.1))) _ h₁ in
      let (u, checked, h₃) = >>=-eq-ok (check_change_log x bm m c) _ h₂ in
      (
        step.0,
        step.1,
        c,
        map_err-eq-ok spl_compression _ appended,
        expect-eq-ok _ logged,
        check_change_log_sound bm m step.1 c checked,
        h₃,
      )

  pub replay_leaves_sound :
      (bm : BatchMint x) (done ms : List (BatchMintInstruction x)) (t t' : x.Tree)
      → bm.batch_mints ≡ done ++ ms
      → replay_leaves x bm (length done) (leaves x ms) t ≡ ok t'
      → Run x (IsLogged x bm.tree_id) t ms t'
  unfolding replay_leaves leaves
  replay_leaves_sound bm done [] t t' e h = cc
  replay_leaves_sound bm done (m ∷ ms) t t' e h =
      let at_i : get_elem? bm.batch_mints (length done) ≡ some m =
        ap (λ l. get_elem? l (length done)) e ∙ get_elem?-append_here done m ms in
      let (root, next, c, appended, logged, p, rest) =
        replay_step bm m (length done) (leaves x ms) t t' at_i h in
      (
        root,
        next,
        c,
        appended,
        logged,
        p,
        replay_leaves_sound bm (done ++ m ∷ []) ms next t' (e ∙ sym (append_assoc done (m ∷ []) ms))
            (rw (length-snoc done m) rest),
      )
