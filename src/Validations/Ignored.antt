-- ===== src/Validations/Ignored.antt =====
-- What the replay of src/batch_mint_validations.rs does not read of a batch mint.
use bubblegum_batch_sdk.Base.{
  ℕ, suc, ◌≡◌, refl, List, [], ◌∷◌, bind_congr, map_err, ok_or, expect, get_elem?,
}
use bubblegum_batch_sdk.Base.Bytes.{Bytes}
use bubblegum_batch_sdk.Deps.{Deps}
use bubblegum_batch_sdk.Errors.{spl_compression, no_relevant_rolled_mint}
use bubblegum_batch_sdk.Model.{BatchMint}
use bubblegum_batch_sdk.Validations.{check_change_log, replay_leaves}

module _ (x : Deps) where
  -- The loop reads neither the root nor the last leaf hash.
  pub replay_leaves_ignores :
      (bm : BatchMint x) (root leaf : Bytes) (i : ℕ) (hashes : List Bytes) (t : x.Tree)
      → replay_leaves x (record bm { merkle_root = root; last_leaf_hash = leaf }) i hashes t
        ≡ replay_leaves x bm i hashes t
  unfolding replay_leaves check_change_log
  replay_leaves_ignores bm root leaf i [] t = refl
  replay_leaves_ignores bm root leaf i (h ∷ hs) t =
      bind_congr (map_err spl_compression (x.merkle.append t h)) _ _ (λ appended.
        bind_congr (expect (x.merkle.change_logs appended.1 (x.merkle.active_index appended.1))) _ _
          (λ log.
            bind_congr (ok_or (get_elem? bm.batch_mints i) (no_relevant_rolled_mint i)) _ _ (λ m.
              bind_congr (check_change_log x bm m log) _ _
                (λ u. replay_leaves_ignores bm root leaf (suc i) hs appended.1))))
