-- ===== src/Client/Rerun.antt =====
-- `finalize_tree` of src/batch_mint_client.rs stops at the first transaction of its canopy loop that
-- fails, and is run again: which canopy nodes the account has then.
use bubblegum_batch_sdk.Base.{
  ℕ, zero, suc, ◌+◌, ◌*◌, ◌%◌, ◌^◌, ◌≤◌, ◌<◌, ◌≡◌, refl, sym, ap, ◌∙◌, subst, arith, true, List, [],
  ◌∷◌, ◌++◌, length, take, drop, length-take, length-drop, take_past, take-add, drop-drop, All,
  All-take, leb, le→leb, leb→le, Bool-cases, inl, inr, lt→ltb, Outcome, ok, ◌>>=◌,
}
use bubblegum_batch_sdk.Base.Bytes.{Bytes, bytes_eq_refl}
use bubblegum_batch_sdk.Deps.{Deps}
use bubblegum_batch_sdk.Errors.{BatchMintError}
use bubblegum_batch_sdk.TreeData.{TreeDataInfo, from_bytes, non_empty_canopy_leaves}
use bubblegum_batch_sdk.TreeData.Reading.{
  IsStored, stored, from_bytes_sound, non_empty_canopy_leaves-stored,
}
use bubblegum_batch_sdk.Builder.State.{BatchMintBuilder}
use bubblegum_batch_sdk.Client.Canopy.{
  same_nodes, chunks, AddCanopy, add_canopy_from, add_canopy_instructions, skip_existing,
  calc_canopy_to_add,
}
use bubblegum_batch_sdk.Client.Network.{Network}
use bubblegum_batch_sdk.Client.Finalize.{canopy_instructions}

-- A tree account with a canopy, as the programs on the chain keep it. `Holds` says which canopy
-- nodes were added so far: they are at the front of the lowest level of the canopy, at the end
-- of the account, with empty nodes behind them. An instruction whose nodes go right behind them
-- adds its nodes, as long as they are nodes and fit.
pub record CanopyAccount (x : Deps) : Type 1 where
  pub Account : Type 0
  pub bytes : Account → Bytes
  pub apply : AddCanopy → Account → Account
  pub capacity : ℕ
  pub Holds : Account → List Bytes → Type 0
  pub layout :
      (a : Account) (nodes : List Bytes)
      → Holds a nodes
      → (info : TreeDataInfo) × (upper : Bytes) × (k : ℕ) × (from_bytes x (bytes a) ≡ ok info)
        × (0 < info.canopy_depth)
        × (2 ^ info.canopy_depth ≡ length nodes + k)
        × (info.canopy_buffer ≡ upper ++ stored x nodes k)
  pub writes :
      (a : Account) (nodes : List Bytes) (i : AddCanopy)
      → Holds a nodes
      → i.start_index ≡ length nodes
      → All (IsStored x) (nodes ++ i.canopy_nodes)
      → length (nodes ++ i.canopy_nodes) ≤ capacity
      → Holds (apply i a) (nodes ++ i.canopy_nodes)

same_nodes_refl : (nodes : List Bytes) → same_nodes nodes nodes ≡ true
unfolding same_nodes
same_nodes_refl [] = refl
same_nodes_refl (n ∷ ns) = ground (arith, bytes_eq_refl n, same_nodes_refl ns)

length-take_le : (n : ℕ) (xs : List Bytes) → length (take n xs) ≤ length xs
length-take_le zero xs = omega arith
length-take_le (suc n) [] = omega arith
length-take_le (suc n) (x ∷ xs) = omega (arith, length-take_le n xs)

-- Behind the last node there is nothing to take.
nothing_left :
    (leaves : List Bytes) (pos more : ℕ)
    → [] ≡ drop pos leaves
    → take pos leaves ≡ take (pos + more) leaves
nothing_left leaves pos more e =
    let left = ap length e ∙ length-drop pos leaves in
    take_past pos leaves (omega (arith, left))
    ∙ sym (take_past (pos + more) leaves (omega (arith, left)))

module _ (x : Deps) (net : Network x) (account : CanopyAccount x) where
  abbrev pub apply_all : List AddCanopy → account.Account → account.Account
  apply_all [] a = a
  apply_all (i ∷ is) a = apply_all is (account.apply i a)

  -- A run of which the first k transactions of the canopy are confirmed.
  unfoldable pub run_canopy :
      BatchMintBuilder x → ℕ → account.Account → Outcome (BatchMintError x) account.Account
  run_canopy b k a = do
    info ← from_bytes x (account.bytes a)
    is ← canopy_instructions x net info b
    ok (apply_all (take k is) a)

  -- One run after the other.
  unfoldable pub rerun_canopy :
      BatchMintBuilder x → List ℕ → account.Account → Outcome (BatchMintError x) account.Account
  unfolding run_canopy
  rerun_canopy b [] a = ok a
  rerun_canopy b (k ∷ ks) a = do a' ← run_canopy b k a; rerun_canopy b ks a'

  -- What is left to add behind the first `n` nodes.
  skip_existing_prefix :
      {E : Type 0} (leaves : List Bytes) (n : ℕ)
      → n ≤ length leaves
      → skip_existing {E = E} leaves (take n leaves) ≡ ok (drop n leaves, n)
  unfolding skip_existing
  skip_existing_prefix leaves n le =
      let len = length-take n leaves le in
      rw (len, le→leb n (length leaves) le, len, same_nodes_refl (take n leaves)) refl

  held_instructions :
      (b : BatchMintBuilder x) (a : account.Account) (n : ℕ)
      → length x.empty ≡ 32
      → All (IsStored x) b.canopy_leaves
      → n ≤ length b.canopy_leaves
      → account.Holds a (take n b.canopy_leaves)
      → (info : TreeDataInfo) × (from_bytes x (account.bytes a) ≡ ok info)
        × (canopy_instructions x net info b
            ≡ ok (add_canopy_instructions (drop n b.canopy_leaves) n))
  unfolding canopy_instructions calc_canopy_to_add
  held_instructions b a n empty nodes le holds =
      let (info, upper, k, read, pos, depth, buffer) =
        account.layout a (take n b.canopy_leaves) holds in
      let count = (from_bytes_sound x (account.bytes a) read).0 in
      let found : non_empty_canopy_leaves x info ≡ ok (take n b.canopy_leaves) =
        non_empty_canopy_leaves-stored x info upper (take n b.canopy_leaves) k empty
          (All-take (IsStored x) n b.canopy_leaves nodes) (count ∙ depth) depth buffer in
      (
        info,
        read,
        rw
            (
              lt→ltb 0 info.canopy_depth pos,
              found,
              skip_existing_prefix {E = BatchMintError x} b.canopy_leaves n le,
            )
            refl,
      )

  -- A chunk that goes right behind the first `pos` nodes.
  apply_chunk :
      (leaves : List Bytes) (pos : ℕ) (chunk : AddCanopy) (a : account.Account)
      → All (IsStored x) leaves
      → length leaves ≤ account.capacity
      → pos < length leaves
      → chunk.start_index ≡ pos
      → chunk.canopy_nodes ≡ take 24 (drop pos leaves)
      → account.Holds a (take pos leaves)
      → account.Holds (account.apply chunk a) (take (pos + 24) leaves)
  apply_chunk leaves pos chunk a nodes fits more start chunk_eq holds =
      let grown : take pos leaves ++ chunk.canopy_nodes ≡ take (pos + 24) leaves =
        ap (λ c. take pos leaves ++ c) chunk_eq ∙ take-add pos 24 leaves in
      let count = length-take pos leaves (omega (arith, more)) in
      subst (account.Holds (account.apply chunk a)) grown (
        account.writes a (take pos leaves) chunk holds (start ∙ sym count)
          (subst (All (IsStored x)) (sym grown) (All-take (IsStored x) (pos + 24) leaves nodes))
          (subst (λ l. length l ≤ account.capacity) (sym grown)
            (omega (arith, fits, length-take_le (pos + 24) leaves))))

  -- The chunks of the nodes from position `pos` on, of which the first `k` are applied.
  apply_chunks :
      (leaves rest : List Bytes) (fuel offset ind pos k : ℕ) (a : account.Account)
      → All (IsStored x) leaves
      → length leaves ≤ account.capacity
      → length leaves < 2 ^ 32
      → rest ≡ drop pos leaves
      → length rest ≤ fuel
      → (pos < length leaves → pos ≡ offset + ind * 24)
      → account.Holds a (take pos leaves)
      → account.Holds
          (apply_all (take k (add_canopy_from offset ind (chunks fuel 24 rest))) a)
          (take (pos + 24 * k) leaves)
  unfolding add_canopy_from chunks
  apply_chunks leaves rest fuel offset ind pos zero a nodes fits bound rest_eq enough start holds =
      let e : pos + 24 * 0 ≡ pos = omega arith in rw e holds
  apply_chunks leaves [] zero offset ind pos (suc k) a nodes fits bound rest_eq enough start holds =
      subst (account.Holds a) (nothing_left leaves pos (24 * suc k) rest_eq) holds
  apply_chunks leaves [] (suc f) offset ind pos (suc k) a nodes fits bound rest_eq enough start
        holds =
      subst (account.Holds a) (nothing_left leaves pos (24 * suc k) rest_eq) holds
  apply_chunks leaves (y ∷ ys) zero offset ind pos (suc k) a nodes fits bound rest_eq enough start
        holds =
      absurd (omega arith)
  apply_chunks leaves (y ∷ ys) (suc f) offset ind pos (suc k) a nodes fits bound rest_eq enough
        start holds =
      let chunk : AddCanopy = record {
        canopy_nodes = take 24 (y ∷ ys);
        start_index = (offset + ind * 24) % 2 ^ 32;
      } in
      let left = ap length rest_eq ∙ length-drop pos leaves in
      let more : pos < length leaves = omega (arith, left) in
      let pos_eq = start more in
      let placed : chunk.start_index ≡ pos = omega (arith, pos_eq, bound, more) in
      let next =
        apply_chunk leaves pos chunk a nodes fits more placed (ap (take 24) rest_eq) holds in
      let all =
        apply_chunks leaves (drop 24 (y ∷ ys)) f offset (suc ind) (pos + 24) k
          (account.apply chunk a) nodes fits bound (ap (drop 24) rest_eq ∙ drop-drop pos 24 leaves)
          (omega (arith, length-drop 24 (y ∷ ys), enough)) (λ m. omega (arith, pos_eq)) next in
      let e : pos + 24 + 24 * k ≡ pos + 24 * suc k = omega arith in rw e at all

  run_canopy_lem :
      (b : BatchMintBuilder x) (a : account.Account) (n k : ℕ)
      → length x.empty ≡ 32
      → All (IsStored x) b.canopy_leaves
      → length b.canopy_leaves ≤ account.capacity
      → length b.canopy_leaves < 2 ^ 32
      → n ≤ length b.canopy_leaves
      → account.Holds a (take n b.canopy_leaves)
      → (a' : account.Account) × (run_canopy b k a ≡ ok a')
        × account.Holds a' (take (n + 24 * k) b.canopy_leaves)
  unfolding run_canopy add_canopy_instructions
  run_canopy_lem b a n k empty nodes fits bound le holds =
      let (info, read, is) = held_instructions b a n empty nodes le holds in
      let rest = drop n b.canopy_leaves in
      (
        apply_all (take k (add_canopy_instructions rest n)) a,
        rw (read, is) refl,
        apply_chunks b.canopy_leaves rest (length rest) n 0 n k a nodes fits bound refl
            (omega arith) (λ m. omega arith) holds,
      )

-- All that was confirmed in the runs.
abbrev pub total : List ℕ → ℕ
total [] = 0
total (k ∷ ks) = k + total ks

module _ (x : Deps) (net : Network x) (account : CanopyAccount x) where
  -- The nodes that are held, by their number, after `more` further ones.
  held_count :
      (leaves : List Bytes) (n : ℕ) (a : account.Account)
      → account.Holds a (take n leaves)
      → (m : ℕ) × (m ≤ length leaves)
        × account.Holds a (take m leaves)
        × ((more : ℕ) → take (m + more) leaves ≡ take (n + more) leaves)
  held_count leaves n a holds = elim (Bool-cases (leb n (length leaves))) [
    | inl within ↦ (n, leb→le n (length leaves) within, holds, λ more. refl)
    | inr beyond ↦
        let past : length leaves ≤ n = ground arith in
        (
          length leaves,
          omega arith,
          subst (account.Holds a)
              (take_past n leaves past ∙ sym (take_past (length leaves) leaves (omega arith)))
              holds,
          λ more.
              take_past (length leaves + more) leaves (omega arith)
              ∙ sym (take_past (n + more) leaves (omega (arith, past))),
        )
  ]

  rerun_from :
      (b : BatchMintBuilder x) (ks : List ℕ) (a : account.Account) (n : ℕ)
      → length x.empty ≡ 32
      → All (IsStored x) b.canopy_leaves
      → length b.canopy_leaves ≤ account.capacity
      → length b.canopy_leaves < 2 ^ 32
      → account.Holds a (take n b.canopy_leaves)
      → (a' : account.Account) × (rerun_canopy x net account b ks a ≡ ok a')
        × account.Holds a' (take (n + 24 * total ks) b.canopy_leaves)
  unfolding rerun_canopy
  rerun_from b [] a n empty nodes fits bound holds =
      let e : n + 24 * 0 ≡ n = omega arith in (a, refl, rw e holds)
  rerun_from b (k ∷ ks) a n empty nodes fits bound holds =
      let (m, le, held, again) = held_count b.canopy_leaves n a holds in
      let (a', run, held') = run_canopy_lem x net account b a m k empty nodes fits bound le held in
      let (a'', rest, done) =
        rerun_from b ks a' (n + 24 * k) empty nodes fits bound
          (subst (account.Holds a') (again (24 * k)) held') in
      let e : n + 24 * k + 24 * total ks ≡ n + 24 * (k + total ks) = omega arith in
      (a'', rw run rest, rw e at done)

  -- On a tree account with a canopy that lays out its nodes and takes new ones as documented,
  -- with no empty node among the builder's canopy leaves and room for all of them: however often
  -- the canopy loop is stopped and run again, no run fails before it sends, and the account
  -- holds the first 24 canopy leaves for each transaction that was confirmed. Once enough were
  -- confirmed, over all runs, it holds all of them.
  pub rerun_canopy_completes :
      (b : BatchMintBuilder x) (ks : List ℕ) (a : account.Account)
      → length x.empty ≡ 32
      → All (IsStored x) b.canopy_leaves
      → length b.canopy_leaves ≤ account.capacity
      → length b.canopy_leaves < 2 ^ 32
      → account.Holds a []
      → (a' : account.Account) × (rerun_canopy x net account b ks a ≡ ok a')
        × account.Holds a' (take (24 * total ks) b.canopy_leaves)
        × (length b.canopy_leaves ≤ 24 * total ks → account.Holds a' b.canopy_leaves)
  rerun_canopy_completes b ks a empty nodes fits bound holds =
      let (a', run, held) = rerun_from b ks a 0 empty nodes fits bound holds in
      let e : 0 + 24 * total ks ≡ 24 * total ks = omega arith in
      let held' = rw e at held in
      (
        a',
        run,
        held',
        λ enough. subst (account.Holds a') (take_past (24 * total ks) b.canopy_leaves enough) held',
      )
