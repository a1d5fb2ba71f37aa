-- ===== src/Flow/Signed.antt =====
-- Exactly when `add_signatures_for_verified_creators` of src/batch_mint_builder.rs signs an asset, and
-- which signatures the asset has then.
use bubblegum_batch_sdk.Base.{
  ℕ, ◌≡◌, ◌↔◌, ◌⊎◌, refl, sym, ap, ◌∙◌, subst, Bool, true, false, ◌||◌, none, some, Option, List,
  [], ◌∷◌, ok, All, >>=-eq-ok, ok_injective, guard, guard-eq-ok, Option-cases, Bool-cases, inl, inr,
  Succeeds, some_injective, if◌then◌else◌,
}
use bubblegum_batch_sdk.Base.Bytes.{Bytes, bytes_eq, bytes_eq→eq}
use bubblegum_batch_sdk.Base.Maps.{HashMap, get, add, get-add, lookup, put}
use bubblegum_batch_sdk.Deps.{Deps}
use bubblegum_batch_sdk.Deps.Data.{Creator}
use bubblegum_batch_sdk.Errors.{BatchMintError}
use bubblegum_batch_sdk.Model.{BatchMintInstruction}
use bubblegum_batch_sdk.Builder.Hashing.{MetadataArgsHash, metadata_args_hash_new, get_message}
use bubblegum_batch_sdk.Builder.State.{BatchMintBuilder}
use bubblegum_batch_sdk.Flow.Signing.{sign_asset_sound}
use bubblegum_batch_sdk.Builder.Signatures.{
  is_creator, no_extra_creators, check_extra_creators, verify_signature, sign_creator,
  sign_creators, sign_asset, signatures_or_default,
}

-- The one that was received, where it counts and there is one.
abbrev pub pick : {S : Type 0} → Bool → Option S → Option S → Option S
pick false received held = held
pick true none held = held
pick true (some s) held = some s

pick-pick :
    {S : Type 0} (a b : Bool) (received held : Option S)
    → pick b received (pick (a || false) received held) ≡ pick (a || b) received held
pick-pick false false received held = refl
pick-pick false true none held = refl
pick-pick false true (some s) held = refl
pick-pick true false none held = refl
pick-pick true false (some s) held = refl
pick-pick true true none held = refl
pick-pick true true (some s) held = refl

pub pick-eq-some :
    {S : Type 0} (b : Bool) (received held : Option S) {s : S}
    → pick b received held ≡ some s
    → (received ≡ some s) ⊎ (held ≡ some s)
pick-eq-some false received held e = inr e
pick-eq-some true none held e = inr e
pick-eq-some true (some t) held e = inl e

-- The signature of a key after the creators' ones were received.
unfoldable pub latest : {S : Type 0} → List Creator → HashMap S → HashMap S → Bytes → Option S
latest cs received held k = pick (is_creator cs k) (get k received) (get k held)

latest_absent :
    {S : Type 0} (c : Creator) (received held : HashMap S) (k : Bytes)
    → get c.address received ≡ none
    → get k held ≡ latest (c ∷ []) received held k
unfolding latest is_creator
latest_absent c received held k absent = elim (Bool-cases (bytes_eq k c.address)) [
  | inl here ↦
      let k_eq = bytes_eq→eq k c.address here in
      let none_here : get k received ≡ none = ap (λ j. get j received) k_eq ∙ absent in
      rw (here, none_here) refl
  | inr other ↦ rw other refl
]

latest_present :
    {S : Type 0} (c : Creator) (received held : HashMap S) (k : Bytes) (s : S)
    → get c.address received ≡ some s
    → (if bytes_eq k c.address then some s else get k held) ≡ latest (c ∷ []) received held k
unfolding latest is_creator
latest_present c received held k s present = elim (Bool-cases (bytes_eq k c.address)) [
  | inl here ↦
      let k_eq = bytes_eq→eq k c.address here in
      let some_here : get k received ≡ some s = ap (λ j. get j received) k_eq ∙ present in
      rw (here, some_here) refl
  | inr other ↦ rw other refl
]

latest-latest :
    {S : Type 0} (c : Creator) (cs : List Creator) (received held next : HashMap S) (k : Bytes)
    → get k next ≡ latest (c ∷ []) received held k
    → latest cs received next k ≡ latest (c ∷ cs) received held k
unfolding latest is_creator
latest-latest c cs received held next k e =
    ap (pick (is_creator cs k) (get k received)) e
    ∙ pick-pick (bytes_eq k c.address) (is_creator cs k) (get k received) (get k held)

module _ (x : Deps) where
  -- The creator, if a signature of theirs was received, is marked as verified and has signed the
  -- message.
  abbrev pub Accepts : Bytes → HashMap x.Signature → Creator → Type 0
  Accepts msg received c =
      (s : x.Signature)
      → get c.address received ≡ some s
      → (c.verified ≡ true) × (x.verify s c.address msg ≡ true)

  sign_creator_sound :
      (msg : Bytes) (received : HashMap x.Signature) (c : Creator) (held : HashMap x.Signature)
      {out : HashMap x.Signature}
      → sign_creator x msg received c held ≡ ok out
      → Accepts msg received c × ((k : Bytes) → get k out ≡ latest (c ∷ []) received held k)
  unfolding sign_creator verify_signature latest is_creator
  sign_creator_sound msg received c held h = elim (Option-cases (get c.address received)) [
    | inl absent ↦
        let same = ok_injective (rw (absent, sign_creator) at h) in
        (λ s e. cc (absent, e), λ k. ap (get k) (sym same) ∙ latest_absent c received held k absent)
    | inr (s, present) ↦
        let (u, verified, h₁) =
          >>=-eq-ok (guard c.verified _) _ (rw (present, sign_creator) at h) in
        let (v, valid, h₂) = >>=-eq-ok (guard (verify_signature x c.address msg s) _) _ h₁ in
        let out_eq = ok_injective h₂ in
        (
          λ s' e. (
            guard-eq-ok _ _ verified,
            subst (λ p. x.verify p c.address msg ≡ true) (some_injective (sym present ∙ e))
                (guard-eq-ok _ _ valid),
          ),
          λ k.
              ap (get k) (sym out_eq)
              ∙ get-add k c.address s held
              ∙ latest_present c received held k s present,
        )
  ]

  pub sign_creators_sound :
      (msg : Bytes) (received : HashMap x.Signature) (cs : List Creator)
      (held : HashMap x.Signature) {out : HashMap x.Signature}
      → sign_creators x msg received cs held ≡ ok out
      → All (Accepts msg received) cs × ((k : Bytes) → get k out ≡ latest cs received held k)
  unfolding sign_creators latest is_creator
  sign_creators_sound msg received [] held h = (tt, λ k. ap (get k) (sym (ok_injective h)))
  sign_creators_sound msg received (c ∷ cs) held h =
      let (next, first, rest) = >>=-eq-ok (sign_creator x msg received c held) _ h in
      let (accepted, one) = sign_creator_sound msg received c held first in
      let (others, more) = sign_creators_sound msg received cs next rest in
      ((accepted, others), λ k. more k ∙ latest-latest c cs received held next k (one k))

  sign_creators_total :
      (msg : Bytes) (received : HashMap x.Signature) (cs : List Creator)
      (held : HashMap x.Signature)
      → All (Accepts msg received) cs
      → Succeeds (sign_creators x msg received cs held)
  unfolding sign_creators sign_creator verify_signature
  sign_creators_total msg received [] held accepted = (held, refl)
  sign_creators_total msg received (c ∷ cs) held (accepted, others) =
      elim (Option-cases (get c.address received)) [
        | inl absent ↦ rw (absent, sign_creator) (sign_creators_total msg received cs held others)
        | inr (s, present) ↦
            let (verified, valid) = accepted s present in
            rw (present, sign_creator, verified, valid)
              (sign_creators_total msg received cs (add c.address s held) others)
      ]

  -- What `sign_asset` asks for.
  pub record IsSignable (b : BatchMintBuilder x) (k : ℕ) (received : HashMap x.Signature)
      : Type 0 where
    pub entry : BatchMintInstruction x
    pub found : lookup k b.mints ≡ some entry
    pub no_extra : no_extra_creators entry.mint_args.creators received ≡ true
    pub hash : MetadataArgsHash
    pub hashed :
        metadata_args_hash_new x {E = BatchMintError x} entry.leaf_update b.tree_account
          entry.mint_args
        ≡ ok hash
    pub accepted : All (Accepts (get_message hash) received) entry.mint_args.creators

  sign_asset-IsSignable :
      (b : BatchMintBuilder x) (k : ℕ) (received : HashMap x.Signature)
      → Succeeds (sign_asset x b k received)
      → IsSignable b k received
  unfolding sign_asset check_extra_creators
  sign_asset-IsSignable b k received (b', h) = elim (Option-cases (lookup k b.mints)) [
    | inl missing ↦ cc (rw missing at h)
    | inr (m, found) ↦
        let (u, extra, h₁) =
          >>=-eq-ok (check_extra_creators x m.mint_args.creators received) _ (rw found at h) in
        let (hash, hashed, h₂) =
          >>=-eq-ok
            (metadata_args_hash_new x {E = BatchMintError x} m.leaf_update b.tree_account
              m.mint_args)
            _ h₁ in
        let (signatures, signed, h₃) =
          >>=-eq-ok
            (sign_creators x (get_message hash) received m.mint_args.creators
              (signatures_or_default m.creator_signature))
            _ h₂ in
        record {
          entry = m;
          found = found;
          no_extra = guard-eq-ok _ _ extra;
          hash = hash;
          hashed = hashed;
          accepted = (sign_creators_sound _ _ _ _ signed).0;
        }
  ]

  pub sign_asset_total :
      (b : BatchMintBuilder x) (k : ℕ) (received : HashMap x.Signature)
      → IsSignable b k received
      → Succeeds (sign_asset x b k received)
  unfolding sign_asset check_extra_creators
  sign_asset_total b k received s =
      let (signatures, signed) =
        sign_creators_total (get_message s.hash) received s.entry.mint_args.creators
          (signatures_or_default s.entry.creator_signature) s.accepted in
      (
        record b { mints = put k (record s.entry { creator_signature = some signatures }) b.mints },
        rw (s.found, s.no_extra, s.hashed, signed) refl,
      )

  -- The signatures for an asset are taken exactly if the asset is there, all signers are
  -- creators of it that are marked as verified, and each has signed the asset's message. The
  -- asset then has the signatures that were received, and for any other key those it had;
  -- nothing else of the builder changes.
  pub sign_asset_iff :
      (b : BatchMintBuilder x) (k : ℕ) (received : HashMap x.Signature)
      → (Succeeds (sign_asset x b k received) ↔ IsSignable b k received)
        × ((b' : BatchMintBuilder x)
            → sign_asset x b k received ≡ ok b'
            → (m : BatchMintInstruction x) × (signatures : HashMap x.Signature) × (lookup k b.mints
                ≡ some m)
              × (b' ≡ record b {
                mints = put k (record m { creator_signature = some signatures }) b.mints;
              })
              × ((key : Bytes)
                  → get key signatures
                    ≡ latest m.mint_args.creators received
                        (signatures_or_default m.creator_signature)
                        key))
  sign_asset_iff b k received = (
    (sign_asset-IsSignable b k received, sign_asset_total b k received),
    λ b' h.
        let s = sign_asset_sound x b k received h in
        (s.entry, s.signatures, s.found, sym s.state_eq, (sign_creators_sound _ _ _ _ s.signed).1),
  )
