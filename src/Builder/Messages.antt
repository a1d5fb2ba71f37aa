-- ===== src/Builder/Messages.antt =====
-- The message that the creators of an asset sign.
use bubblegum_batch_sdk.Base.{
  ◌+◌, ◌^◌, ◌<◌, ◌≡◌, sym, ap, ◌∙◌, subst, arith, ◌++◌, length, take, drop, length-append,
  take-append, drop-append,
}
use bubblegum_batch_sdk.Base.Bytes.{to_be_bytes, length-to_be_bytes, from_be_bytes-to_be_bytes}
use bubblegum_batch_sdk.Builder.Hashing.{MetadataArgsHash, get_message, get_nonce_from_message}
use Prim.Native.Nat.{min}
use mathlib.Core.List.{append-nil}

split_message :
    (h : MetadataArgsHash)
    → (take 8 (get_message h) ≡ to_be_bytes 8 h.nonce) × (drop 8 (get_message h) ≡ h.hashed_leaf)
unfolding get_message
split_message h =
    let len = length-to_be_bytes 8 h.nonce in
    let front = take-append (to_be_bytes 8 h.nonce) h.hashed_leaf in
    let back = drop-append (to_be_bytes 8 h.nonce) h.hashed_leaf in
    (
      subst (λ n. take n (to_be_bytes 8 h.nonce ++ h.hashed_leaf) ≡ to_be_bytes 8 h.nonce) len
          front,
      subst (λ n. drop n (to_be_bytes 8 h.nonce ++ h.hashed_leaf) ≡ h.hashed_leaf) len back,
    )

length-get_message : (h : MetadataArgsHash) → length (get_message h) ≡ 8 + length h.hashed_leaf
unfolding get_message
length-get_message h =
    omega (arith, length-append (to_be_bytes 8 h.nonce) h.hashed_leaf, length-to_be_bytes 8 h.nonce)

-- The nonce of a 64-bit asset number is read back from the message.
pub get_nonce_from_message-get_message :
    (h : MetadataArgsHash) → h.nonce < 2 ^ 64 → get_nonce_from_message (get_message h) ≡ h.nonce
unfolding get_nonce_from_message
get_nonce_from_message-get_message h bound =
    let full : min 8 (length (get_message h)) ≡ 8 = omega (arith, length-get_message h) in
    rw (full, (split_message h).0, append-nil) (from_be_bytes-to_be_bytes 8 h.nonce bound)

-- Two assets with the same message, and numbers of 64 bits, have the same number and the same leaf.
pub get_message_injective :
    (g h : MetadataArgsHash)
    → g.nonce < 2 ^ 64
    → h.nonce < 2 ^ 64
    → get_message g ≡ get_message h
    → (g.nonce ≡ h.nonce) × (g.hashed_leaf ≡ h.hashed_leaf)
get_message_injective g h bg bh e = (
  sym (get_nonce_from_message-get_message g bg)
      ∙ ap get_nonce_from_message e
      ∙ get_nonce_from_message-get_message h bh,
  sym (split_message g).1 ∙ ap (drop 8) e ∙ (split_message h).1,
)
