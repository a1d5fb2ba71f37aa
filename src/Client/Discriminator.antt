-- ===== src/Client/Discriminator.antt =====
-- src/pubkey_util.rs: `discriminator`, with the bytes of a text and the hash of bytes, 32 of them, as
-- parameters.
use Prim.Native.String.{String, ◌++◌}
use bubblegum_batch_sdk.Base.Bytes.{Bytes}
use bubblegum_batch_sdk.Base.{take}

unfoldable discriminator :
    (hash : Bytes → Bytes) (as_bytes : String → Bytes) → String → String → Bytes
discriminator hash as_bytes namespace name = take 8 (hash (as_bytes (namespace ++ ":" ++ name)))
