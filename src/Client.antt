-- ===== src/Client.antt =====
-- src/batch_mint_client.rs and src/pubkey_util.rs: `Tree`, `Canopy`, `Restore`, `Network`,
-- `Discriminator`, `Prepare` and `Finalize` hold the definitions, the other modules the proofs.
pub mod Tree
pub mod Canopy
pub mod Restore
pub mod CanopyWrites
pub mod Parsers
pub mod Restored
pub mod Resigned
pub mod RoundTrip
pub mod Unconfigured
pub mod Rebuilt
pub mod Network
pub mod Discriminator
pub mod Prepare
pub mod Finalize
pub mod Rerun
pub mod Expected
pub mod Sent
pub mod Prepared
