-- ===== src/Builder.antt =====
-- src/batch_mint_builder.rs: `Hashing`, `Changelog`, `State`, `Assets`, `Signatures` and `Building`
-- hold the definitions, the other modules the proofs.
pub mod Hashing
pub mod Changelog
pub mod State
pub mod Assets
pub mod Signatures
pub mod Building
pub mod Built
pub mod AddAsset
pub mod Canopy
pub mod Messages
pub mod Numbering
