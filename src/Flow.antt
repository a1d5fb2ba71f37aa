-- ===== src/Flow.antt =====
-- The builder of src/batch_mint_builder.rs and the validator of src/batch_mint_validations.rs
-- together.
pub mod Runs
pub mod Invariant
pub mod Signing
pub mod Signed
pub mod Reach
pub mod Accepted
pub mod Canopy
pub mod Total
pub mod Entries
pub mod Growing
pub mod Erased
pub mod Signers
pub mod Capacity
pub mod LastLeaf
pub mod Unverified
pub mod Generated
pub mod Drawn
