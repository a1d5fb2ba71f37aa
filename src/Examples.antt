-- ===== src/Examples.antt =====
-- A reference implementation of the parameters, and the theorems at concrete inputs.
mod Reference
mod Runs
mod Parts
mod Restoring
mod Sending
mod Generating
mod RoundTrips
mod Rerunning
mod Tampering
mod Comparing
mod Indexing
