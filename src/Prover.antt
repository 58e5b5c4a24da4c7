-- ===== src/Prover.antt =====
-- crates/prover: jobs wait in a channel for the proof worker, and the store remembers which are
-- pending and which have a proof. crates/client/src/types.rs has the types that travel.
pub mod Jobs
pub mod Service
pub mod Worker
pub mod Channels
pub mod Consistency
pub mod Requests
pub mod Repeats
mod Tests
