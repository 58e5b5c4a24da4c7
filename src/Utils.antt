-- ===== src/Utils.antt =====
-- crates/utils/src/: the networks and addresses (network.rs), and processes in the background
-- (daemon.rs). The heap of utils/src/unique_heap.rs is a module of its own.
pub mod Network
pub mod Daemon
mod Tests
