-- ===== src/BlockProducer.antt =====
-- crates/block-producer: how transactions fill a block while the diff of its state fits a blob, and how
-- a block is built, stored and announced.
pub mod Diffs
pub mod Fill
pub mod Build
mod Tests
