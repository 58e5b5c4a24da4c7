-- ===== src/BatchProducer.antt =====
-- crates/batch-producer: the task that seals the next batch of blocks. `Chain` is what it calls of
-- ethrex, `Accumulator` the data of a batch in the making, `Build` the operations of the task.
pub mod Chain
pub mod Accumulator
pub mod Build
pub mod Loop
