-- ===== src/BatchProducer/Loop.antt =====
-- crates/batch-producer/src/batch_producer.rs: `prepare_batch_from_block` with its loop over blocks,
-- `build_batch`, and the handler of the task.
pub mod Blocks
pub mod Range
pub mod Outcome
pub mod Enough
pub mod Seams
mod Tests
use mojave.Base.{
  ℕ, zero, suc, Option, none, some, List, [], ◌∷◌, eqb, if◌then◌else◌, Result, ok, err, ◌>>=◌,
  map_err,
}
use mojave.BatchProducer.Chain.{
  Chain, Batch, Error, u64_add, rollup_store_error, unreachable, broadcast_error, no_blob_space,
}
use mojave.BatchProducer.Accumulator.{
  BatchAccumulator, empty_accumulator, add_block_data, get_account_updates_vec,
}
use mojave.BatchProducer.Build.{
  Request, build_batch_request, BlockData, BatchData, BatchProducer, prepare_state_diff,
  generate_blobs_bundle, create_parent_database, get_block_state_root, create_batch, get_block_data,
  process_block, get_last_committed_block,
}

module _ (chain : Chain) where
  open chain use {
    F, Hash, AccountUpdate, L1Message, PrivilegedTx, StateDiff, Bundle, default_hash,
    default_bundle, Store, Rollup, seal_batch, Sender, send,
  }

  -- the variables of the loop
  pub record Progress : Type 0 where
    pub accumulator : BatchAccumulator chain
    pub blobs_bundle : Bundle
    pub state_root : Hash
    pub current_block : ℕ

  -- A round goes on, breaks out of the loop, or returns an error.
  pub data Turn : Type 0 where
    next : Progress → Turn
    break : Progress → Turn
    fail : Error F → Turn

  after_root : Progress → Bundle → ℕ → Result (Error F) Hash → Turn
  after_root s bundle block_number (err e) = fail e
  after_root s bundle block_number (ok root) = next (record s {
    blobs_bundle = bundle;
    state_root = root;
    current_block = u64_add block_number 1;
  })

  after_bundle : Store → ℕ → Progress → BlockData chain → Result (Error F) (Bundle × ℕ) → Turn
  unfolding after_root
  after_bundle store first_block s block_data (ok (bundle, latest_blob_size)) =
      after_root s bundle s.current_block (get_block_state_root chain store block_data)
  after_bundle store first_block s block_data (err e) =
      if eqb s.current_block first_block then fail (unreachable no_blob_space) else break s

  after_diff : Store → ℕ → Progress → BlockData chain → Result (Error F) StateDiff → Turn
  unfolding after_bundle
  after_diff store first_block s block_data (err e) = fail e
  after_diff store first_block s block_data (ok state_diff) =
      after_bundle store first_block s block_data (generate_blobs_bundle chain state_diff)

  after_process :
      Store
      → ℕ
      → Progress
      → BlockData chain
      → Result (Error F) (List L1Message × List PrivilegedTx × List AccountUpdate)
      → Turn
  unfolding after_diff
  after_process store first_block s block_data (err e) = fail e
  after_process store first_block s block_data (ok (messages, privileged_txs, account_updates)) =
      after_diff store first_block
        (record s {
          accumulator = add_block_data chain s.accumulator messages privileged_txs account_updates;
        })
        block_data (prepare_state_diff chain)

  after_data : Store → Rollup → ℕ → Progress → Result (Error F) (Option (BlockData chain)) → Turn
  unfolding after_process
  after_data store rollup_store first_block s (err e) = fail e
  after_data store rollup_store first_block s (ok none) = break s
  after_data store rollup_store first_block s (ok (some block_data)) =
      after_process store first_block s block_data
        (process_block chain store rollup_store block_data)

  -- the body of the loop
  unfoldable pub round : Store → Rollup → ℕ → Progress → Turn
  unfolding after_data
  round store rollup_store first_block s =
      after_data store rollup_store first_block s (get_block_data chain store s.current_block)

  turned :
      (Progress → Option (Result (Error F) Progress)) → Turn → Option (Result (Error F) Progress)
  turned continue (next s) = continue s
  turned continue (break s) = some (ok s)
  turned continue (fail e) = some (err e)

  unfoldable pub block_loop : (Progress → Turn) → ℕ → Progress → Option (Result (Error F) Progress)
  unfolding turned
  block_loop body zero s = none
  block_loop body (suc fuel) s = turned (block_loop body fuel) (body s)

  abbrev pub batch_data_of : Progress → BatchData chain
  batch_data_of s = record {
    last_block = s.current_block;
    state_root = s.state_root;
    message_hashes = s.accumulator.message_hashes;
    privileged_tx_hashes = s.accumulator.privileged_tx_hashes;
    blobs_bundle = s.blobs_bundle;
  }

  -- what follows the loop
  collect : ℕ → Progress → Option (BatchData chain)
  collect last_committed_block s =
      if eqb s.current_block last_committed_block then none else some (batch_data_of s)

  collected :
      ℕ → Option (Result (Error F) Progress) → Option (Result (Error F) (Option (BatchData chain)))
  collected last_committed_block none = none
  collected last_committed_block (some (err e)) = some (err e)
  collected last_committed_block (some (ok s)) = some (ok (collect last_committed_block s))

  abbrev pub at_first : ℕ → Progress
  at_first first_block = record {
    accumulator = empty_accumulator chain;
    blobs_bundle = default_bundle;
    state_root = default_hash;
    current_block = first_block;
  }

  over_parent :
      ℕ
      → Store
      → Rollup
      → ℕ
      → ℕ
      → Result (Error F) Hash
      → Option (Result (Error F) (Option (BatchData chain)))
  over_parent fuel store rollup_store last_committed_block first_block (err e) = some (err e)
  over_parent fuel store rollup_store last_committed_block first_block (ok parent_db) =
      collected last_committed_block
        (block_loop (round store rollup_store first_block) fuel (at_first first_block))

  -- The number of the batch, which the source passes too, is only logged.
  unfoldable pub prepare_batch_from_block :
      ℕ → Store → Rollup → ℕ → ℕ → Option (Result (Error F) (Option (BatchData chain)))
  unfolding over_parent collected collect
  prepare_batch_from_block fuel store rollup_store last_committed_block first_block =
      over_parent fuel store rollup_store last_committed_block first_block
        (create_parent_database chain store first_block)

  abbrev pub Built : Type 0
  Built = Result (Error F) (Option (Batch Hash Bundle)) × BatchProducer chain

  sealed : BatchProducer chain → Batch Hash Bundle → Rollup × Result F (Unit {0}) → Built
  sealed self batch (rollup_store, err e) =
      (err (rollup_store_error e), record self { rollup_store = rollup_store })
  sealed self batch (rollup_store, ok _) = (
    ok (some batch),
    record self { rollup_store = rollup_store; batch_counter = u64_add self.batch_counter 1 },
  )

  created : BatchProducer chain → Result (Error F) (Batch Hash Bundle) → Built
  unfolding sealed
  created self (err e) = (err e, self)
  created self (ok batch) = sealed self batch (seal_batch self.rollup_store batch)

  prepared :
      BatchProducer chain → ℕ → Option (Result (Error F) (Option (BatchData chain))) → Option Built
  unfolding created
  prepared self first_block none = none
  prepared self first_block (some (err e)) = some (err e, self)
  prepared self first_block (some (ok none)) = some (ok none, self)
  prepared self first_block (some (ok (some batch_data))) =
      some (created self (create_batch chain (u64_add self.batch_counter 1) first_block batch_data))

  from_last : ℕ → BatchProducer chain → Result (Error F) ℕ → Option Built
  unfolding prepared
  from_last fuel self (err e) = some (err e, self)
  from_last fuel self (ok last_block) =
      prepared self (u64_add last_block 1) (
        prepare_batch_from_block fuel self.store self.rollup_store last_block
          (u64_add last_block 1))

  unfoldable pub build_batch : ℕ → BatchProducer chain → Option Built
  unfolding from_last
  build_batch fuel self =
      from_last fuel self (get_last_committed_block chain self.rollup_store self.batch_counter)

  sent_result : BatchProducer chain → Batch Hash Bundle → Sender × Result F (Unit {0}) → Built
  sent_result self batch (broadcast, ok _) =
      (ok (some batch), record self { broadcast = broadcast })
  sent_result self batch (broadcast, err e) =
      (err (broadcast_error e), record self { broadcast = broadcast })

  sent : BatchProducer chain → Batch Hash Bundle → Built
  unfolding sent_result
  sent self batch = sent_result self batch (send self.broadcast batch)

  -- the answer of the handler, by what `build_batch` returned
  answered : Built → Built
  unfolding sent
  answered (ok (some batch), self) = sent self batch
  answered (ok none, self) = (ok none, self)
  answered (err e, self) = (err e, self)

  answered? : Option Built → Option Built
  unfolding answered
  answered? none = none
  answered? (some built) = some (answered built)

  unfoldable pub handle_request : ℕ → BatchProducer chain → Request → Option Built
  unfolding answered?
  handle_request fuel self build_batch_request = answered? (build_batch fuel self)
