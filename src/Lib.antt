-- ===== src/Lib.antt =====
-- Verification of mojave, a layer-2 node: a sequencer that produces blocks and batches, a prover,
-- full nodes, and the RPC client and server between them. Paths are from the root of the
-- repository.
--
-- Each part of the program is a module, with its state as a record, each operation as a function
-- that returns the new state beside its result, and proofs in child modules named for what they
-- prove. Base has the library names and the lemmas that the parts share. Base.Programs has the
-- programs that act on a world and may fail, which the code writes with `?`; a failed program keeps
-- the world that it has reached.
--
-- Blocks and batches. UniqueHeap is crates/utils/src/unique_heap.rs (Waiting: pop_wait and
-- peek_wait, over the record Notify). PendingHeap is crates/utils/src/ordered_block.rs,
-- crates/node/src/pending_heap.rs and crates/node/src/services/block.rs, and uses UniqueHeap and
-- the errors of Rpc. BlockProducer is crates/block-producer/src/block_producer.rs (Diffs:
-- get_account_diffs_in_tx, merge_diffs and calculate_tx_diff_size; Fill: fill_transactions; Build:
-- build_block, create_payload, build_payload and the handler, which uses Fill). BatchProducer is
-- crates/batch-producer/src/ (Accumulator: batch_accumulator.rs; Build: the helpers of
-- batch_producer.rs and utils.rs; Loop: the loop, build_batch and the handler). BatchSubmitter is
-- crates/batch-submitter/src/ (Scripts: build_reveal_script; Inscription: the commit and reveal
-- transactions of builder.rs; Committer: committer.rs, a service of Tasks.Runner).
--
-- Proofs and signatures. Prover is crates/prover/src/ (Jobs: job.rs; Service: services/jobs.rs;
-- Worker: rpc/tasks/proof_worker.rs), and uses the errors of Rpc. ProofCoordinator is crates/proof-
-- coordinator/src/coordinator.rs. Signature is crates/signature/src/ (Ecdsa: ecdsa.rs; Eddsa:
-- eddsa.rs).
--
-- Requests. Client is crates/client/src/ (Client: the retries of utils.rs with their configuration
-- and errors; Requests: client.rs, request_builder.rs and the rest of utils.rs). Rpc is
-- crates/rpc/core/src/ and crates/rpc/server/src/lib.rs; Rpc.Macros is
-- crates/rpc/macros/src/lib.rs.
--
-- Tasks and processes. Tasks is crates/task/src/ (Tasks: task_runner.rs and traits.rs; System: the
-- loop with the callers of handle.rs; Runner: runner.rs). Election is crates/coordination/src/
-- (Election: k8s.rs; Leader: sequencer.rs and utils.rs). BtcWatcher is crates/btc-watcher/src/
-- (BtcWatcher: sequence.rs, multi.rs and one message of watch/watcher.rs; Watch: the loop, the
-- builder and the handle of watch/). Utils is crates/utils/src/network.rs and daemon.rs. Commands
-- is cmd/node/src/cli.rs, cmd/sequencer/src/cli.rs and cmd/prover/src/cli.rs.
--
-- Code of other crates (ethrex, tokio, serde, reqwest, bitcoin, libsecp256k1, ed25519, zeromq) and
-- the operating system come as parameters: UniqueHeap takes the effect of a notification, Client
-- takes one HTTP exchange and Client.Requests the record Http, BatchProducer the record Chain,
-- BlockProducer the records Ledger, Builder and Site, BatchSubmitter the records Scripts, Bitcoin
-- and Line, Prover the record System, ProofCoordinator the record Stores, Signature two records
-- Curve, Rpc the record Json, Tasks the records Task, Mpsc and Service, Election the records Pod
-- and Crew, BtcWatcher the records Reading and Parts, Utils.Daemon the record Host. Where a theorem
-- relies on such code, its law is a hypothesis: IsFifo for a channel, Seals for the store of
-- batches, Shrinks for the queue of transactions, TracksHead, KeepsPlace and KeepsPart for the
-- chain and the building of a payload, Appends for scripts, Wallet for the locks of bitcoind,
-- Journal for what a committer sends, Keyed for stored proofs, Signs for a curve, Selects for
-- select_ok, Ticks for the clock, Lives and Signals for the running tasks, ReadsBytes for byte
-- readers.
--
-- Arithmetic on u64 is on natural numbers with the remainder by 2 ^ 64 written out where the code
-- adds. Some loops take fuel. The retries of Client run at most max_retries times, and with that
-- much fuel the model answers. The loop of prepare_batch_from_block ends at the first block without
-- a body, and fuel for the blocks up to it is enough. The loop of fill_transactions takes at least
-- one transaction off the queue in each round, and fuel above their number is enough; build_block
-- passes its fuel on. The pieces of a payload are cut with its length as fuel, where each takes a
-- byte at least. parse_loop takes a token in each turn, and as much fuel as tokens. stop_daemonized
-- waits in rounds of 100 ms, of which 50 fill its five seconds.
--
-- An operation under one lock is one step. The callers of a task and its loop are interleaved in
-- every order in Tasks.System, and so are the producers and the one consumer of UniqueHeap.Waiting;
-- elsewhere what runs between two locks is not interleaved: two concurrent requests to the prover,
-- and several consumers that wait on one heap, are outside the model. Not modelled: the main
-- functions and the start-up of a node (crates/node/src/node.rs, initializers.rs and utils.rs),
-- which start the components and the servers of ethrex; the health endpoint; logging and metrics;
-- clap's parsing of arguments; the JSON handlers of the prover and the node; is_current_leader,
-- which nothing calls.
pub mod Base
pub mod UniqueHeap
pub mod PendingHeap
pub mod Rpc
pub mod Prover
pub mod Client
pub mod BatchProducer
pub mod BlockProducer
pub mod Election
pub mod BtcWatcher
pub mod Tasks
pub mod BatchSubmitter
pub mod ProofCoordinator
pub mod Signature
pub mod Utils
pub mod Commands
