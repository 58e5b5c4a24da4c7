-- ===== src/BlockProducer/Fill.antt =====
-- crates/block-producer/src/block_producer.rs: `fill_transactions` and `fetch_mempool_transactions`.
-- A round of the loop is by clauses on what each call returns. The loop takes fuel, and `none` means
-- that it ran out.
pub mod Bound
pub mod Contexts
pub mod Enough
use mojave.Base.{
  ℕ, zero, suc, ◌+◌, Bool, true, false, not, ◌&&◌, Option, none, some, List, [], ltb, if◌then◌else◌,
  Result, ok, err, ◌>>=◌, map_err,
}
use mojave.BlockProducer.Diffs.{
  Ledger, Error, other, Diffs, u64_add, merge_diffs, calculate_tx_diff_size,
  get_account_diffs_in_tx,
}

-- what the loop calls of ethrex
pub record Builder (ledger : Ledger) : Type 1 where
  pub Tx : Type 0
  pub Hash : Type 0
  pub Receipt : Type 0
  pub Context : Type 0
  pub Queue : Type 0
  pub Mempool : Type 0
  pub Config : Type 0
  pub tx_gas_cost : ℕ
  pub block_header_len : ℕ
  pub simple_tx_state_diff_size : ℕ
  pub safe_bytes_per_blob : ℕ
  pub privileged_tx_log_len : ℕ
  pub l1message_log_len : ℕ
  pub gas_limit : Tx → ℕ
  pub hash : Tx → Hash
  pub protected : Tx → Bool
  pub nonce : Tx → ℕ
  pub sender : Tx → ledger.Address
  pub is_privileged : Tx → Bool
  pub is_privileged_l2 : Tx → Bool
  pub db : Context → ledger.Db
  pub remaining_gas : Context → ℕ
  pub get_chain_config : Result ledger.F Config
  pub get_latest_block_number : Result ledger.F ℕ
  pub is_eip155_activated : Config → Context → Bool
  -- the nonce of the account at a block
  pub get_account_info : ℕ → ledger.Address → Result ledger.F (Option ℕ)
  pub apply_plain_transaction : Tx → Context → Context × Result ledger.F Receipt
  pub messages : Receipt → ℕ
  pub undo_last_tx : Context → Result ledger.F Context
  -- the pushes of a transaction and of its receipt
  pub push : Tx → Receipt → Context → Context
  pub peek : Queue → Option Tx
  pub pop : Queue → Queue
  pub shift : Queue → Result ledger.F Queue
  pub remove_transaction_from_pool : Hash → Mempool → Result ledger.F Mempool
  pub fetch : Context → Mempool → Result ledger.F (Queue × Queue)

module _ (ledger : Ledger) (builder : Builder ledger) where
  open ledger use {F}
  open builder use {
    Tx, Hash, Receipt, Context, Queue, Mempool, Config, get_chain_config, get_latest_block_number,
    tx_gas_cost, block_header_len, simple_tx_state_diff_size, safe_bytes_per_blob,
    privileged_tx_log_len, l1message_log_len, gas_limit, hash, protected, nonce, sender,
    is_privileged, is_privileged_l2, db, remaining_gas, is_eip155_activated, get_account_info,
    apply_plain_transaction, messages, undo_last_tx, push, peek, pop, shift,
    remove_transaction_from_pool, fetch,
  }

  -- the variables of the loop, with the context and the mempool that it changes
  pub record Filling : Type 0 where
    pub chain_config : Config
    pub latest_block_number : ℕ
    pub context : Context
    pub mempool : Mempool
    pub txs : Queue
    pub acc_size_without_accounts : ℕ
    pub size_accounts_diffs : ℕ
    pub account_diffs : Diffs ledger

  pub data Turn : Type 0 where
    next : Filling → Turn
    break : Filling → Turn
    fail : Error F → Turn

  abbrev pub skip : Filling → Filling
  skip s = record s { txs = pop s.txs }

  -- `txs.pop()`, and the transaction leaves the pool
  dropped : Filling → Result F Mempool → Turn
  dropped s (ok mempool) = next (record (skip s) { mempool = mempool })
  dropped s (err e) = fail (other e)

  undone : Filling → Result F Context → Turn
  undone s (ok context) = next (record (skip s) { context = context })
  undone s (err e) = fail (other e)

  taken : Filling → Tx → Receipt → Diffs ledger → ℕ × ℕ → Result F Queue → Result F Mempool → Turn
  taken s tx receipt merged (tx_size, accounts_size) (err e) pool = fail (other e)
  taken s tx receipt merged (tx_size, accounts_size) (ok txs) (err e) = fail (other e)
  taken s tx receipt merged (tx_size, accounts_size) (ok txs) (ok mempool) = next (record s {
    context = push tx receipt s.context;
    mempool = mempool;
    txs = txs;
    acc_size_without_accounts = u64_add s.acc_size_without_accounts tx_size;
    size_accounts_diffs = accounts_size;
    account_diffs = merged;
  })

  -- whether the block with the transaction is larger than a blob
  abbrev pub too_big : Filling → ℕ × ℕ → Bool
  too_big s (tx_size, accounts_size) =
      ltb safe_bytes_per_blob (u64_add (u64_add s.acc_size_without_accounts tx_size) accounts_size)

  admitted : Filling → Tx → Receipt → Diffs ledger → ℕ × ℕ → Bool → Turn
  unfolding undone taken
  admitted s tx receipt merged sizes true = undone s (undo_last_tx s.context)
  admitted s tx receipt merged sizes false =
      taken s tx receipt merged sizes (shift s.txs)
        (remove_transaction_from_pool (hash tx) s.mempool)

  sized : Filling → Tx → Receipt → Diffs ledger → Result (Error F) (ℕ × ℕ) → Turn
  unfolding admitted
  sized s tx receipt merged (err e) = fail e
  sized s tx receipt merged (ok sizes) = admitted s tx receipt merged sizes (too_big s sizes)

  diffed : Filling → Tx → Receipt → Result (Error F) (Diffs ledger) → Turn
  unfolding sized
  diffed s tx receipt (err e) = fail e
  diffed s tx receipt (ok diffs) =
      let merged = merge_diffs ledger s.account_diffs diffs in
      sized s tx receipt merged (
        calculate_tx_diff_size ledger merged (is_privileged_l2 tx) (messages receipt)
          privileged_tx_log_len l1message_log_len)

  applied : Filling → Tx → Context × Result F Receipt → Turn
  unfolding diffed
  applied s tx (context, err e) = next (skip (record s { context = context }))
  applied s tx (context, ok receipt) =
      diffed (record s { context = context }) tx receipt
        (get_account_diffs_in_tx ledger (db context))

  -- whether the nonce of a transaction is below its sender's
  abbrev pub too_low : Tx → Option ℕ → Bool
  too_low tx none = false
  too_low tx (some account_nonce) = ltb (nonce tx) account_nonce && not (is_privileged tx)

  informed : Filling → Tx → Result F (Option ℕ) → Turn
  unfolding dropped applied
  informed s tx (err e) = fail (other e)
  informed s tx (ok account_nonce) =
      if too_low tx account_nonce
      then dropped s (remove_transaction_from_pool (hash tx) s.mempool)
      else applied s tx (apply_plain_transaction tx s.context)

  abbrev pub over_gas : Filling → Tx → Bool
  over_gas s tx = ltb (remaining_gas s.context) (gas_limit tx)

  abbrev pub replayed : Filling → Tx → Bool
  replayed s tx = protected tx && not (is_eip155_activated s.chain_config s.context)

  tried : Filling → Tx → Turn
  unfolding dropped informed
  tried s tx =
      if over_gas s tx
      then next (skip s)
      else if replayed s tx
      then dropped s (remove_transaction_from_pool (hash tx) s.mempool)
      else informed s tx (get_account_info s.latest_block_number (sender tx))

  peeked : Filling → Option Tx → Turn
  unfolding tried
  peeked s none = break s
  peeked s (some tx) = tried s tx

  abbrev pub out_of_gas : Filling → Bool
  out_of_gas s = ltb (remaining_gas s.context) tx_gas_cost

  abbrev pub out_of_space : Filling → Bool
  out_of_space s = ltb safe_bytes_per_blob (
      u64_add (u64_add s.acc_size_without_accounts s.size_accounts_diffs) simple_tx_state_diff_size)

  -- the body of the loop
  unfoldable pub round : Filling → Turn
  unfolding peeked
  round s =
      if out_of_gas s then break s else if out_of_space s then break s else peeked s (peek s.txs)

  turned : (Filling → Option (Result (Error F) Filling)) → Turn → Option (Result (Error F) Filling)
  turned continue (next s) = continue s
  turned continue (break s) = some (ok s)
  turned continue (fail e) = some (err e)

  unfoldable pub fill_loop : ℕ → Filling → Option (Result (Error F) Filling)
  unfolding turned
  fill_loop zero s = none
  fill_loop (suc fuel) s = turned (fill_loop fuel) (round s)

  -- `while let Some(blob_tx) = blob_txs.peek()`; each leaves the pool
  unfoldable pub drop_blobs : ℕ → Queue → Mempool → Option (Result F Mempool)
  drop_blobs zero blob_txs mempool = none
  drop_blobs (suc fuel) blob_txs mempool = elim (peek blob_txs) [
    | none ↦ some (ok mempool)
    | some blob_tx ↦ elim (remove_transaction_from_pool (hash blob_tx) mempool) [
      | ok mempool' ↦ drop_blobs fuel (pop blob_txs) mempool'
      | err e ↦ some (err e)
    ]
  ]

  abbrev pub filling : Config → ℕ → Context → Mempool → Queue → Filling
  filling config latest context mempool txs = record {
    chain_config = config;
    latest_block_number = latest;
    context = context;
    mempool = mempool;
    txs = txs;
    acc_size_without_accounts = 1 + block_header_len + 2 + 2 + 2;
    size_accounts_diffs = 0;
    account_diffs = [];
  }

  fetched : ℕ → (Mempool → Filling) → Option (Result F Mempool) → Option (Result (Error F) Filling)
  fetched fuel start none = none
  fetched fuel start (some (err e)) = some (err (other e))
  fetched fuel start (some (ok mempool)) = fill_loop fuel (start mempool)

  queued :
      ℕ
      → Config
      → ℕ
      → Context
      → Mempool
      → Result F (Queue × Queue)
      → Option (Result (Error F) Filling)
  unfolding fetched
  queued fuel config latest context mempool (err e) = some (err (other e))
  queued fuel config latest context mempool (ok (plain_txs, blob_txs)) =
      fetched fuel (λ pool. filling config latest context pool plain_txs)
        (drop_blobs fuel blob_txs mempool)

  started : ℕ → Context → Mempool → Result F Config → Result F ℕ → Option (Result (Error F) Filling)
  unfolding queued
  started fuel context mempool (err e) latest = some (err (other e))
  started fuel context mempool (ok config) (err e) = some (err (other e))
  started fuel context mempool (ok config) (ok latest) =
      queued fuel config latest context mempool (fetch context mempool)

  unfoldable pub fill_transactions : ℕ → Context → Mempool → Option (Result (Error F) Filling)
  unfolding started
  fill_transactions fuel context mempool =
      started fuel context mempool get_chain_config get_latest_block_number
