-- ===== src/BlockProducer/Fill/Bound.antt =====
-- The size of a block against that of a blob.
use mojave.Base.{
  ℕ, zero, suc, ◌+◌, ◌^◌, ◌<◌, ◌≤◌, ◌≡◌, refl, inl, inr, Bool, true, false, Bool-cases, Option,
  none, some, if◌then◌else◌, Result, ok, err, arith,
}
use mojave.BlockProducer.Diffs.{Ledger, Error, Diffs, u64_add}
use mojave.BlockProducer.Fill.{
  Builder, Filling, Turn, next, break, fail, skip, dropped, undone, taken, too_big, admitted, sized,
  diffed, applied, too_low, informed, over_gas, replayed, out_of_gas, out_of_space, tried, peeked,
  round, turned, fill_loop, filling, fetched, queued, started, fill_transactions,
}

module _ (ledger : Ledger) (builder : Builder ledger) where
  open ledger use {F}
  open builder use {
    Tx, Receipt, Context, Mempool, Config, Queue, block_header_len, safe_bytes_per_blob, pop, shift,
    peek, remove_transaction_from_pool, undo_last_tx, hash, apply_plain_transaction,
    get_account_info, sender, fetch, get_chain_config, get_latest_block_number,
  }

  -- The size of the state diff, as far as it is counted, is at most that of a blob.
  abbrev pub Fits : Filling ledger builder → Type 0
  Fits s = u64_add s.acc_size_without_accounts s.size_accounts_diffs ≤ safe_bytes_per_blob

  Keeps : Turn ledger builder → Type 0
  Keeps (next s) = Fits s
  Keeps (break s) = Fits s
  Keeps (fail e) = Unit

  dropped-Keeps :
      (s : Filling ledger builder) (r : Result F Mempool)
      → Fits s
      → Keeps (dropped ledger builder s r)
  unfolding dropped Keeps
  dropped-Keeps s (ok mempool) h = h
  dropped-Keeps s (err e) h = tt

  undone-Keeps :
      (s : Filling ledger builder) (r : Result F Context)
      → Fits s
      → Keeps (undone ledger builder s r)
  unfolding undone Keeps
  undone-Keeps s (ok context) h = h
  undone-Keeps s (err e) h = tt

  taken-Keeps :
      (s : Filling ledger builder) (tx : Tx) (receipt : Receipt) (merged : Diffs ledger)
      (sizes : ℕ × ℕ) (txs : Result F Queue) (pool : Result F Mempool)
      → too_big ledger builder s sizes ≡ false
      → Keeps (taken ledger builder s tx receipt merged sizes txs pool)
  unfolding taken Keeps
  taken-Keeps s tx receipt merged sizes (err e) pool h = tt
  taken-Keeps s tx receipt merged sizes (ok txs) (err e) h = tt
  taken-Keeps s tx receipt merged sizes (ok txs) (ok mempool) h = ground arith

  admitted-Keeps :
      (s : Filling ledger builder) (tx : Tx) (receipt : Receipt) (merged : Diffs ledger)
      (sizes : ℕ × ℕ) (big : Bool)
      → Fits s
      → too_big ledger builder s sizes ≡ big
      → Keeps (admitted ledger builder s tx receipt merged sizes big)
  unfolding admitted
  admitted-Keeps s tx receipt merged sizes true h e = undone-Keeps s (undo_last_tx s.context) h
  admitted-Keeps s tx receipt merged sizes false h e =
      taken-Keeps s tx receipt merged sizes (shift s.txs)
        (remove_transaction_from_pool (hash tx) s.mempool) e

  sized-Keeps :
      (s : Filling ledger builder) (tx : Tx) (receipt : Receipt) (merged : Diffs ledger)
      (r : Result (Error F) (ℕ × ℕ))
      → Fits s
      → Keeps (sized ledger builder s tx receipt merged r)
  unfolding sized Keeps
  sized-Keeps s tx receipt merged (err e) h = tt
  sized-Keeps s tx receipt merged (ok sizes) h = admitted-Keeps s tx receipt merged sizes _ h refl

  diffed-Keeps :
      (s : Filling ledger builder) (tx : Tx) (receipt : Receipt)
      (r : Result (Error F) (Diffs ledger))
      → Fits s
      → Keeps (diffed ledger builder s tx receipt r)
  unfolding diffed Keeps
  diffed-Keeps s tx receipt (err e) h = tt
  diffed-Keeps s tx receipt (ok diffs) h = sized-Keeps s tx receipt _ _ h

  applied-Keeps :
      (s : Filling ledger builder) (tx : Tx) (r : Context × Result F Receipt)
      → Fits s
      → Keeps (applied ledger builder s tx r)
  unfolding applied Keeps
  applied-Keeps s tx (context, err e) h = h
  applied-Keeps s tx (context, ok receipt) h =
      diffed-Keeps (record s { context = context }) tx receipt _ h

  informed-Keeps :
      (s : Filling ledger builder) (tx : Tx) (r : Result F (Option ℕ))
      → Fits s
      → Keeps (informed ledger builder s tx r)
  unfolding informed Keeps
  informed-Keeps s tx (err e) h = tt
  informed-Keeps s tx (ok account_nonce) h =
      elim (Bool-cases (too_low ledger builder tx account_nonce)) [
        | inl low ↦ rw low (dropped-Keeps s _ h)
        | inr fine ↦ rw fine (applied-Keeps s tx _ h)
      ]

  if-Keeps : (b : Bool) (t u : Turn ledger builder) → Keeps t → Keeps u → Keeps (if b then t else u)
  if-Keeps true t u h k = h
  if-Keeps false t u h k = k

  tried-Keeps : (s : Filling ledger builder) (tx : Tx) → Fits s → Keeps (tried ledger builder s tx)
  unfolding tried Keeps
  tried-Keeps s tx h =
      let gone = dropped ledger builder s (remove_transaction_from_pool (hash tx) s.mempool) in
      let known =
        informed ledger builder s tx (get_account_info s.latest_block_number (sender tx)) in
      if-Keeps (over_gas ledger builder s tx) (next (skip ledger builder s))
        (if replayed ledger builder s tx then gone else known) h
        (if-Keeps (replayed ledger builder s tx) gone known (dropped-Keeps s _ h)
          (informed-Keeps s tx _ h))

  peeked-Keeps :
      (s : Filling ledger builder) (tx : Option Tx) → Fits s → Keeps (peeked ledger builder s tx)
  unfolding peeked Keeps
  peeked-Keeps s none h = h
  peeked-Keeps s (some tx) h = tried-Keeps s tx h

  round-Keeps : (s : Filling ledger builder) → Fits s → Keeps (round ledger builder s)
  unfolding round Keeps
  round-Keeps s h =
      let later = peeked ledger builder s (peek s.txs) in
      if-Keeps (out_of_gas ledger builder s) (break s)
        (if out_of_space ledger builder s then break s else later) h
        (if-Keeps (out_of_space ledger builder s) (break s) later h (peeked-Keeps s (peek s.txs) h))

  -- The result of a run that returns is in bounds.
  abbrev pub FitsAll : Option (Result (Error F) (Filling ledger builder)) → Type 0
  FitsAll none = Unit
  FitsAll (some (err e)) = Unit
  FitsAll (some (ok s)) = Fits s

  turned-Fits :
      (turn : Turn ledger builder)
      (continue : Filling ledger builder → Option (Result (Error F) (Filling ledger builder)))
      → ((s : Filling ledger builder) → Fits s → FitsAll (continue s))
      → Keeps turn
      → FitsAll (turned ledger builder continue turn)
  unfolding turned Keeps
  turned-Fits (next s) continue later h = later s h
  turned-Fits (break s) continue later h = h
  turned-Fits (fail e) continue later h = tt

  fill_loop-Fits :
      (fuel : ℕ) (s : Filling ledger builder) → Fits s → FitsAll (fill_loop ledger builder fuel s)
  unfolding fill_loop
  fill_loop-Fits zero s h = tt
  fill_loop-Fits (suc fuel) s h =
      turned-Fits (round ledger builder s) (fill_loop ledger builder fuel) (fill_loop-Fits fuel)
        (round-Keeps s h)

  fetched-Fits :
      (fuel : ℕ) (start : Mempool → Filling ledger builder) (r : Option (Result F Mempool))
      → ((pool : Mempool) → Fits (start pool))
      → FitsAll (fetched ledger builder fuel start r)
  unfolding fetched
  fetched-Fits fuel start none h = tt
  fetched-Fits fuel start (some (err e)) h = tt
  fetched-Fits fuel start (some (ok pool)) h = fill_loop-Fits fuel (start pool) (h pool)

  queued-Fits :
      (fuel : ℕ) (config : Config) (latest : ℕ) (context : Context) (mempool : Mempool)
      (r : Result F (Queue × Queue))
      → 1 + block_header_len + 2 + 2 + 2 ≤ safe_bytes_per_blob
      → safe_bytes_per_blob < 2 ^ 64
      → FitsAll (queued ledger builder fuel config latest context mempool r)
  unfolding queued
  queued-Fits fuel config latest context mempool (err e) small top = tt
  queued-Fits fuel config latest context mempool (ok (plain_txs, blob_txs)) small top =
      fetched-Fits fuel (λ pool. filling ledger builder config latest context pool plain_txs) _
        (λ pool. omega (arith, small, top))

  started-Fits :
      (fuel : ℕ) (context : Context) (mempool : Mempool) (config : Result F Config)
      (latest : Result F ℕ)
      → 1 + block_header_len + 2 + 2 + 2 ≤ safe_bytes_per_blob
      → safe_bytes_per_blob < 2 ^ 64
      → FitsAll (started ledger builder fuel context mempool config latest)
  unfolding started
  started-Fits fuel context mempool (err e) latest small top = tt
  started-Fits fuel context mempool (ok config) (err e) small top = tt
  started-Fits fuel context mempool (ok config) (ok latest) small top =
      queued-Fits fuel config latest context mempool (fetch context mempool) small top

  -- When an empty state diff fits a blob, then after the transactions are filled in, the counted size
  -- of the block's state diff, on `u64`, is at most that of a blob, whatever was taken or skipped.
  pub fill_transactions-Fits :
      (fuel : ℕ) (context : Context) (mempool : Mempool)
      → 1 + block_header_len + 2 + 2 + 2 ≤ safe_bytes_per_blob
      → safe_bytes_per_blob < 2 ^ 64
      → FitsAll (fill_transactions ledger builder fuel context mempool)
  unfolding fill_transactions
  fill_transactions-Fits fuel context mempool small top =
      started-Fits fuel context mempool get_chain_config get_latest_block_number small top
