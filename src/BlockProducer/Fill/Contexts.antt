-- ===== src/BlockProducer/Fill/Contexts.antt =====
-- The filling of a block and the context of its payload.
use mojave.Base.{
  ℕ, zero, suc, Bool, true, false, Bool-cases, inl, inr, Option, none, some, if◌then◌else◌, Result,
  ok, err, ◌≡◌, ◌∙◌, refl,
}
use mojave.BlockProducer.Diffs.{Ledger, Error, Diffs}
use mojave.BlockProducer.Fill.{
  Builder, Filling, Turn, next, break, fail, skip, dropped, undone, taken, too_big, admitted, sized,
  diffed, applied, too_low, informed, over_gas, replayed, out_of_gas, out_of_space, tried, peeked,
  round, turned, fill_loop, filling, fetched, queued, started, fill_transactions,
}

module _ (ledger : Ledger) (builder : Builder ledger) where
  open ledger use {F}
  open builder use {
    Tx, Receipt, Context, Mempool, Config, Queue, pop, shift, peek, remove_transaction_from_pool,
    undo_last_tx, push, hash, apply_plain_transaction, get_account_info, sender, fetch,
    get_chain_config, get_latest_block_number,
  }

  -- The three calls that change a context keep the part.
  pub record KeepsPart {O : Type 0} (part : Context → O) : Type 0 where
    pub applies : (tx : Tx) (c : Context) → part (apply_plain_transaction tx c).0 ≡ part c
    pub undoes : (c c' : Context) → undo_last_tx c ≡ ok c' → part c' ≡ part c
    pub pushes : (tx : Tx) (receipt : Receipt) (c : Context) → part (push tx receipt c) ≡ part c

  module _ {O : Type 0} (part : Context → O) (keeps : KeepsPart part) (o : O) where
    Holds : Turn ledger builder → Type 0
    Holds (next s) = part s.context ≡ o
    Holds (break s) = part s.context ≡ o
    Holds (fail e) = Unit

    dropped-Holds :
        (s : Filling ledger builder) (r : Result F Mempool)
        → part s.context ≡ o
        → Holds (dropped ledger builder s r)
    unfolding dropped Holds
    dropped-Holds s (ok mempool) h = h
    dropped-Holds s (err e) h = tt

    undone-Holds :
        (s : Filling ledger builder) (r : Result F Context)
        → undo_last_tx s.context ≡ r
        → part s.context ≡ o
        → Holds (undone ledger builder s r)
    unfolding undone Holds
    undone-Holds s (ok context) e h = keeps.undoes s.context context e ∙ h
    undone-Holds s (err x) e h = tt

    taken-Holds :
        (s : Filling ledger builder) (tx : Tx) (receipt : Receipt) (merged : Diffs ledger)
        (sizes : ℕ × ℕ) (txs : Result F Queue) (pool : Result F Mempool)
        → part s.context ≡ o
        → Holds (taken ledger builder s tx receipt merged sizes txs pool)
    unfolding taken Holds
    taken-Holds s tx receipt merged sizes (err e) pool h = tt
    taken-Holds s tx receipt merged sizes (ok txs) (err e) h = tt
    taken-Holds s tx receipt merged sizes (ok txs) (ok mempool) h =
        keeps.pushes tx receipt s.context ∙ h

    admitted-Holds :
        (s : Filling ledger builder) (tx : Tx) (receipt : Receipt) (merged : Diffs ledger)
        (sizes : ℕ × ℕ) (big : Bool)
        → part s.context ≡ o
        → Holds (admitted ledger builder s tx receipt merged sizes big)
    unfolding admitted
    admitted-Holds s tx receipt merged sizes true h = undone-Holds s (undo_last_tx s.context) refl h
    admitted-Holds s tx receipt merged sizes false h =
        taken-Holds s tx receipt merged sizes (shift s.txs)
          (remove_transaction_from_pool (hash tx) s.mempool) h

    sized-Holds :
        (s : Filling ledger builder) (tx : Tx) (receipt : Receipt) (merged : Diffs ledger)
        (r : Result (Error F) (ℕ × ℕ))
        → part s.context ≡ o
        → Holds (sized ledger builder s tx receipt merged r)
    unfolding sized Holds
    sized-Holds s tx receipt merged (err e) h = tt
    sized-Holds s tx receipt merged (ok sizes) h =
        admitted-Holds s tx receipt merged sizes (too_big ledger builder s sizes) h

    diffed-Holds :
        (s : Filling ledger builder) (tx : Tx) (receipt : Receipt)
        (r : Result (Error F) (Diffs ledger))
        → part s.context ≡ o
        → Holds (diffed ledger builder s tx receipt r)
    unfolding diffed Holds
    diffed-Holds s tx receipt (err e) h = tt
    diffed-Holds s tx receipt (ok diffs) h = sized-Holds s tx receipt _ _ h

    applied-Holds :
        (s : Filling ledger builder) (tx : Tx) (r : Context × Result F Receipt)
        → part r.0 ≡ o
        → Holds (applied ledger builder s tx r)
    unfolding applied Holds
    applied-Holds s tx (context, err e) h = h
    applied-Holds s tx (context, ok receipt) h =
        diffed-Holds (record s { context = context }) tx receipt _ h

    informed-Holds :
        (s : Filling ledger builder) (tx : Tx) (r : Result F (Option ℕ))
        → part s.context ≡ o
        → Holds (informed ledger builder s tx r)
    unfolding informed Holds
    informed-Holds s tx (err e) h = tt
    informed-Holds s tx (ok account_nonce) h =
        elim (Bool-cases (too_low ledger builder tx account_nonce)) [
          | inl low ↦ rw low (dropped-Holds s _ h)
          | inr fine ↦ rw fine (
              applied-Holds s tx (apply_plain_transaction tx s.context)
                (keeps.applies tx s.context ∙ h))
        ]

    if-Holds :
        (b : Bool) (t u : Turn ledger builder) → Holds t → Holds u → Holds (if b then t else u)
    if-Holds true t u h k = h
    if-Holds false t u h k = k

    peeked-Holds :
        (s : Filling ledger builder) (tx : Option Tx)
        → part s.context ≡ o
        → Holds (peeked ledger builder s tx)
    unfolding peeked tried Holds
    peeked-Holds s none h = h
    peeked-Holds s (some tx) h =
        let gone = dropped ledger builder s (remove_transaction_from_pool (hash tx) s.mempool) in
        let known =
          informed ledger builder s tx (get_account_info s.latest_block_number (sender tx)) in
        if-Holds (over_gas ledger builder s tx) (next (skip ledger builder s))
          (if replayed ledger builder s tx then gone else known) h
          (if-Holds (replayed ledger builder s tx) gone known (dropped-Holds s _ h)
            (informed-Holds s tx _ h))

    round-Holds : (s : Filling ledger builder) → part s.context ≡ o → Holds (round ledger builder s)
    unfolding round Holds
    round-Holds s h =
        let later = peeked ledger builder s (peek s.txs) in
        if-Holds (out_of_gas ledger builder s) (break s)
          (if out_of_space ledger builder s then break s else later) h
          (if-Holds (out_of_space ledger builder s) (break s) later h
            (peeked-Holds s (peek s.txs) h))

    abbrev pub HoldsAll : Option (Result (Error F) (Filling ledger builder)) → Type 0
    HoldsAll none = Unit
    HoldsAll (some (err e)) = Unit
    HoldsAll (some (ok s)) = part s.context ≡ o

    turned-HoldsAll :
        (turn : Turn ledger builder)
        (continue : Filling ledger builder → Option (Result (Error F) (Filling ledger builder)))
        → ((s : Filling ledger builder) → part s.context ≡ o → HoldsAll (continue s))
        → Holds turn
        → HoldsAll (turned ledger builder continue turn)
    unfolding turned Holds
    turned-HoldsAll (next s) continue later h = later s h
    turned-HoldsAll (break s) continue later h = h
    turned-HoldsAll (fail e) continue later h = tt

    fill_loop-HoldsAll :
        (fuel : ℕ) (s : Filling ledger builder)
        → part s.context ≡ o
        → HoldsAll (fill_loop ledger builder fuel s)
    unfolding fill_loop
    fill_loop-HoldsAll zero s h = tt
    fill_loop-HoldsAll (suc fuel) s h =
        turned-HoldsAll (round ledger builder s) (fill_loop ledger builder fuel)
          (fill_loop-HoldsAll fuel) (round-Holds s h)

    fetched-HoldsAll :
        (fuel : ℕ) (start : Mempool → Filling ledger builder) (r : Option (Result F Mempool))
        → ((pool : Mempool) → part (start pool).context ≡ o)
        → HoldsAll (fetched ledger builder fuel start r)
    unfolding fetched
    fetched-HoldsAll fuel start none h = tt
    fetched-HoldsAll fuel start (some (err e)) h = tt
    fetched-HoldsAll fuel start (some (ok pool)) h = fill_loop-HoldsAll fuel (start pool) (h pool)

    queued-HoldsAll :
        (fuel : ℕ) (config : Config) (latest : ℕ) (context : Context) (mempool : Mempool)
        (r : Result F (Queue × Queue))
        → part context ≡ o
        → HoldsAll (queued ledger builder fuel config latest context mempool r)
    unfolding queued
    queued-HoldsAll fuel config latest context mempool (err e) h = tt
    queued-HoldsAll fuel config latest context mempool (ok (plain_txs, blob_txs)) h =
        fetched-HoldsAll fuel (λ pool. filling ledger builder config latest context pool plain_txs)
          _ (λ pool. h)

    started-HoldsAll :
        (fuel : ℕ) (context : Context) (mempool : Mempool) (config : Result F Config)
        (latest : Result F ℕ)
        → part context ≡ o
        → HoldsAll (started ledger builder fuel context mempool config latest)
    unfolding started
    started-HoldsAll fuel context mempool (err e) latest h = tt
    started-HoldsAll fuel context mempool (ok config) (err e) h = tt
    started-HoldsAll fuel context mempool (ok config) (ok latest) h =
        queued-HoldsAll fuel config latest context mempool (fetch context mempool) h

    -- The context that the filling leaves has the part that it had.
    pub fill_transactions-HoldsAll :
        (fuel : ℕ) (context : Context) (mempool : Mempool)
        → part context ≡ o
        → HoldsAll (fill_transactions ledger builder fuel context mempool)
    unfolding fill_transactions
    fill_transactions-HoldsAll fuel context mempool h =
        started-HoldsAll fuel context mempool get_chain_config get_latest_block_number h
