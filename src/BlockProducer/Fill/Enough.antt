-- ===== src/BlockProducer/Fill/Enough.antt =====
-- How many rounds the loop of `fill_transactions` takes.
use mojave.Base.{
  ℕ, zero, suc, ◌<◌, ◌≡◌, refl, inl, inr, Bool, true, false, Bool-cases, Option, none, some,
  if◌then◌else◌, Result, ok, err, arith,
}
use mojave.BlockProducer.Diffs.{Ledger, Error, Diffs}
use mojave.BlockProducer.Fill.{
  Builder, Filling, Turn, next, break, fail, skip, dropped, undone, taken, admitted, sized, diffed,
  applied, too_low, informed, over_gas, replayed, tried, peeked, out_of_gas, out_of_space, round,
  turned, fill_loop,
}

module _ (ledger : Ledger) (builder : Builder ledger) where
  open ledger use {F}
  open builder use {
    Tx, Receipt, Context, Mempool, Queue, pop, shift, peek, remove_transaction_from_pool,
    undo_last_tx, hash, apply_plain_transaction, get_account_info, sender,
  }

  -- A queue has finitely many transactions: `pop` drops some of them, and `shift` the first.
  pub record Shrinks : Type 0 where
    pub remaining : Queue → ℕ
    pub pops : (q : Queue) (tx : Tx) → peek q ≡ some tx → remaining (pop q) < remaining q
    pub shifts :
        (q q' : Queue) (tx : Tx) → peek q ≡ some tx → shift q ≡ ok q' → remaining q' < remaining q

  module _ (shrinks : Shrinks) where
    open shrinks use {remaining}

    Smaller : ℕ → Turn ledger builder → Type 0
    Smaller n (next s) = remaining s.txs < n
    Smaller n (break s) = Unit
    Smaller n (fail e) = Unit

    dropped-Smaller :
        (n : ℕ) (s : Filling ledger builder) (r : Result F Mempool)
        → remaining (pop s.txs) < n
        → Smaller n (dropped ledger builder s r)
    unfolding dropped Smaller
    dropped-Smaller n s (ok mempool) h = h
    dropped-Smaller n s (err e) h = tt

    undone-Smaller :
        (n : ℕ) (s : Filling ledger builder) (r : Result F Context)
        → remaining (pop s.txs) < n
        → Smaller n (undone ledger builder s r)
    unfolding undone Smaller
    undone-Smaller n s (ok context) h = h
    undone-Smaller n s (err e) h = tt

    taken-Smaller :
        (s : Filling ledger builder) (tx : Tx) (receipt : Receipt) (merged : Diffs ledger)
        (sizes : ℕ × ℕ) (txs : Result F Queue) (pool : Result F Mempool)
        → peek s.txs ≡ some tx
        → shift s.txs ≡ txs
        → Smaller (remaining s.txs) (taken ledger builder s tx receipt merged sizes txs pool)
    unfolding taken Smaller
    taken-Smaller s tx receipt merged sizes (err e) pool p q = tt
    taken-Smaller s tx receipt merged sizes (ok txs) (err e) p q = tt
    taken-Smaller s tx receipt merged sizes (ok txs) (ok mempool) p q =
        shrinks.shifts s.txs txs tx p q

    admitted-Smaller :
        (s : Filling ledger builder) (tx : Tx) (receipt : Receipt) (merged : Diffs ledger)
        (sizes : ℕ × ℕ) (big : Bool)
        → peek s.txs ≡ some tx
        → Smaller (remaining s.txs) (admitted ledger builder s tx receipt merged sizes big)
    unfolding admitted
    admitted-Smaller s tx receipt merged sizes true p =
        undone-Smaller (remaining s.txs) s (undo_last_tx s.context) (shrinks.pops s.txs tx p)
    admitted-Smaller s tx receipt merged sizes false p =
        taken-Smaller s tx receipt merged sizes (shift s.txs)
          (remove_transaction_from_pool (hash tx) s.mempool) p refl

    sized-Smaller :
        (s : Filling ledger builder) (tx : Tx) (receipt : Receipt) (merged : Diffs ledger)
        (r : Result (Error F) (ℕ × ℕ))
        → peek s.txs ≡ some tx
        → Smaller (remaining s.txs) (sized ledger builder s tx receipt merged r)
    unfolding sized Smaller
    sized-Smaller s tx receipt merged (err e) p = tt
    sized-Smaller s tx receipt merged (ok sizes) p = admitted-Smaller s tx receipt merged sizes _ p

    diffed-Smaller :
        (s : Filling ledger builder) (tx : Tx) (receipt : Receipt)
        (r : Result (Error F) (Diffs ledger))
        → peek s.txs ≡ some tx
        → Smaller (remaining s.txs) (diffed ledger builder s tx receipt r)
    unfolding diffed Smaller
    diffed-Smaller s tx receipt (err e) p = tt
    diffed-Smaller s tx receipt (ok diffs) p = sized-Smaller s tx receipt _ _ p

    applied-Smaller :
        (s : Filling ledger builder) (tx : Tx) (r : Context × Result F Receipt)
        → peek s.txs ≡ some tx
        → Smaller (remaining s.txs) (applied ledger builder s tx r)
    unfolding applied Smaller
    applied-Smaller s tx (context, err e) p = shrinks.pops s.txs tx p
    applied-Smaller s tx (context, ok receipt) p =
        diffed-Smaller (record s { context = context }) tx receipt _ p

    informed-Smaller :
        (s : Filling ledger builder) (tx : Tx) (r : Result F (Option ℕ))
        → peek s.txs ≡ some tx
        → Smaller (remaining s.txs) (informed ledger builder s tx r)
    unfolding informed Smaller
    informed-Smaller s tx (err e) p = tt
    informed-Smaller s tx (ok account_nonce) p =
        elim (Bool-cases (too_low ledger builder tx account_nonce)) [
          | inl low ↦ rw low (dropped-Smaller (remaining s.txs) s _ (shrinks.pops s.txs tx p))
          | inr fine ↦ rw fine (applied-Smaller s tx _ p)
        ]

    if-Smaller :
        (n : ℕ) (b : Bool) (t u : Turn ledger builder)
        → Smaller n t
        → Smaller n u
        → Smaller n (if b then t else u)
    if-Smaller n true t u h k = h
    if-Smaller n false t u h k = k

    tried-Smaller :
        (s : Filling ledger builder) (tx : Tx)
        → peek s.txs ≡ some tx
        → Smaller (remaining s.txs) (tried ledger builder s tx)
    unfolding tried Smaller
    tried-Smaller s tx p =
        let n = remaining s.txs in
        let gone = dropped ledger builder s (remove_transaction_from_pool (hash tx) s.mempool) in
        let known =
          informed ledger builder s tx (get_account_info s.latest_block_number (sender tx)) in
        if-Smaller n (over_gas ledger builder s tx) (next (skip ledger builder s))
          (if replayed ledger builder s tx then gone else known) (shrinks.pops s.txs tx p)
          (if-Smaller n (replayed ledger builder s tx) gone known
            (dropped-Smaller n s _ (shrinks.pops s.txs tx p)) (informed-Smaller s tx _ p))

    peeked-Smaller :
        (s : Filling ledger builder) (tx : Option Tx)
        → peek s.txs ≡ tx
        → Smaller (remaining s.txs) (peeked ledger builder s tx)
    unfolding peeked Smaller
    peeked-Smaller s none p = tt
    peeked-Smaller s (some tx) p = tried-Smaller s tx p

    round-Smaller :
        (s : Filling ledger builder) → Smaller (remaining s.txs) (round ledger builder s)
    unfolding round Smaller
    round-Smaller s =
        let n = remaining s.txs in
        let later = peeked ledger builder s (peek s.txs) in
        if-Smaller n (out_of_gas ledger builder s) (break s)
          (if out_of_space ledger builder s then break s else later) tt
          (if-Smaller n (out_of_space ledger builder s) (break s) later tt
            (peeked-Smaller s (peek s.txs) refl))

    abbrev pub Returns : {A : Type 0} → Option A → Type 0
    Returns none = ⊥
    Returns (some a) = Unit

    turned-Returns :
        (n : ℕ) (turn : Turn ledger builder)
        (continue : Filling ledger builder → Option (Result (Error F) (Filling ledger builder)))
        → ((s : Filling ledger builder) → remaining s.txs < n → Returns (continue s))
        → Smaller n turn
        → Returns (turned ledger builder continue turn)
    unfolding turned Smaller
    turned-Returns n (next s) continue later h = later s h
    turned-Returns n (break s) continue later h = tt
    turned-Returns n (fail e) continue later h = tt

    -- With more fuel than there are transactions in the queue, the loop returns: each round breaks,
    -- fails, or takes at least one of them off the queue.
    pub fill_loop-Returns :
        (fuel : ℕ) (s : Filling ledger builder)
        → remaining s.txs < fuel
        → Returns (fill_loop ledger builder fuel s)
    unfolding fill_loop
    fill_loop-Returns zero s h = omega (arith, h)
    fill_loop-Returns (suc fuel) s h =
        turned-Returns (remaining s.txs) (round ledger builder s) (fill_loop ledger builder fuel)
          (λ t less. fill_loop-Returns fuel t (omega (arith, h, less))) (round-Smaller s)
