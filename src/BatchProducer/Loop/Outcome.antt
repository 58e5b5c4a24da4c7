-- ===== src/BatchProducer/Loop/Outcome.antt =====
-- What `build_batch` returns, and what `handle_request` makes of it.
use mojave.Base.{
  ℕ, suc, ◌+◌, ◌^◌, ◌<◌, ◌≡◌, refl, sym, Option, none, some, Result, ok, err, false, eqb, arith,
  map_err, ◌>>=◌, subst,
}
use mojave.BatchProducer.Chain.{Chain, Batch, Error, u64_add, privileged_transaction_error}
use mojave.BatchProducer.Build.{
  BatchData, BatchProducer, batch_of, create_batch, get_last_committed_block,
}
use mojave.BatchProducer.Loop.{
  Progress, collect, collected, batch_data_of, at_first, over_parent, prepare_batch_from_block,
  Built, sealed, created, prepared, from_last, build_batch,
}
use mojave.BatchProducer.Loop.Range.{Takes, Stops, block_loop-Stops, u64_add-suc}

le→eqb-false : (m n : ℕ) → m < n → eqb n m ≡ false
le→eqb-false m n h = ground (arith, h)

module _ (chain : Chain) where
  open chain use {F, Hash, Bundle, Rollup, default_hash, seal_batch, Sender, send}

  -- A batch `b` after the last committed block `l`: it has the next number, its blocks are those
  -- from `l + 1` up to `b.last_block`, which is not among them, and the store has sealed it.
  pub record Follows (self : BatchProducer chain) (l : ℕ) (b : Batch Hash Bundle)
      (self' : BatchProducer chain) : Type 0 where
    pub number : b.number ≡ u64_add self.batch_counter 1
    pub first_block : b.first_block ≡ suc l
    pub blocks :
        Takes chain self.store self.rollup_store (suc l) default_hash b.last_block b.state_root
    pub counter : self'.batch_counter ≡ b.number
    pub store : self'.store ≡ self.store
    pub stored : seal_batch self.rollup_store b ≡ (self'.rollup_store, ok tt)

  unfoldable pub Outcome : BatchProducer chain → ℕ → Option (Built chain) → Type 0
  Outcome self l none = Unit
  Outcome self l (some (err e, self')) = self'.batch_counter ≡ self.batch_counter
  Outcome self l (some (ok none, self')) = ⊥
  Outcome self l (some (ok (some b), self')) = Follows self l b self'

  sealed-Outcome :
      (self : BatchProducer chain) (l : ℕ) (b : Batch Hash Bundle)
      (r : Rollup × Result F (Unit {0}))
      → b.number ≡ u64_add self.batch_counter 1
      → b.first_block ≡ suc l
      → Takes chain self.store self.rollup_store (suc l) default_hash b.last_block b.state_root
      → seal_batch self.rollup_store b ≡ r
      → Outcome self l (some (sealed chain self b r))
  unfolding sealed Outcome
  sealed-Outcome self l b (rollup, err e) number first blocks h = refl
  sealed-Outcome self l b (rollup, ok u) number first blocks h = record {
    number = number;
    first_block = first;
    blocks = blocks;
    counter = sym number;
    store = refl;
    stored = h;
  }

  created-Outcome :
      (self : BatchProducer chain) (l first : ℕ) (data' : BatchData chain) (r : Result F Hash)
      → first ≡ suc l
      → Takes chain self.store self.rollup_store
          (suc l)
          default_hash
          data'.last_block
          data'.state_root
      → Outcome self l (
          some (
            created chain self (
              map_err privileged_transaction_error r >>= λ h.
              ok (batch_of chain (u64_add self.batch_counter 1) first data' h))))
  unfolding created Outcome
  created-Outcome self l first data' (err e) h blocks = refl
  created-Outcome self l first data' (ok hash) h blocks =
      sealed-Outcome self l (batch_of chain (u64_add self.batch_counter 1) first data' hash) _ refl
        h blocks refl

  collected-Outcome :
      (self : BatchProducer chain) (l fuel first : ℕ)
      (r : Option (Result (Error F) (Progress chain)))
      → first ≡ suc l
      → Stops chain self.store self.rollup_store (at_first chain first) fuel r
      → Outcome self l (prepared chain self first (collected chain l r))
  unfolding collected collect prepared Outcome Stops create_batch
  collected-Outcome self l fuel first none h stops = tt
  collected-Outcome self l fuel first (some (err e)) h stops = refl
  collected-Outcome self l fuel first (some (ok t)) h (takes, bound) =
      rw (le→eqb-false l t.current_block (omega (arith, h, takes.ordered))) (
        created-Outcome self l first (batch_data_of chain t)
          (chain.compute_privileged_transactions_hash t.accumulator.privileged_tx_hashes) h
          (subst
            (λ n.
              Takes chain self.store self.rollup_store n default_hash t.current_block t.state_root)
            h takes))

  over_parent-Outcome :
      (self : BatchProducer chain) (l fuel first : ℕ) (r : Result (Error F) Hash)
      → first ≡ suc l
      → first + fuel < 2 ^ 64
      → Outcome self l (
          prepared chain self first (over_parent chain fuel self.store self.rollup_store l first r))
  unfolding over_parent prepared Outcome
  over_parent-Outcome self l fuel first (err e) h bound = refl
  over_parent-Outcome self l fuel first (ok parent) h bound =
      collected-Outcome self l fuel first _ h (
        block_loop-Stops chain self.store self.rollup_store first fuel (at_first chain first) bound)

  -- After the last committed block `l`, and with fuel that does not reach the end of the block
  -- numbers, a batch that is built has the next number, holds exactly the blocks from `l + 1` to the
  -- one before its `last_block`, all of which were found and processed, and carries the state root of
  -- the last of them; it is sealed and the counter moves to its number. On an error the counter stays.
  -- The answer without a batch never occurs.
  pub build_batch-Outcome :
      (fuel : ℕ) (self : BatchProducer chain) (l : ℕ)
      → get_last_committed_block chain self.rollup_store self.batch_counter ≡ ok l
      → suc l + fuel < 2 ^ 64
      → Outcome self l (build_batch chain fuel self)
  unfolding build_batch from_last prepare_batch_from_block
  build_batch-Outcome fuel self l last bound =
      rw (last, from_last, u64_add-suc l (omega (arith, bound)))
        (over_parent-Outcome self l fuel (suc l) _ refl bound)
