-- ===== src/BatchProducer/Loop/Seams.antt =====
-- What happens between two batches, and between a batch and its announcement.
use mojave.Base.{ℕ, suc, ◌+◌, ◌^◌, ◌<◌, ◌≡◌, refl, ap, subst, ◌∙◌, some, List, ok, err, get_last?}
use mojave.BatchProducer.Chain.{Chain, Batch, u64_add, broadcast_error}
use mojave.BatchProducer.Build.{
  build_batch_request, BatchProducer, last_of, get_last_committed_block,
}
use mojave.BatchProducer.Loop.{build_batch, sent_result, sent, answered, answered?, handle_request}
use mojave.BatchProducer.Loop.Blocks.{Ends}
use mojave.BatchProducer.Loop.Outcome.{Follows, Outcome, build_batch-Outcome}

module _ (chain : Chain) where
  open chain use {
    F, Hash, Bundle, Store, Rollup, seal_batch, get_block_numbers_by_batch, Sender, send,
  }

  -- A sealed batch is found again under its number, with its blocks up to its `last_block`.
  abbrev pub Seals : Type 0
  Seals =
      (rollup rollup' : Rollup) (b : Batch Hash Bundle)
      → seal_batch rollup b ≡ (rollup', ok tt)
      → (numbers : List ℕ) × (get_block_numbers_by_batch rollup' b.number ≡ ok (some numbers))
        × (get_last? numbers ≡ some b.last_block)

  built-Follows :
      (fuel : ℕ) (self self' : BatchProducer chain) (l : ℕ) (b : Batch Hash Bundle)
      → get_last_committed_block chain self.rollup_store self.batch_counter ≡ ok l
      → suc l + fuel < 2 ^ 64
      → build_batch chain fuel self ≡ some (ok (some b), self')
      → Follows chain self l b self'
  unfolding Outcome
  built-Follows fuel self self' l b last bound built =
      subst (Outcome chain self l) built (build_batch-Outcome chain fuel self l last bound)

  last-sealed :
      (self self' : BatchProducer chain) (l : ℕ) (b : Batch Hash Bundle)
      → Seals
      → Follows chain self l b self'
      → get_last_committed_block chain self'.rollup_store self'.batch_counter ≡ ok b.last_block
  unfolding get_last_committed_block last_of
  last-sealed self self' l b seals f =
      let (numbers, found, last) = seals self.rollup_store self'.rollup_store b f.stored in
      rw (f.counter, found, last) refl

  -- Of two batches built one after the other, where blocks may come in between, the second starts one block above the `last_block` of
  -- the first, which is the block at which the first one ended: that block is in neither.
  pub build_batch-skips :
      (fuel fuel' : ℕ) (self self' self'' : BatchProducer chain) (later : Store) (l : ℕ)
      (b b' : Batch Hash Bundle)
      → Seals
      → get_last_committed_block chain self.rollup_store self.batch_counter ≡ ok l
      → suc l + fuel < 2 ^ 64
      → suc b.last_block + fuel' < 2 ^ 64
      → build_batch chain fuel self ≡ some (ok (some b), self')
      → build_batch chain fuel' (record self' { store = later }) ≡ some (ok (some b'), self'')
      → Ends chain self.store b.last_block
        × (b'.first_block ≡ suc b.last_block)
        × (b'.number ≡ u64_add b.number 1)
  build_batch-skips fuel fuel' self self' self'' later l b b' seals last bound bound' built built' =
      let f = built-Follows fuel self self' l b last bound built in
      let g =
        built-Follows fuel' (record self' { store = later }) self'' b.last_block b'
          (last-sealed self self' l b seals f) bound' built' in
      (f.blocks.ends, g.first_block, g.number ∙ ap (λ n. u64_add n 1) f.counter)

  -- When the channel refuses a batch that was built, the request fails with that error although the
  -- batch is sealed in the store and the counter has moved on to its number.
  pub handle_request-unannounced :
      (fuel : ℕ) (self self' : BatchProducer chain) (l : ℕ) (b : Batch Hash Bundle)
      (channel : Sender) (e : F)
      → get_last_committed_block chain self.rollup_store self.batch_counter ≡ ok l
      → suc l + fuel < 2 ^ 64
      → build_batch chain fuel self ≡ some (ok (some b), self')
      → send self'.broadcast b ≡ (channel, err e)
      → (after : BatchProducer chain) × (handle_request chain fuel self build_batch_request
          ≡ some (err (broadcast_error e), after))
        × (after.batch_counter ≡ u64_add self.batch_counter 1)
        × (seal_batch self.rollup_store b ≡ (after.rollup_store, ok tt))
  unfolding handle_request answered? answered sent sent_result
  handle_request-unannounced fuel self self' l b channel e last bound built refused =
      let f = built-Follows fuel self self' l b last bound built in
      (
        record self' { broadcast = channel },
        rw built (ap (λ r. some (sent_result chain self' b r)) refused),
        f.counter ∙ f.number,
        f.stored,
      )
