-- ===== src/BatchProducer/Loop/Enough.antt =====
-- How much fuel the loop of `prepare_batch_from_block` needs.
use mojave.Base.{
  ℕ, zero, suc, ◌+◌, ◌^◌, ◌≤◌, ◌<◌, ◌≡◌, refl, subst, ◌∙◌, inl, inr, Option, none, some, Result, ok,
  err, arith,
}
use mojave.BatchProducer.Chain.{Chain, Error}
use mojave.BatchProducer.Build.{
  BatchProducer, get_block_data, with_header, get_last_committed_block, create_parent_database,
}
use mojave.BatchProducer.Loop.{
  Progress, Turn, next, break, fail, round, turned, block_loop, collect, collected, at_first,
  over_parent, prepare_batch_from_block, prepared, from_last, build_batch,
}
use mojave.BatchProducer.Loop.Blocks.{Included, Step, round-Step}
use mojave.BatchProducer.Loop.Range.{≤-split, u64_add-suc}

module _ (chain : Chain) where
  open chain use {F, Hash, Store, Rollup, get_block_body}

  -- The value is there.
  abbrev pub Returns : {A : Type 0} → Option A → Type 0
  Returns none = ⊥
  Returns (some a) = Unit

  not-Included :
      (store : Store) (rollup : Rollup) (top : ℕ)
      → get_block_data chain store top ≡ ok none
      → Included chain store rollup top
      → ⊥
  not-Included store rollup top h i = cc (h, i.found)

  turned-Returns :
      (store : Store) (rollup : Rollup) (top fuel : ℕ) (s : Progress chain) (turn : Turn chain)
      (continue : Progress chain → Option (Result (Error F) (Progress chain)))
      → get_block_data chain store top ≡ ok none
      → s.current_block ≤ top
      → top < 2 ^ 64
      → top < s.current_block + suc fuel
      → ((t : Progress chain)
          → t.current_block ≤ top
          → top < t.current_block + fuel
          → Returns (continue t))
      → Step chain store rollup s turn
      → Returns (turned chain continue turn)
  unfolding turned Step
  turned-Returns store rollup top fuel s (fail e) continue missing le small bound later step = tt
  turned-Returns store rollup top fuel s (break t) continue missing le small bound later step = tt
  turned-Returns store rollup top fuel s (next t) continue missing le small bound later
        (step, i, root) =
      elim (≤-split s.current_block top le) [
        | inl same ↦
            absurd
              (not-Included store rollup top missing (subst (Included chain store rollup) same i))
        | inr above ↦
            later t
              (omega
                (arith, above, step ∙ u64_add-suc s.current_block (omega (arith, above, small))))
              (omega
                (arith, bound, step ∙ u64_add-suc s.current_block (omega (arith, above, small))))
      ]

  block_loop-Returns :
      (store : Store) (rollup : Rollup) (first_block top fuel : ℕ) (s : Progress chain)
      → get_block_data chain store top ≡ ok none
      → s.current_block ≤ top
      → top < 2 ^ 64
      → top < s.current_block + fuel
      → Returns (block_loop chain (round chain store rollup first_block) fuel s)
  unfolding block_loop
  block_loop-Returns store rollup first_block top zero s missing le small bound =
      omega (arith, le, bound)
  block_loop-Returns store rollup first_block top (suc fuel) s missing le small bound =
      turned-Returns store rollup top fuel s (round chain store rollup first_block s)
        (block_loop chain (round chain store rollup first_block) fuel) missing le small bound
        (λ t le' bound'.
          block_loop-Returns store rollup first_block top fuel t missing le' small bound')
        (round-Step chain store rollup first_block s)

  prepared-Returns :
      (self : BatchProducer chain) (first last : ℕ) (r : Option (Result (Error F) (Progress chain)))
      → Returns r
      → Returns (prepared chain self first (collected chain last r))
  unfolding prepared collected collect
  prepared-Returns self first last none h = h
  prepared-Returns self first last (some (err e)) h = tt
  prepared-Returns self first last (some (ok t)) h = ground (arith)

  over_parent-Returns :
      (self : BatchProducer chain) (l top fuel : ℕ) (r : Result (Error F) Hash)
      → get_block_data chain self.store top ≡ ok none
      → suc l ≤ top
      → top < 2 ^ 64
      → top < suc l + fuel
      → Returns (
          prepared chain self
            (suc l)
            (over_parent chain fuel self.store self.rollup_store l (suc l) r))
  unfolding over_parent prepared
  over_parent-Returns self l top fuel (err e) missing le small bound = tt
  over_parent-Returns self l top fuel (ok parent) missing le small bound =
      prepared-Returns self (suc l) l _ (
        block_loop-Returns self.store self.rollup_store (suc l) top fuel (at_first chain (suc l))
          missing le small bound)

  -- When the store has no body for some block `top` above the last committed one, fuel for the
  -- blocks up to `top` is enough: `build_batch` returns, with a batch or with an error.
  pub build_batch-Returns :
      (fuel : ℕ) (self : BatchProducer chain) (l top : ℕ)
      → get_last_committed_block chain self.rollup_store self.batch_counter ≡ ok l
      → get_block_body self.store top ≡ ok none
      → suc l ≤ top
      → top < 2 ^ 64
      → top < suc l + fuel
      → Returns (build_batch chain fuel self)
  unfolding build_batch from_last prepare_batch_from_block get_block_data with_header
  build_batch-Returns fuel self l top last missing le small bound =
      rw (last, from_last, u64_add-suc l (omega (arith, le, small)))
        (over_parent-Returns self l top fuel (create_parent_database chain self.store (suc l))
          (rw missing refl) le small bound)
