-- ===== src/BatchProducer/Loop/Blocks.antt =====
-- The blocks that the loop of `prepare_batch_from_block` takes into a batch.
use mojave.Base.{
  ℕ, ◌≡◌, refl, ◌⊎◌, inl, inr, Option, none, some, List, eqb, Bool-cases, Result, ok, err,
}
use mojave.BatchProducer.Chain.{Chain, Error, u64_add}
use mojave.BatchProducer.Build.{
  BlockData, generate_blobs_bundle, get_block_state_root, get_block_data, process_block,
}
use mojave.BatchProducer.Accumulator.{add_block_data}
use mojave.BatchProducer.Loop.{
  Progress, Turn, next, break, fail, after_root, after_bundle, after_diff, after_process,
  after_data, round,
}

module _ (chain : Chain) where
  open chain use {
    F, Hash, Store, Rollup, Bundle, AccountUpdate, L1Message, PrivilegedTx, default_diff,
  }

  -- the block with this number is there, its updates are found, and its diff fits a blob
  pub record Included (store : Store) (rollup : Rollup) (n : ℕ) : Type 0 where
    pub block_data : BlockData chain
    pub found : get_block_data chain store n ≡ ok (some block_data)
    pub updates : List L1Message × List PrivilegedTx × List AccountUpdate
    pub processed : process_block chain store rollup block_data ≡ ok updates
    pub bundle : Bundle × ℕ
    pub fits : generate_blobs_bundle chain default_diff ≡ ok bundle
    pub root : Hash
    pub rooted : get_block_state_root chain store block_data ≡ ok root

  -- why the loop stops at a number: no such block, or no space in a blob
  abbrev pub Ends : Store → ℕ → Type 0
  Ends store n =
      (get_block_data chain store n ≡ ok none)
      ⊎ ((e : Error F) × (generate_blobs_bundle chain default_diff ≡ err e))

  -- one round, by how it ends
  unfoldable pub Step : Store → Rollup → Progress chain → Turn chain → Type 0
  Step store rollup s (fail e) = Unit
  Step store rollup s (break t) =
      (t.current_block ≡ s.current_block)
      × (t.state_root ≡ s.state_root)
      × Ends store s.current_block
  Step store rollup s (next t) =
      (t.current_block ≡ u64_add s.current_block 1)
      × (i : Included store rollup s.current_block) × (t.state_root ≡ i.root)

  after_root-Step :
      (store : Store) (rollup : Rollup) (s t : Progress chain) (block_data : BlockData chain)
      (updates : List L1Message × List PrivilegedTx × List AccountUpdate) (bundle : Bundle × ℕ)
      (r : Result (Error F) Hash)
      → get_block_data chain store s.current_block ≡ ok (some block_data)
      → process_block chain store rollup block_data ≡ ok updates
      → generate_blobs_bundle chain default_diff ≡ ok bundle
      → get_block_state_root chain store block_data ≡ r
      → Step store rollup s (after_root chain t bundle.0 s.current_block r)
  unfolding after_root Step
  after_root-Step store rollup s t block_data updates bundle (err e) d p b r = tt
  after_root-Step store rollup s t block_data updates bundle (ok root) d p b r = (
    refl,
    record {
      block_data = block_data;
      found = d;
      updates = updates;
      processed = p;
      bundle = bundle;
      fits = b;
      root = root;
      rooted = r;
    },
    refl,
  )

  after_bundle-Step :
      (store : Store) (rollup : Rollup) (first_block : ℕ) (s t : Progress chain)
      (block_data : BlockData chain)
      (updates : List L1Message × List PrivilegedTx × List AccountUpdate)
      (r : Result (Error F) (Bundle × ℕ))
      → get_block_data chain store s.current_block ≡ ok (some block_data)
      → process_block chain store rollup block_data ≡ ok updates
      → t.current_block ≡ s.current_block
      → t.state_root ≡ s.state_root
      → generate_blobs_bundle chain default_diff ≡ r
      → Step store rollup s (after_bundle chain store first_block t block_data r)
  unfolding after_bundle Step
  after_bundle-Step store rollup first_block s t block_data updates (ok bundle) d p same root b =
      rw same (
        after_root-Step store rollup s t block_data updates bundle
          (get_block_state_root chain store block_data) d p b refl)
  after_bundle-Step store rollup first_block s t block_data updates (err e) d p same root b =
      elim (Bool-cases (eqb t.current_block first_block)) [
        | inl h ↦ rw h tt
        | inr h ↦ rw h (same, root, inr (e, b))
      ]

  after_process-Step :
      (store : Store) (rollup : Rollup) (first_block : ℕ) (s : Progress chain)
      (block_data : BlockData chain)
      (r : Result (Error F) (List L1Message × List PrivilegedTx × List AccountUpdate))
      → get_block_data chain store s.current_block ≡ ok (some block_data)
      → process_block chain store rollup block_data ≡ r
      → Step store rollup s (after_process chain store first_block s block_data r)
  unfolding after_process after_diff Step
  after_process-Step store rollup first_block s block_data (err e) d p = tt
  after_process-Step store rollup first_block s block_data (ok updates) d p =
      after_bundle-Step store rollup first_block s
        (record s {
          accumulator = add_block_data chain s.accumulator updates.0 updates.1 updates.2;
        })
        block_data updates _ d p refl refl refl

  after_data-Step :
      (store : Store) (rollup : Rollup) (first_block : ℕ) (s : Progress chain)
      (r : Result (Error F) (Option (BlockData chain)))
      → get_block_data chain store s.current_block ≡ r
      → Step store rollup s (after_data chain store rollup first_block s r)
  unfolding after_data Step
  after_data-Step store rollup first_block s (err e) d = tt
  after_data-Step store rollup first_block s (ok none) d = (refl, refl, inl d)
  after_data-Step store rollup first_block s (ok (some block_data)) d =
      after_process-Step store rollup first_block s block_data _ d refl

  pub round-Step :
      (store : Store) (rollup : Rollup) (first_block : ℕ) (s : Progress chain)
      → Step store rollup s (round chain store rollup first_block s)
  unfolding round Step
  round-Step store rollup first_block s = after_data-Step store rollup first_block s _ refl
