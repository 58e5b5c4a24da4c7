-- ===== src/BatchProducer/Loop/Range.antt =====
-- Which blocks a run of the loop takes, and how long it runs.
use mojave.Base.{
  ℕ, zero, suc, ◌+◌, ◌^◌, ◌≤◌, ◌<◌, ◌≡◌, sym, subst, ◌∙◌, ◌⊎◌, inl, inr, Option, none, some, Result,
  ok, err, arith,
}
use mojave.BatchProducer.Chain.{Chain, Error, u64_add}
use mojave.BatchProducer.Loop.{Progress, Turn, next, break, fail, turned, round, block_loop}
use mojave.BatchProducer.Loop.Blocks.{Included, Ends, Step, round-Step}

pub u64_add-suc : (a : ℕ) → suc a < 2 ^ 64 → u64_add a 1 ≡ suc a
u64_add-suc a h = omega (arith, h)

pub ≤-split : (m n : ℕ) → m ≤ n → (m ≡ n) ⊎ (suc m ≤ n)
≤-split m n h = ground (arith, h)

module _ (chain : Chain) where
  open chain use {F, Hash, Store, Rollup}

  -- `root` is that of the block before `last`, or the one there was at the start when none is taken.
  abbrev pub RootOf : Store → Rollup → ℕ → Hash → ℕ → Hash → Type 0
  RootOf store rollup first start last root =
      ((first ≡ last) × (root ≡ start))
      ⊎ ((n : ℕ) × (i : Included chain store rollup n) × (first ≤ n)
          × (suc n ≡ last)
          × (root ≡ i.root))

  -- All blocks from one number up to another, the last one excluded, are taken, and there it ends.
  pub record Takes (store : Store) (rollup : Rollup) (first : ℕ) (start : Hash) (last : ℕ)
      (root : Hash) : Type 0 where
    pub ordered : first ≤ last
    pub included : (n : ℕ) → first ≤ n → n < last → Included chain store rollup n
    pub ends : Ends chain store last
    pub root_of : RootOf store rollup first start last root

  unfoldable pub Stops :
      Store → Rollup → Progress chain → ℕ → Option (Result (Error F) (Progress chain)) → Type 0
  Stops store rollup s fuel none = Unit
  Stops store rollup s fuel (some (err e)) = Unit
  Stops store rollup s fuel (some (ok t)) =
      Takes store rollup s.current_block s.state_root t.current_block t.state_root
      × (t.current_block < s.current_block + fuel)

  root_later :
      (store : Store) (rollup : Rollup) (m : ℕ) (start : Hash) (i : Included chain store rollup m)
      (first : Hash) (last : ℕ) (root : Hash)
      → first ≡ i.root
      → RootOf store rollup (suc m) first last root
      → RootOf store rollup m start last root
  root_later store rollup m start i first last root h (inl (same, r)) =
      inr (m, i, omega arith, same, r ∙ h)
  root_later store rollup m start i first last root h (inr (n, j, le, e, r)) =
      inr (n, j, omega (arith, le), e, r)

  Takes-suc :
      (store : Store) (rollup : Rollup) (m : ℕ) (start : Hash) (i : Included chain store rollup m)
      (first : Hash) (last : ℕ) (root : Hash)
      → first ≡ i.root
      → Takes store rollup (suc m) first last root
      → Takes store rollup m start last root
  Takes-suc store rollup m start i first last root h later = record {
    ordered = omega (arith, later.ordered);
    included = λ n le lt. elim (≤-split m n le) [
      | inl same ↦ subst (Included chain store rollup) same i
      | inr above ↦ later.included n above lt
    ];
    ends = later.ends;
    root_of = root_later store rollup m start i first last root h later.root_of;
  }

  next-Stops :
      (store : Store) (rollup : Rollup) (fuel : ℕ) (s t : Progress chain)
      (r : Option (Result (Error F) (Progress chain)))
      (i : Included chain store rollup s.current_block)
      → t.state_root ≡ i.root
      → t.current_block ≡ suc s.current_block
      → Stops store rollup t fuel r
      → Stops store rollup s (suc fuel) r
  unfolding Stops
  next-Stops store rollup fuel s t none i root step h = tt
  next-Stops store rollup fuel s t (some (err e)) i root step h = tt
  next-Stops store rollup fuel s t (some (ok u)) i root step (takes, bound) = (
    Takes-suc store rollup s.current_block s.state_root i t.state_root u.current_block u.state_root
        root
        (subst (λ n. Takes store rollup n t.state_root u.current_block u.state_root) step takes),
    omega (arith, bound, step),
  )

  turned-Stops :
      (store : Store) (rollup : Rollup) (fuel : ℕ) (s : Progress chain) (turn : Turn chain)
      (continue : Progress chain → Option (Result (Error F) (Progress chain)))
      → s.current_block + suc fuel < 2 ^ 64
      → ((t : Progress chain)
          → t.current_block + fuel < 2 ^ 64
          → Stops store rollup t fuel (continue t))
      → Step chain store rollup s turn
      → Stops store rollup s (suc fuel) (turned chain continue turn)
  unfolding turned Step Stops
  turned-Stops store rollup fuel s (fail e) continue h later step = tt
  turned-Stops store rollup fuel s (break t) continue h later (same, root, ends) = (
    record {
      ordered = omega (arith, same);
      included = λ n le lt. absurd (omega (arith, le, lt, same));
      ends = rw same ends;
      root_of = inl (sym same, root);
    },
    omega (arith, same),
  )
  turned-Stops store rollup fuel s (next t) continue h later (step, i, root) =
      next-Stops store rollup fuel s t (continue t) i root
        (step ∙ u64_add-suc s.current_block (omega (arith, h)))
        (later t (rw (step, u64_add-suc s.current_block (omega (arith, h))) (omega (arith, h))))

  pub block_loop-Stops :
      (store : Store) (rollup : Rollup) (first_block fuel : ℕ) (s : Progress chain)
      → s.current_block + fuel < 2 ^ 64
      → Stops store rollup s fuel (block_loop chain (round chain store rollup first_block) fuel s)
  unfolding block_loop Stops
  block_loop-Stops store rollup first_block zero s h = tt
  block_loop-Stops store rollup first_block (suc fuel) s h =
      turned-Stops store rollup fuel s (round chain store rollup first_block s)
        (block_loop chain (round chain store rollup first_block) fuel) h
        (block_loop-Stops store rollup first_block fuel)
        (round-Step chain store rollup first_block s)
