-- ===== src/UniqueHeap/Drain.antt =====
-- The items that come out when a consumer pops again and again, as in
-- `while let Some(item) = heap.pop().await`, and the histories of a heap.
use mathlib.Core.List.{Perm}
use mathlib.Core.List.Perm
use mojave.Base.{
  ℕ, zero, suc, ◌≤◌, ◌≡◌, refl, sym, ap, subst, Option, none, some, List, [], ◌∷◌, arith, All,
  All-of_perm, KeyEq, inl, inr, length, length-eq_of_perm,
}
use mojave.UniqueHeap.{HeapItem, AsyncUniqueHeap, new, push, pop}
use mojave.UniqueHeap.Order.{Le}
use mojave.UniqueHeap.Invariant.{IsUnique, pop-Pops, new-IsUnique, push-IsUnique, pop-IsUnique}

pub data Op (T : Type 0) : Type 0 where
  pushes : T → Op T
  pops : Op T

module _ {T K : Type 0} (item : HeapItem T K) where
  abbrev pub Descending : List T → Type 0
  Descending [] = Unit
  Descending (x ∷ xs) = All (λ y. Le item y x) xs × Descending xs

module _ {T K : Type 0} (item : HeapItem T K) ⦃e : KeyEq K⦄ {N : Type 0} where
  drain_next :
      (AsyncUniqueHeap T K N → AsyncUniqueHeap T K N × List T)
      → AsyncUniqueHeap T K N × Option T
      → AsyncUniqueHeap T K N × List T
  drain_next more (self, none) = (self, [])
  drain_next more (self, some x) = let (last, xs) = more self in (last, x ∷ xs)

  unfoldable pub drain : ℕ → AsyncUniqueHeap T K N → AsyncUniqueHeap T K N × List T
  unfolding drain_next
  drain zero self = (self, [])
  drain (suc n) self = drain_next (drain n) (pop item self)

  -- When at most `n` items are there, `n` pops return every one of them once, no item before a
  -- greater one, and leave the heap empty.
  pub drain_sorts :
      (n : ℕ) (self : AsyncUniqueHeap T K N)
      → length self.inner.heap ≤ n
      → Perm self.inner.heap (drain n self).1
        × Descending item (drain n self).1
        × ((drain n self).0.inner.heap ≡ [])
  unfolding drain
  drain_sorts zero self few = by_length self.inner.heap few
    where
      by_length : (xs : List T) → length xs ≤ 0 → Perm xs [] × Unit {0} × (xs ≡ [])
      by_length [] h = (Perm.refl [], tt, refl)
      by_length (x ∷ xs) h = absurd (omega arith)
  drain_sorts (suc n) self few = elim (pop-Pops item self) [
    | inl (empty, r) ↦
        rw (r, drain_next)
          (subst (λ xs. Perm xs []) (sym empty) (Perm.refl []), tt, cc (ap (λ p. p.0.inner.heap) r))
    | inr (x, rest, parts, below, r) ↦
        let left : (pop item self).0.inner.heap ≡ rest = ap (λ p. p.0.inner.heap) r in
        let fits : length rest ≤ n = omega (arith, length-eq_of_perm parts) in
        let (same, sorted, last) = drain_sorts n (pop item self).0 (rw left fits) in
        let same' = subst (λ xs. Perm xs (drain n (pop item self).0).1) left same in
        rw (r, drain_next)
          (
            Perm.trans parts (Perm.cons x same'),
            (All-of_perm (λ y. hlevel) same' below, sorted),
            last,
          )
  ]

  step : (N → N) → AsyncUniqueHeap T K N → Op T → AsyncUniqueHeap T K N
  step notify_one self (pushes x) = (push item notify_one self x).0
  step notify_one self pops = (pop item self).0

  unfoldable pub run : (N → N) → AsyncUniqueHeap T K N → List (Op T) → AsyncUniqueHeap T K N
  unfolding step
  run notify_one self [] = self
  run notify_one self (o ∷ os) = run notify_one (step notify_one self o) os

  run-IsUnique :
      (notify_one : N → N) (self : AsyncUniqueHeap T K N) (os : List (Op T))
      → IsUnique item self.inner
      → IsUnique item (run notify_one self os).inner
  unfolding run step
  run-IsUnique notify_one self [] u = u
  run-IsUnique notify_one self (pushes x ∷ os) u =
      run-IsUnique notify_one (push item notify_one self x).0 os
        (push-IsUnique item notify_one self x u)
  run-IsUnique notify_one self (pops ∷ os) u =
      run-IsUnique notify_one (pop item self).0 os (pop-IsUnique item self u)

  -- After any history of pushes and pops on a new heap, the items have different keys, and the key
  -- set holds exactly their keys.
  pub run-new-IsUnique :
      (notify_one : N → N) (notify : N) (os : List (Op T))
      → IsUnique item (run notify_one (new notify) os).inner
  run-new-IsUnique notify_one notify os =
      run-IsUnique notify_one (new notify) os (new-IsUnique item notify)
