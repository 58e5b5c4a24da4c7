-- ===== src/PendingHeap/Ascending.antt =====
-- The order in which pending blocks come out.
use mathlib.Core.List.{Mem, Nodup, Nodup-cons, mem-cons_self, mem-cons_of_mem, Perm}
use mathlib.Core.List.Perm
use mojave.Base.{ℕ, ◌<◌, ◌≤◌, ◌≢◌, sym, subst, List, [], ◌∷◌, map, length, arith, All, nat_key}
use mojave.UniqueHeap.{AsyncUniqueHeap}
use mojave.UniqueHeap.Order.{Le}
use mojave.UniqueHeap.Invariant.{IsUnique}
use mojave.UniqueHeap.Drain.{Descending, drain, drain_sorts}
use mojave.PendingHeap.{OrderedBlock, ordered_item, key}

module _ {Block : Type 0} (number : Block → ℕ) where
  abbrev pub Ascending : List (OrderedBlock Block) → Type 0
  Ascending [] = Unit
  Ascending (b ∷ bs) = All (λ c. number b.block < number c.block) bs × Ascending bs

  above :
      (b : OrderedBlock Block) (bs : List (OrderedBlock Block))
      → ¬ Mem (number b.block) (map (key number) bs)
      → All (λ c. Le (ordered_item number) c b) bs
      → All (λ c. number b.block < number c.block) bs
  above b [] away h = tt
  above b (c ∷ cs) away h =
      let ne : number b.block ≢ number c.block = λ e.
        away (subst (λ n. Mem n (number c.block ∷ map (key number) cs)) (sym e) mem-cons_self) in
      let rest = above b cs (λ m. away (mem-cons_of_mem (number c.block) m)) h.1 in
      (ground (arith, h.0), rest)

  Descending-Ascending :
      (bs : List (OrderedBlock Block))
      → Descending (ordered_item number) bs
      → Nodup (map (key number) bs)
      → Ascending bs
  Descending-Ascending [] d u = tt
  Descending-Ascending (b ∷ bs) d u =
      let (away, others) = Nodup-cons.0 u in
      (above b bs away d.0, Descending-Ascending bs d.1 others)

  -- From a heap whose items have different keys, as many pops as there are blocks return all of
  -- them, by strictly ascending block number.
  pub drain_ascends :
      {N : Type 0} (n : ℕ) (self : AsyncUniqueHeap (OrderedBlock Block) ℕ N)
      → IsUnique (ordered_item number) self.inner
      → length self.inner.heap ≤ n
      → Perm self.inner.heap (drain (ordered_item number) n self).1
        × Ascending (drain (ordered_item number) n self).1
  drain_ascends n self u few =
      let (same, sorted, _) = drain_sorts (ordered_item number) n self few in
      (same, Descending-Ascending _ sorted (Perm.nodup (Perm.map (key number) same) u.distinct))
