-- ===== src/PendingHeap/Tests.antt =====
-- A heap of numbered blocks that counts its notifications, and the theorems on it.
use mathlib.Core.List.{Perm}
use mojave.Base.{
  ℕ, Bool, true, false, none, some, suc, ◌≤◌, ◌≡◌, refl, List, [], ◌∷◌, map, arith, All, nat_key,
  Result, ok, err, eqb, if◌then◌else◌, is_ok,
}
use mojave.Base.Collections.{contains, set_insert, set_remove}
use mojave.UniqueHeap
use mojave.UniqueHeap.{AsyncUniqueHeap, take_greatest}
use mojave.UniqueHeap.Invariant.{IsUnique}
use mojave.UniqueHeap.Drain.{
  Op, pushes, pops, run, drain, Descending, drain_sorts, run-new-IsUnique,
}
use mojave.UniqueHeap.Waiting.{
  Notify, Event, polls, pushes as arrives, IsReturned, turn, pop_wait, pop_wait-IsReturned,
}
use mojave.PendingHeap.{OrderedBlock, ordered_item, PendingHeap, SignedBlock, ingest_signed_block}
use mojave.PendingHeap.Ascending.{Ascending, drain_ascends}
use mojave.PendingHeap.Ingest.{Verified, ingest-Verified}

abbrev blk : ℕ → OrderedBlock ℕ
blk n = record { block = n }

abbrev number : ℕ → ℕ
number n = n

abbrev history : List (Op (OrderedBlock ℕ))
history =
    pushes (blk 5) ∷ pushes (blk 1) ∷ pushes (blk 5) ∷ pushes (blk 10) ∷ pops ∷ pushes (blk 3) ∷ []

abbrev heap : AsyncUniqueHeap (OrderedBlock ℕ) ℕ ℕ
heap = run (ordered_item number) suc (UniqueHeap.new 0) history

-- The duplicate neither enters nor notifies; the lowest number leaves first.
heap_result : (map (λ b. b.block) heap.inner.heap ≡ 3 ∷ 10 ∷ 5 ∷ []) × (heap.notify ≡ 4)
unfolding run UniqueHeap.new UniqueHeap.push UniqueHeap.pop take_greatest contains set_insert
    set_remove
heap_result = (refl, refl)

run-new-IsUnique_example : IsUnique (ordered_item number) heap.inner
run-new-IsUnique_example = run-new-IsUnique (ordered_item number) suc 0 history

heap_few : UniqueHeap.len heap ≤ 3
unfolding UniqueHeap.len run UniqueHeap.new UniqueHeap.push UniqueHeap.pop take_greatest contains
    set_insert set_remove
heap_few = omega arith

drain_sorts_example :
    Perm heap.inner.heap (drain (ordered_item number) 3 heap).1
    × Descending (ordered_item number) (drain (ordered_item number) 3 heap).1
    × ((drain (ordered_item number) 3 heap).0.inner.heap ≡ [])
unfolding UniqueHeap.len
drain_sorts_example = drain_sorts (ordered_item number) 3 heap heap_few

drain_ascends_example :
    Perm heap.inner.heap (drain (ordered_item number) 3 heap).1
    × Ascending number (drain (ordered_item number) 3 heap).1
unfolding UniqueHeap.len
drain_ascends_example =
    drain_ascends number 3 heap (run-new-IsUnique (ordered_item number) suc 0 history) heap_few

-- A check that accepts the signature that is the block's hash.
abbrev check : ℕ → ℕ → ℕ → Result ℕ (Unit {0})
check key hash signature = if eqb hash signature then ok tt else err 7

abbrev empty : PendingHeap ℕ ℕ
empty = record { inner = UniqueHeap.new 0 }

abbrev signed : SignedBlock ℕ ℕ ℕ
signed = record { block = 8; signature = 8; verifying_key = 0 }

no_blocks : All (Verified {Block = ℕ} number check) empty.inner.inner.heap
unfolding UniqueHeap.new
no_blocks = tt

ingest-Verified_example :
    All
      (Verified number check)
      (ingest_signed_block number
        (λ n. "bad signature")
        number
        check
        suc
        empty
        signed).0.inner.inner.heap
    × (is_ok (ingest_signed_block number (λ n. "bad signature") number check suc empty signed).1
        ≡ true)
ingest-Verified_example =
    ingest-Verified number number check (λ n. "bad signature") suc empty signed no_blocks

-- one permit, which `notify_one` stores
abbrev permit : Notify
permit = record { N = Bool; notify_one = λ n. true; notified = λ n. if n then some false else none }

-- The consumer looks into the empty heap and sleeps; then two blocks arrive.
abbrev busy : List (Event (OrderedBlock ℕ))
busy = polls ∷ polls ∷ arrives (blk 5) ∷ arrives (blk 4) ∷ []

abbrev waited :
    AsyncUniqueHeap (OrderedBlock ℕ) ℕ Bool × UniqueHeap.Waiting.Consumer (OrderedBlock ℕ)
waited = pop_wait (ordered_item number) permit busy (UniqueHeap.new false)

waited-full : waited.0.inner.heap ≡ [] → ⊥
unfolding pop_wait UniqueHeap.Waiting.wait UniqueHeap.new UniqueHeap.push UniqueHeap.pop contains
    set_insert UniqueHeap.Waiting.turn
waited-full h = cc h

pop_wait-IsReturned_example : IsReturned (ordered_item number) permit (
    turn
      (ordered_item number)
      permit
      (UniqueHeap.pop (ordered_item number))
      (turn (ordered_item number) permit (UniqueHeap.pop (ordered_item number)) waited))
pop_wait-IsReturned_example =
    pop_wait-IsReturned (ordered_item number) permit (λ n. tt) busy (UniqueHeap.new false)
      waited-full
