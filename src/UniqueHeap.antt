-- ===== src/UniqueHeap.antt =====
-- crates/utils/src/unique_heap.rs: a priority queue that holds each key once. `BinaryHeap` is the
-- list of its items, of which `pop` takes a greatest one; which of several equal ones is left open
-- by the standard library, and here it is the last in the list. The lock makes each operation one
-- step. Tokio's `Notify` is a parameter: a type of states and what `notify_one` does to one.
pub mod Order
pub mod Invariant
pub mod Drain
pub mod Waiting
use Prim.Native.Nat.{Ordering}
use mojave.Base.{
  ℕ, ◌≡◌, Bool, true, false, Option, none, some, List, [], ◌∷◌, length, if◌then◌else◌, KeyEq,
}
use mojave.Base.Collections.{set_insert, set_remove}

-- The bound `T: Ord + UniqueHeapItem<K>`; `Ord` promises a total order.
pub record HeapItem (T K : Type 0) : Type 0 where
  pub key : T → K
  pub cmp : T → T → Ordering
  pub total : (a b : T) → cmp a b ≡ Ordering.gt → (cmp b a ≡ Ordering.gt → ⊥)
  pub trans :
      (a b c : T)
      → (cmp a b ≡ Ordering.gt → ⊥)
      → (cmp b c ≡ Ordering.gt → ⊥)
      → (cmp a c ≡ Ordering.gt → ⊥)

abbrev pub is_le : Ordering → Bool
is_le Ordering.gt = false
is_le _ = true

pub record InnerHeap (T K : Type 0) : Type 0 where
  pub heap : List T
  pub keys : List K

pub record AsyncUniqueHeap (T K N : Type 0) : Type 0 where
  pub inner : InnerHeap T K
  pub notify : N

module _ {T K N : Type 0} (notify : N) where
  unfoldable pub new : AsyncUniqueHeap T K N
  new = record { inner = record { heap = []; keys = [] }; notify = notify }

  -- the capacity only reserves memory
  unfoldable pub with_capacity : ℕ → AsyncUniqueHeap T K N
  with_capacity capacity = record { inner = record { heap = []; keys = [] }; notify = notify }

module _ {T K : Type 0} (item : HeapItem T K) where
  -- `BinaryHeap::pop` on a heap that is not empty: a greatest item, and the others
  unfoldable pub take_greatest : T → List T → T × List T
  take_greatest x [] = (x, [])
  take_greatest x (y ∷ ys) =
      let swap = is_le (item.cmp x y) in
      let (m, rest) = take_greatest (if swap then y else x) ys in
      (m, (if swap then x else y) ∷ rest)

  abbrev heap_pop : List T → Option (T × List T)
  heap_pop [] = none
  heap_pop (x ∷ xs) = some (take_greatest x xs)

  module _ {N : Type 0} ⦃e : KeyEq K⦄ (notify_one : N → N) where
    unfoldable pub push : AsyncUniqueHeap T K N → T → AsyncUniqueHeap T K N × Bool
    push self x =
        let (keys, fresh) = set_insert (item.key x) self.inner.keys in
        if fresh
        then (
          record {
            inner = record { heap = x ∷ self.inner.heap; keys = keys };
            notify = notify_one self.notify;
          },
          true,
        )
        else (record self { inner = record { heap = self.inner.heap; keys = keys } }, false)

  module _ {N : Type 0} ⦃e : KeyEq K⦄ where
    popped : AsyncUniqueHeap T K N → Option (T × List T) → AsyncUniqueHeap T K N × Option T
    popped self none = (self, none)
    popped self (some (x, heap)) = (
      record self {
        inner = record { heap = heap; keys = set_remove (item.key x) self.inner.keys };
      },
      some x,
    )

    unfoldable pub pop : AsyncUniqueHeap T K N → AsyncUniqueHeap T K N × Option T
    unfolding popped
    pop self = popped self (heap_pop self.inner.heap)

  module _ {N : Type 0} where
    unfoldable pub peek : AsyncUniqueHeap T K N → Option T
    peek self = elim (heap_pop self.inner.heap) [ none ↦ none | some (x, heap) ↦ some x ]

module _ {T K N : Type 0} where
  unfoldable pub len : AsyncUniqueHeap T K N → ℕ
  len self = length self.inner.heap

  unfoldable pub is_empty : AsyncUniqueHeap T K N → Bool
  is_empty self = elim self.inner.heap [ [] ↦ true | x ∷ xs ↦ false ]
