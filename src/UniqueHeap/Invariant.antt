-- ===== src/UniqueHeap/Invariant.antt =====
-- How the heap and the key set agree.
use mathlib.Core.List.{Perm, Nodup, Nodup-nil, Nodup-cons}
use mathlib.Core.List.Perm
use mojave.Base.{
  ◌≡◌, refl, Bool, true, false, Option, none, some, List, [], ◌∷◌, map, arith, All, KeyEq, inl, inr,
  ◌⊎◌,
}
use mojave.Base.Collections.{
  contains, set_insert, set_remove, contains-set_remove, contains_iff, contains-eq_of_perm,
  contains_absent,
}
use mojave.UniqueHeap.{
  HeapItem, InnerHeap, AsyncUniqueHeap, new, push, popped, heap_pop, pop, take_greatest,
}
use mojave.UniqueHeap.Order.{Le, take_greatest-perm, take_greatest_ge}

module _ {T K : Type 0} (item : HeapItem T K) where
  abbrev pub keys_of : List T → List K
  keys_of = map item.key

  module _ ⦃e : KeyEq K⦄ where
    pub record IsUnique (h : InnerHeap T K) : Type 0 where
      pub distinct : Nodup (keys_of h.heap)
      pub tracked : (k : K) → contains k h.keys ≡ contains k (keys_of h.heap)

    module _ {N : Type 0} where
      pub new-IsUnique : (notify : N) → IsUnique (new notify).inner
      unfolding new
      new-IsUnique notify = record { distinct = Nodup-nil; tracked = λ k. refl }

      -- What `push` may return: a key that is there is refused, and a new one enters with its item.
      abbrev pub Pushes :
          (N → N) → AsyncUniqueHeap T K N → T → AsyncUniqueHeap T K N × Bool → Type 0
      Pushes notify_one self x r =
          ((contains (item.key x) self.inner.keys ≡ true) × (r ≡ (self, false)))
          ⊎ ((contains (item.key x) self.inner.keys ≡ false)
              × (r ≡ (
                record {
                  inner = record {
                    heap = x ∷ self.inner.heap;
                    keys = item.key x ∷ self.inner.keys;
                  };
                  notify = notify_one self.notify;
                },
                true,
              )))

      -- `push` of an item whose key is in the key set returns false, changes nothing and notifies
      -- nobody; of any other it returns true, adds the item and its key, and notifies once.
      pub push-Pushes :
          (notify_one : N → N) (self : AsyncUniqueHeap T K N) (x : T)
          → Pushes notify_one self x (push item notify_one self x)
      unfolding push set_insert
      push-Pushes notify_one self x = ground arith

      pub push-IsUnique :
          (notify_one : N → N) (self : AsyncUniqueHeap T K N) (x : T)
          → IsUnique self.inner
          → IsUnique (push item notify_one self x).0.inner
      push-IsUnique notify_one self x u = elim (push-Pushes notify_one self x) [
        | inl (_, same) ↦ rw same u
        | inr (fresh, grown) ↦ rw grown record {
          distinct = Nodup-cons.1 (
            λ there. cc ((contains_iff (item.key x) _).1 there, u.tracked (item.key x), fresh),
            u.distinct,
          );
          tracked = λ k. unfold contains in rw (u.tracked k);
        }
      ]

      -- What `pop` may return: nothing from the empty heap, else a greatest item with its key gone.
      abbrev pub Pops : AsyncUniqueHeap T K N → List T → AsyncUniqueHeap T K N × Option T → Type 0
      Pops self items r =
          ((items ≡ []) × (r ≡ (self, none)))
          ⊎ ((x : T) × (rest : List T) × Perm items (x ∷ rest)
              × All (λ y. Le item y x) rest
              × (r ≡ (
                record {
                  inner = record { heap = rest; keys = set_remove (item.key x) self.inner.keys };
                  notify = self.notify;
                },
                some x,
              )))

      popped-Pops :
          (self : AsyncUniqueHeap T K N) (items : List T)
          → Pops self items (popped item self (heap_pop item items))
      unfolding popped
      popped-Pops self [] = inl (refl, refl)
      popped-Pops self (x ∷ xs) =
          let (m, rest) = take_greatest item x xs in
          inr (m, rest, take_greatest-perm item x xs, (take_greatest_ge item x xs).1, refl)

      -- `pop` returns none and changes nothing exactly on the empty heap. Otherwise it returns an item
      -- that no other is greater than; the others stay, and its key alone leaves the key set.
      pub pop-Pops : (self : AsyncUniqueHeap T K N) → Pops self self.inner.heap (pop item self)
      unfolding pop
      pop-Pops self = popped-Pops self self.inner.heap

      pub pop-IsUnique :
          (self : AsyncUniqueHeap T K N) → IsUnique self.inner → IsUnique (pop item self).0.inner
      pop-IsUnique self u = elim (pop-Pops self) [
        | inl (_, same) ↦ rw same u
        | inr (x, rest, parts, _, left) ↦ rw left (remaining x rest parts)
      ]
        where
          remaining :
              (x : T) (rest : List T)
              → Perm self.inner.heap (x ∷ rest)
              → IsUnique (record { heap = rest; keys = set_remove (item.key x) self.inner.keys })
          remaining x rest parts =
              let keys = Perm.map item.key parts in
              let (alone, others) = Nodup-cons.0 (Perm.nodup keys u.distinct) in
              record {
                distinct = others;
                tracked = λ k.
                    unfold contains in
                    ground (
                      arith,
                      contains-set_remove (item.key x) k self.inner.keys,
                      u.tracked k,
                      contains-eq_of_perm k (keys_of self.inner.heap) (item.key x ∷ keys_of rest)
                          keys,
                      e.same_iff (item.key x) k,
                      contains_absent (item.key x) (keys_of rest) alone,
                    );
              }
