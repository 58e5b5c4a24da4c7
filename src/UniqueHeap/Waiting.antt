-- ===== src/UniqueHeap/Waiting.antt =====
-- crates/utils/src/unique_heap.rs: `pop_wait` and `peek_wait`, for one consumer beside any number of
-- producers. An event is a push by a producer or a turn of the consumer: one look at the heap, or one
-- poll of `notified()`, which is a parameter.
use mojave.Base.{◌≡◌, refl, sym, Option, none, some, List, [], ◌∷◌, KeyEq, inl, inr, ◌⊎◌}
use mojave.UniqueHeap.{HeapItem, AsyncUniqueHeap, push, pop, peek, take_greatest}
use mojave.UniqueHeap.Invariant.{push-Pushes, pop-Pops}

-- Tokio's `Notify`: `notified` is none while a poll finds no permit, and takes one otherwise.
pub record Notify : Type 1 where
  pub N : Type 0
  pub notify_one : N → N
  pub notified : N → Option N

pub data Consumer (T : Type 0) : Type 0 where
  checking waiting : Consumer T
  returned : T → Consumer T

pub data Event (T : Type 0) : Type 0 where
  pushes : T → Event T
  polls : Event T

abbrev pub IsSome : {A : Type 0} → Option A → Type 0
IsSome none = ⊥
IsSome (some a) = Unit

module _ {T K : Type 0} (item : HeapItem T K) ⦃e : KeyEq K⦄ (notify : Notify) where
  open notify use {N, notify_one, notified}

  tried : AsyncUniqueHeap T K N × Option T → AsyncUniqueHeap T K N × Consumer T
  tried (self, none) = (self, waiting)
  tried (self, some x) = (self, returned x)

  woken : AsyncUniqueHeap T K N → Option N → AsyncUniqueHeap T K N × Consumer T
  woken self none = (self, waiting)
  woken self (some n) = (record self { notify = n }, checking)

  module _ (look : AsyncUniqueHeap T K N → AsyncUniqueHeap T K N × Option T) where
    unfoldable pub turn : AsyncUniqueHeap T K N × Consumer T → AsyncUniqueHeap T K N × Consumer T
    unfolding tried woken
    turn (self, checking) = tried (look self)
    turn (self, waiting) = woken self (notified self.notify)
    turn (self, returned x) = (self, returned x)

    act : Event T → AsyncUniqueHeap T K N × Consumer T → AsyncUniqueHeap T K N × Consumer T
    unfolding turn
    act (pushes x) (self, consumer) = ((push item notify_one self x).0, consumer)
    act polls state = turn state

    unfoldable pub wait :
        List (Event T) → AsyncUniqueHeap T K N × Consumer T → AsyncUniqueHeap T K N × Consumer T
    unfolding act
    wait [] state = state
    wait (event ∷ events) state = wait events (act event state)

  -- one look of `peek_wait`
  abbrev pub seen : AsyncUniqueHeap T K N → AsyncUniqueHeap T K N × Option T
  seen self = (self, peek item self)

  unfoldable pub pop_wait :
      List (Event T) → AsyncUniqueHeap T K N → AsyncUniqueHeap T K N × Consumer T
  pop_wait events self = wait (pop item) events (self, checking)

  unfoldable pub peek_wait :
      List (Event T) → AsyncUniqueHeap T K N → AsyncUniqueHeap T K N × Consumer T
  peek_wait events self = wait seen events (self, checking)

  abbrev pub IsReturned : AsyncUniqueHeap T K N × Consumer T → Type 0
  IsReturned (self, returned x) = Unit
  IsReturned _ = ⊥

  -- A look at the empty heap finds nothing and changes nothing; any other finds an item.
  abbrev Finds :
      (AsyncUniqueHeap T K N → AsyncUniqueHeap T K N × Option T) → AsyncUniqueHeap T K N → Type 0
  Finds look self =
      ((self.inner.heap ≡ []) × (look self ≡ (self, none)))
      ⊎ ((s : AsyncUniqueHeap T K N) × (x : T) × (look self ≡ (s, some x)))

  module _ (wakes : (n : N) → IsSome (notified (notify_one n))) where
    -- A consumer that sleeps has no item to take, or is about to be woken.
    abbrev IsAwake : AsyncUniqueHeap T K N × Consumer T → Type 0
    IsAwake (self, waiting) = (self.inner.heap ≡ []) ⊎ IsSome (notified self.notify)
    IsAwake _ = Unit

    pushed-IsAwake :
        (x : T) (self : AsyncUniqueHeap T K N) (consumer : Consumer T)
        → IsAwake (self, consumer)
        → IsAwake ((push item notify_one self x).0, consumer)
    pushed-IsAwake x self checking h = tt
    pushed-IsAwake x self (returned y) h = tt
    pushed-IsAwake x self waiting h = elim (push-Pushes item notify_one self x) [
      | inl (_, same) ↦ rw same h
      | inr (_, grown) ↦ rw grown (inr (wakes self.notify))
    ]

    module _ (look : AsyncUniqueHeap T K N → AsyncUniqueHeap T K N × Option T)
        (finds : (self : AsyncUniqueHeap T K N) → Finds look self) where
      woken-IsAwake :
          (self : AsyncUniqueHeap T K N) (m : Option N)
          → m ≡ notified self.notify
          → IsAwake (self, waiting)
          → IsAwake (woken self m)
      unfolding woken
      woken-IsAwake self none e h = h
      woken-IsAwake self (some n) e h = tt

      act-IsAwake :
          (event : Event T) (self : AsyncUniqueHeap T K N) (consumer : Consumer T)
          → IsAwake (self, consumer)
          → IsAwake (act look event (self, consumer))
      unfolding act turn tried
      act-IsAwake (pushes x) self consumer h = pushed-IsAwake x self consumer h
      act-IsAwake polls self checking h = elim (finds self) [
        | inl (empty, same) ↦ rw same (inl empty)
        | inr (s, x, found) ↦ rw found tt
      ]
      act-IsAwake polls self waiting h = woken-IsAwake self (notified self.notify) refl h
      act-IsAwake polls self (returned x) h = tt

      wait-IsAwake :
          (events : List (Event T)) (state : AsyncUniqueHeap T K N × Consumer T)
          → IsAwake state
          → IsAwake (wait look events state)
      unfolding wait
      wait-IsAwake [] state h = h
      wait-IsAwake (event ∷ events) (self, consumer) h =
          wait-IsAwake events (act look event (self, consumer)) (act-IsAwake event self consumer h)

      checked-IsReturned :
          (self : AsyncUniqueHeap T K N)
          → (self.inner.heap ≡ [] → ⊥)
          → IsReturned (turn look (self, checking))
      unfolding turn tried
      checked-IsReturned self filled = elim (finds self) [
        | inl (empty, same) ↦ absurd (filled empty)
        | inr (s, x, found) ↦ rw found tt
      ]

      stays-IsReturned :
          (state : AsyncUniqueHeap T K N × Consumer T)
          → IsReturned state
          → IsReturned (turn look state)
      unfolding turn
      stays-IsReturned (self, checking) h = absurd h
      stays-IsReturned (self, waiting) h = absurd h
      stays-IsReturned (self, returned x) h = tt

      woken-IsReturned :
          (self : AsyncUniqueHeap T K N) (m : Option N)
          → (self.inner.heap ≡ []) ⊎ IsSome m
          → (self.inner.heap ≡ [] → ⊥)
          → IsReturned (turn look (woken self m))
      unfolding woken
      woken-IsReturned self none (inl empty) filled = absurd (filled empty)
      woken-IsReturned self none (inr never) filled = absurd never
      woken-IsReturned self (some n) h filled =
          checked-IsReturned (record self { notify = n }) filled

      turns-IsReturned :
          (state : AsyncUniqueHeap T K N × Consumer T)
          → IsAwake state
          → (state.0.inner.heap ≡ [] → ⊥)
          → IsReturned (turn look (turn look state))
      unfolding turn
      turns-IsReturned (self, checking) h filled =
          stays-IsReturned (turn look (self, checking)) (checked-IsReturned self filled)
      turns-IsReturned (self, waiting) h filled =
          woken-IsReturned self (notified self.notify) h filled
      turns-IsReturned (self, returned x) h filled = tt

    pop-Finds : (self : AsyncUniqueHeap T K N) → Finds (pop item) self
    pop-Finds self = elim (pop-Pops item self) [
      | inl h ↦ inl h
      | inr (x, rest, _, _, left) ↦ inr (_, x, left)
    ]

    -- Where a poll of `notified()` after `notify_one` finds a permit: whatever the producers push and
    -- however their pushes and the turns of one consumer in `pop_wait` follow each other, when the
    -- heap then has an item, two more turns are enough for the consumer to return.
    pub pop_wait-IsReturned :
        (events : List (Event T)) (self : AsyncUniqueHeap T K N)
        → ((pop_wait events self).0.inner.heap ≡ [] → ⊥)
        → IsReturned (turn (pop item) (turn (pop item) (pop_wait events self)))
    unfolding pop_wait
    pop_wait-IsReturned events self filled =
        turns-IsReturned (pop item) pop-Finds (wait (pop item) events (self, checking))
          (wait-IsAwake (pop item) pop-Finds events (self, checking) tt) filled

    seen-Finds : (self : AsyncUniqueHeap T K N) → Finds seen self
    unfolding peek
    seen-Finds self = by_items self.inner.heap refl
      where
        by_items : (items : List T) → items ≡ self.inner.heap → Finds seen self
        by_items [] same = inl (sym same, rw (sym same) refl)
        by_items (x ∷ xs) same = inr (self, (take_greatest item x xs).0, rw (sym same) refl)

    -- The same of `peek_wait`, which leaves the item in the heap.
    pub peek_wait-IsReturned :
        (events : List (Event T)) (self : AsyncUniqueHeap T K N)
        → ((peek_wait events self).0.inner.heap ≡ [] → ⊥)
        → IsReturned (turn seen (turn seen (peek_wait events self)))
    unfolding peek_wait
    peek_wait-IsReturned events self filled =
        turns-IsReturned seen seen-Finds (wait seen events (self, checking))
          (wait-IsAwake seen seen-Finds events (self, checking) tt) filled
