-- ===== src/UniqueHeap/Order.antt =====
-- What `take_greatest` chooses: a greatest item, with the others left as they are.
use mathlib.Core.List.{Perm}
use mathlib.Core.List.Perm
use mojave.Base.{◌≡◌, true, false, inl, inr, List, [], ◌∷◌, if◌then◌else◌, arith, All, Bool-cases}
use mojave.UniqueHeap.{HeapItem, is_le, take_greatest}

module _ {T K : Type 0} (item : HeapItem T K) where
  abbrev pub Le : T → T → Type 0
  Le a b = is_le (item.cmp a b) ≡ true

  pub Le-total : (a b : T) → is_le (item.cmp a b) ≡ false → Le b a
  Le-total a b h = ground (arith, item.total a b)

  pub Le-trans : (a b c : T) → Le a b → Le b c → Le a c
  Le-trans a b c p q = ground (arith, item.trans a b c)

  pub Le-refl : (a : T) → Le a a
  Le-refl a = ground (arith, item.total a a)

  pub All-Le_trans : (a b : T) (xs : List T) → Le a b → All (λ x. Le x a) xs → All (λ x. Le x b) xs
  All-Le_trans a b [] h k = tt
  All-Le_trans a b (x ∷ xs) h k = (Le-trans x a b k.0 h, All-Le_trans a b xs h k.1)

  pub take_greatest-perm :
      (x : T) (xs : List T)
      → Perm (x ∷ xs) ((take_greatest item x xs).0 ∷ (take_greatest item x xs).1)
  unfolding take_greatest
  take_greatest-perm x [] = Perm.refl _
  take_greatest-perm x (y ∷ ys) = elim (Bool-cases (is_le (item.cmp x y))) [
    | inl e ↦ rw e (Perm.trans (Perm.cons x (take_greatest-perm y ys)) (Perm.swap _ _ _))
    | inr e ↦ rw e (
        Perm.trans (Perm.swap _ _ _)
          (Perm.trans (Perm.cons y (take_greatest-perm x ys)) (Perm.swap _ _ _)))
  ]

  winner_ge :
      (x y : T)
      → Le x (if is_le (item.cmp x y) then y else x)
        × Le (if is_le (item.cmp x y) then x else y) (if is_le (item.cmp x y) then y else x)
  winner_ge x y = ground (arith, Le-refl x, Le-total x y)

  pub take_greatest_ge :
      (x : T) (xs : List T)
      → Le x (take_greatest item x xs).0
        × All (λ y. Le y (take_greatest item x xs).0) (take_greatest item x xs).1
  unfolding take_greatest
  take_greatest_ge x [] = (Le-refl x, tt)
  take_greatest_ge x (y ∷ ys) =
      let (head, others) = take_greatest_ge (if is_le (item.cmp x y) then y else x) ys in
      let (first, loser) = winner_ge x y in
      (Le-trans _ _ _ first head, (Le-trans _ _ _ loser head, others))
