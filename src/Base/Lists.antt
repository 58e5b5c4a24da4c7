-- ===== src/Base/Lists.antt =====
-- Lists measured by native numbers, and predicates on all their items.
use Prim.Native.Nat.{ℕ, zero, suc, ◌+◌, ◌-◌, min}
use mathlib.Core.Path.{◌≡◌, refl, ap, sym, subst}
use mathlib.Core.Logic.{∥∥₁_elim}
use mathlib.Core.Logic.Or
use mathlib.Core.List.{
  List, [], ◌∷◌, ◌++◌, map, Mem, Perm, Permᴰ, mem-cons, mem-cons_self, mem-cons_of_mem, not-mem-nil,
}
use mathlib.Core.List.Perm
use mathlib.Core.Option.{Option, none, some}
use native.Mathlib.Omega.{arith}

module _ {ℓ} {A : Type ℓ} where
  abbrev pub length : List A → ℕ
  length [] = 0
  length (x ∷ xs) = suc (length xs)

  abbrev pub take : ℕ → List A → List A
  take zero xs = []
  take (suc n) [] = []
  take (suc n) (x ∷ xs) = x ∷ take n xs

  abbrev pub drop : ℕ → List A → List A
  drop zero xs = xs
  drop (suc n) [] = []
  drop (suc n) (x ∷ xs) = drop n xs

  -- `Vec::last`
  abbrev pub get_last? : List A → Option A
  get_last? [] = none
  get_last? (x ∷ []) = some x
  get_last? (x ∷ y ∷ ys) = get_last? (y ∷ ys)

  pub length-append : (xs ys : List A) → length (xs ++ ys) ≡ length xs + length ys
  length-append [] ys = omega arith
  length-append (x ∷ xs) ys = omega (arith, length-append xs ys)

  pub take-append-drop : (n : ℕ) (xs : List A) → take n xs ++ drop n xs ≡ xs
  take-append-drop zero xs = refl
  take-append-drop (suc n) [] = refl
  take-append-drop (suc n) (x ∷ xs) = ap (◌∷◌ x) (take-append-drop n xs)

  pub length-take : (n : ℕ) (xs : List A) → length (take n xs) ≡ min n (length xs)
  length-take zero xs = omega arith
  length-take (suc n) [] = omega arith
  length-take (suc n) (x ∷ xs) = omega (arith, length-take n xs)

  pub length-drop : (n : ℕ) (xs : List A) → length (drop n xs) ≡ length xs - n
  length-drop zero xs = omega arith
  length-drop (suc n) [] = omega arith
  length-drop (suc n) (x ∷ xs) = omega (arith, length-drop n xs)

pub length-map {ℓ κ} :
    {A : Type ℓ} {B : Type κ} (f : A → B) (xs : List A) → length (map f xs) ≡ length xs
length-map f [] = refl
length-map f (x ∷ xs) = ap suc (length-map f xs)

abbrev pub All {ℓ κ} : {A : Type ℓ} → (A → Type κ) → List A → Type κ
All P [] = Unit
All P (x ∷ xs) = P x × All P xs

pub All-append {ℓ κ} :
    {A : Type ℓ} (P : A → Type κ) (xs ys : List A) → All P xs → All P ys → All P (xs ++ ys)
All-append P [] ys h k = k
All-append P (x ∷ xs) ys h k = (h.0, All-append P xs ys h.1 k)

module _ {ℓ κ} {A : Type ℓ} {P : A → Type κ} (prop : (a : A) → IsProp (P a)) where
  mem-All : (xs : List A) {a : A} → Mem a xs → All P xs → P a
  mem-All [] m h = absurd (not-mem-nil m)
  mem-All (x ∷ xs) {a} m h =
      Or.elim (prop a) (mem-cons.0 m) (λ e. subst P (sym e) h.0) (λ later. mem-All xs later h.1)

  All-mem : (xs : List A) → ((a : A) → Mem a xs → P a) → All P xs
  All-mem [] h = tt
  All-mem (x ∷ xs) h = (h x mem-cons_self, All-mem xs (λ a m. h a (mem-cons_of_mem x m)))

  pub All-of_perm : {xs ys : List A} → Perm xs ys → All P xs → All P ys
  All-of_perm {xs} {ys} p h = All-mem ys (λ a m. mem-All xs ((Perm.mem_iff p).1 m) h)

module _ {ℓ} {A : Type ℓ} where
  length-eq_of_permᴰ : {xs ys : List A} → Permᴰ xs ys → length xs ≡ length ys
  length-eq_of_permᴰ Permᴰ.nil = refl
  length-eq_of_permᴰ (Permᴰ.cons e p) = ap suc (length-eq_of_permᴰ p)
  length-eq_of_permᴰ (Permᴰ.swap e f) = refl
  length-eq_of_permᴰ (Permᴰ.trans p q) = omega (arith, length-eq_of_permᴰ p, length-eq_of_permᴰ q)

  pub length-eq_of_perm : {xs ys : List A} → Perm xs ys → length xs ≡ length ys
  length-eq_of_perm p = ∥∥₁_elim p (hlevel) length-eq_of_permᴰ
