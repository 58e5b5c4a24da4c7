-- ===== src/Base/Collections.antt =====
-- `HashSet` and `HashMap` of Rust's standard library, as lists of keys and of entries. The order of
-- the list stands for the unspecified order of iteration.
use mathlib.Core.Path.{◌≡◌, refl, sym, subst}
use mathlib.Core.Bool.{Bool, true, false}
use mathlib.Core.Option.{Option, none, some}
use mathlib.Core.Logic.{◌↔◌, inl, inr}
use mathlib.Core.Logic.Or
use mathlib.Core.List.{
  List, [], ◌∷◌, Mem, Perm, mem-cons, mem-cons_self, mem-cons_of_mem, not-mem-nil,
}
use mathlib.Core.List.Perm
use native.Mathlib.Omega.{arith}
use mojave.Base.Tests.{if◌then◌else◌, Bool-cases}
use mojave.Base.Equality.{KeyEq, ◌==◌}

module _ {ℓ} {K : Type ℓ} ⦃e : KeyEq K⦄ where
  -- `HashSet::contains`
  unfoldable pub contains : K → List K → Bool
  contains k [] = false
  contains k (j ∷ s) = if j == k then true else contains k s

  -- `HashSet::insert`: whether the key is new
  unfoldable pub set_insert : K → List K → List K × Bool
  set_insert k s = if contains k s then (s, false) else (k ∷ s, true)

  -- `HashSet::remove`
  unfoldable pub set_remove : K → List K → List K
  set_remove k [] = []
  set_remove k (j ∷ s) = let rest = set_remove k s in if j == k then rest else j ∷ rest

  pub contains-set_remove :
      (k j : K) (s : List K)
      → contains j (set_remove k s) ≡ (if k == j then false else contains j s)
  unfolding contains set_remove
  contains-set_remove k j [] = ground arith
  contains-set_remove k j (i ∷ s) =
      ground (arith, contains-set_remove k j s, e.same_iff i k, e.same_iff i j, e.same_iff k j)

  pub contains-set_insert :
      (k j : K) (s : List K)
      → contains j (set_insert k s).0 ≡ (if k == j then true else contains j s)
  unfolding contains set_insert
  contains-set_insert k j s = ground (arith, e.same_iff k j)

  contains→Mem : (k : K) (s : List K) → contains k s ≡ true → Mem k s
  unfolding contains
  contains→Mem k [] h = cc
  contains→Mem k (j ∷ s) h = elim (Bool-cases (j == k)) [
    | inl same ↦ subst (λ x. Mem x (j ∷ s)) ((e.same_iff j k).0 same) mem-cons_self
    | inr differ ↦ mem-cons_of_mem j (contains→Mem k s (ground arith))
  ]

  Mem→contains : (k : K) (s : List K) → Mem k s → contains k s ≡ true
  unfolding contains
  Mem→contains k [] m = absurd (not-mem-nil m)
  Mem→contains k (j ∷ s) m =
      Or.elim (hlevel) (mem-cons.0 m) (λ same. rw ((e.same_iff j k).1 (sym same)))
        (λ later. let ih = Mem→contains k s later in ground arith)

  -- `contains` decides membership, so it does not depend on the order.
  pub contains_iff : (k : K) (s : List K) → (contains k s ≡ true) ↔ Mem k s
  contains_iff k s = (contains→Mem k s, Mem→contains k s)

  pub contains_absent : (k : K) (s : List K) → ¬ Mem k s → contains k s ≡ false
  contains_absent k s away = elim (Bool-cases (contains k s)) [
    | inl here ↦ absurd (away (contains→Mem k s here))
    | inr h ↦ h
  ]

  pub contains-eq_of_perm : (k : K) (s t : List K) → Perm s t → contains k s ≡ contains k t
  contains-eq_of_perm k s t p = elim (Bool-cases (contains k s)) [
    | inl here ↦ rw (here, Mem→contains k t ((Perm.mem_iff p).0 (contains→Mem k s here)))
    | inr away ↦ elim (Bool-cases (contains k t)) [
      | inl here ↦ cc (Mem→contains k s ((Perm.mem_iff p).1 (contains→Mem k t here)))
      | inr both ↦ rw (away, both)
    ]
  ]

module _ {ℓ κ} {K : Type ℓ} {V : Type κ} ⦃e : KeyEq K⦄ where
  -- `HashMap::get`
  unfoldable pub get : K → List (K × V) → Option V
  get k [] = none
  get k ((j, v) ∷ m) = if j == k then some v else get k m

  -- `HashMap::insert`
  unfoldable pub put : K → V → List (K × V) → List (K × V)
  put k v [] = (k, v) ∷ []
  put k v ((j, w) ∷ m) = if j == k then (k, v) ∷ m else (j, w) ∷ put k v m

  pub get-put :
      (k j : K) (v : V) (m : List (K × V))
      → get j (put k v m) ≡ (if k == j then some v else get j m)
  unfolding get put
  get-put k j v [] = refl
  get-put k j v ((i, w) ∷ m) =
      ground (arith, get-put k j v m, e.same_iff i k, e.same_iff i j, e.same_iff k j)
