-- ===== src/Base/Equality.antt =====
-- The interface of keys, which `HashMap` and `HashSet` compare by.
use Prim.Native.Nat.{ℕ}
use Prim.Native.String.{String}
use mathlib.Core.Path.{◌≡◌}
use mathlib.Core.Logic.{◌↔◌}
use mathlib.Core.Bool.{Bool, true}
use text.Mathlib.TextEquality.{eq_iff as texts_iff}
use text.Mathlib.Text
use mojave.Base.Tests.{eqb, eqb_iff}

-- The bound `K: Eq + Hash`: a test that says whether two keys are one.
pub record KeyEq {κ} (K : Type κ) : Type κ where
  pub same : K → K → Bool
  pub same_iff : (j k : K) → (same j k ≡ true) ↔ (j ≡ k)

-- texts
instance abbrev pub string_key : KeyEq String
string_key = record { same_iff = texts_iff; same = Text.◌==◌ }

infix 50 ◌==◌
abbrev pub ◌==◌ {κ} : {K : Type κ} ⦃e : KeyEq K⦄ → K → K → Bool
◌==◌ ⦃e⦄ j k = e.same j k

-- numbers
instance abbrev pub nat_key : KeyEq ℕ
nat_key = record { same_iff = eqb_iff; same = eqb }
