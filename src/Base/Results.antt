-- ===== src/Base/Results.antt =====
-- Rust's `Result<T, E>`, with the operator `?` as bind.
use mathlib.Core.Path.{◌≡◌, refl}
use mathlib.Core.Bool.{Bool, true, false}
use mathlib.Core.Option.{Option, none, some}

pub data Result {ℓ κ} (E : Type ℓ) (A : Type κ) : Type (ℓ ⊔ κ) where
  ok : A → Result E A
  err : E → Result E A

-- The operator `?`: an error is returned at once.
infixl 5 ◌>>=◌
abbrev pub ◌>>=◌ {ε α} : {E : Type ε} {A A' : Type α} → Result E A → (A → Result E A') → Result E A'
err error >>= next = err error
ok value >>= next = next value

-- `map_err`, and the conversion that `?` makes by `From`
abbrev pub map_err {ℓ} : {E F A : Type ℓ} → (E → F) → Result E A → Result F A
map_err f (ok a) = ok a
map_err f (err e) = err (f e)

abbrev pub ok_or {ℓ} : {E A : Type ℓ} → Option A → E → Result E A
ok_or none e = err e
ok_or (some a) e = ok a

-- `Result::is_ok`
abbrev pub is_ok {ℓ κ} : {E : Type ℓ} {A : Type κ} → Result E A → Bool
is_ok (ok a) = true
is_ok (err e) = false

-- What a chain returns where it succeeds.
abbrev pub IfOk {κ} : {E A : Type 0} → (A → Type κ) → Result E A → Type κ
IfOk Q (ok a) = Q a
IfOk Q (err e) = Unit

module _ {E A : Type 0} where
  -- each step with what its call has returned
  pub bind-IfOk :
      {B : Type 0} (Q : B → Type 0) (m : Result E A) (next : A → Result E B)
      → ((a : A) → m ≡ ok a → IfOk Q (next a))
      → IfOk Q (m >>= next)
  bind-IfOk Q (ok a) next h = h a refl
  bind-IfOk Q (err e) next h = tt

  pub map_err-ok : {F : Type 0} (f : E → F) (r : Result E A) {a : A} → map_err f r ≡ ok a → r ≡ ok a
  map_err-ok f (ok a') h = cc
  map_err-ok f (err e) h = cc

  pub ok_or-ok : (o : Option A) (e : E) {a : A} → ok_or o e ≡ ok a → o ≡ some a
  ok_or-ok none e h = cc
  ok_or-ok (some a') e h = cc
