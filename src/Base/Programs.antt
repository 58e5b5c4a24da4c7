-- ===== src/Base/Programs.antt =====
-- Code that acts on a state and may fail: a call returns a result and the state that it leaves. `?`
-- and `.await?` are the bind of these programs.
use mathlib.Core.Path.{◌≡◌, refl, subst, ◌∙◌}
use mojave.Base.Results.{Result, ok, err}

abbrev pub Program : Type 0 → Type 0 → Type 0 → Type 0
Program S E A = S → Result E A × S

module _ {S E A B : Type 0} where
  unfoldable pub and_then : Result E A × S → (A → Program S E B) → Result E B × S
  and_then (ok a, s) next = next a s
  and_then (err e, s) next = (err e, s)

  infixl 5 ◌>>=◌
  unfoldable pub ◌>>=◌ : Program S E A → (A → Program S E B) → Program S E B
  unfolding and_then
  (p >>= next) s = and_then (p s) next

module _ {S E A : Type 0} where
  unfoldable pub pure : A → Program S E A
  pure a s = (ok a, s)

  unfoldable pub raise : E → Program S E A
  raise e s = (err e, s)

  -- a result that no state changes for
  unfoldable pub lift : Result E A → Program S E A
  lift r s = (r, s)

  -- a call that only reads the state
  unfoldable pub reads : (S → Result E A) → Program S E A
  reads f s = (f s, s)

module _ {S E F A : Type 0} where
  unfoldable pub with_error : (E → F) → Result E A × S → Result F A × S
  with_error f (ok a, s) = (ok a, s)
  with_error f (err e, s) = (err (f e), s)

  -- the conversion of errors that `?` makes
  unfoldable pub converting : (E → F) → Program S E A → Program S F A
  unfolding with_error
  converting f p s = with_error f (p s)

-- What programs leave as it was.
module _ {S O : Type 0} (part : S → O) where
  module _ {E A : Type 0} where
    -- a program that never changes the part
    abbrev pub Keeps : Program S E A → Type 0
    Keeps p = (s : S) → part (p s).1 ≡ part s

    -- a program that changes the part only where it succeeds, and then as said
    abbrev pub MovesTo : (A → O) → O → Result E A → O → Type 0
    MovesTo to before (ok a) now = now ≡ to a
    MovesTo to before (err e) now = now ≡ before

    abbrev pub Moves : (A → O) → Program S E A → Type 0
    Moves to p = (s : S) → MovesTo to (part s) (p s).0 (part (p s).1)

  module _ {E A B : Type 0} (next : A → Program S E B) where
    and_then-Keeps :
        (r : Result E A × S) → ((a : A) → Keeps (next a)) → part (and_then r next).1 ≡ part r.1
    unfolding and_then
    and_then-Keeps (ok a, s) h = h a s
    and_then-Keeps (err e, s) h = refl

    pub bind-Keeps : (p : Program S E A) → Keeps p → ((a : A) → Keeps (next a)) → Keeps (p >>= next)
    unfolding ◌>>=◌
    bind-Keeps p first h s = and_then-Keeps (p s) h ∙ first s

    and_then-Moves :
        (to : B → O) (before : O) (r : Result E A × S)
        → part r.1 ≡ before
        → ((a : A) → Moves to (next a))
        → MovesTo to before (and_then r next).0 (part (and_then r next).1)
    unfolding and_then
    and_then-Moves to before (ok a, s) same h =
        subst (λ o. MovesTo to o (next a s).0 (part (next a s).1)) same (h a s)
    and_then-Moves to before (err e, s) same h = same

    pub bind-Moves :
        (to : B → O) (p : Program S E A)
        → Keeps p
        → ((a : A) → Moves to (next a))
        → Moves to (p >>= next)
    unfolding ◌>>=◌
    bind-Moves to p first h s = and_then-Moves to (part s) (p s) (first s) h

  module _ {E A : Type 0} where
    pub reads-Keeps : (f : S → Result E A) → Keeps (reads f)
    unfolding reads
    reads-Keeps f s = refl

    pub lift-Keeps : (r : Result E A) → Keeps (lift {S = S} r)
    unfolding lift
    lift-Keeps r s = refl

  pub pure-Keeps : {A : Type 0} (E : Type 0) (a : A) → Keeps (pure {S = S} {E = E} a)
  unfolding pure
  pure-Keeps E a s = refl

  module _ {E F A : Type 0} (f : E → F) where
    with_error-part : (r : Result E A × S) → part (with_error f r).1 ≡ part r.1
    unfolding with_error
    with_error-part (ok a, s) = refl
    with_error-part (err e, s) = refl

    pub converting-Keeps : (p : Program S E A) → Keeps p → Keeps (converting f p)
    unfolding converting
    converting-Keeps p h s = with_error-part (p s) ∙ h s

  -- The last call alone changes the part, and its result is passed over.
  module _ {E F A B : Type 0} (f : E → F) (to : B → O) (b : B) where
    last_moves :
        (before : O) (r : Result E A × S)
        → MovesTo (λ _. to b) before r.0 (part r.1)
        → MovesTo to before
            (and_then (with_error f r) (λ _. pure b)).0
            (part (and_then (with_error f r) (λ _. pure b)).1)
    unfolding and_then with_error pure
    last_moves before (ok a, s) h = h
    last_moves before (err e, s) h = h

    pub last-Moves :
        (p : Program S E A) → Moves (λ _. to b) p → Moves to (converting f p >>= λ _. pure b)
    unfolding ◌>>=◌ converting
    last-Moves p h s = last_moves (part s) (p s) (h s)

-- What a program returns where it succeeds.
abbrev pub Yields : {S E A : Type 0} → (A → Type 0) → Result E A × S → Type 0
Yields Q (ok a, s) = Q a
Yields Q (err e, s) = Unit

module _ {S E A B : Type 0} (Q : B → Type 0) (next : A → Program S E B) where
  and_then-Yields :
      (r : Result E A × S) → ((a : A) (s : S) → Yields Q (next a s)) → Yields Q (and_then r next)
  unfolding and_then
  and_then-Yields (ok a, s) h = h a s
  and_then-Yields (err e, s) h = tt

  pub bind-Yields :
      (p : Program S E A) (s : S)
      → ((a : A) (s : S) → Yields Q (next a s))
      → Yields Q ((p >>= next) s)
  unfolding ◌>>=◌
  bind-Yields p s h = and_then-Yields (p s) h

  module _ (P : A → Type 0) where
    and_then-Yields_from :
        (r : Result E A × S)
        → Yields P r
        → ((a : A) (s : S) → P a → Yields Q (next a s))
        → Yields Q (and_then r next)
    unfolding and_then
    and_then-Yields_from (ok a, s) first h = h a s first
    and_then-Yields_from (err e, s) first h = tt

    -- where more is known of what the first program returns
    pub bind-Yields_from :
        (p : Program S E A) (s : S)
        → Yields P (p s)
        → ((a : A) (s : S) → P a → Yields Q (next a s))
        → Yields Q ((p >>= next) s)
    unfolding ◌>>=◌
    bind-Yields_from p s first h = and_then-Yields_from (p s) first h

-- what a call has returned when the program goes on
module _ {S E F A B : Type 0} (Q : B → Type 0) (f : E → F) (next : A → Program S F B) where
  with_error-Yields :
      (r r' : Result E A × S)
      → r ≡ r'
      → ((a : A) (s' : S) → r ≡ (ok a, s') → Yields Q (next a s'))
      → Yields Q (and_then (with_error f r') next)
  unfolding and_then with_error
  with_error-Yields r (ok a, s') e h = h a s' e
  with_error-Yields r (err x, s') e h = tt

  pub converting-Yields :
      (p : Program S E A) (s : S)
      → ((a : A) (s' : S) → p s ≡ (ok a, s') → Yields Q (next a s'))
      → Yields Q ((converting f p >>= next) s)
  unfolding ◌>>=◌ converting
  converting-Yields p s h = with_error-Yields (p s) (p s) refl h

module _ {S E F A : Type 0} (P : A → Type 0) (f : E → F) where
  with_error-Yields_same : (r : Result E A × S) → Yields P r → Yields P (with_error f r)
  unfolding with_error
  with_error-Yields_same (ok a, s) h = h
  with_error-Yields_same (err e, s) h = tt

  pub converting-Yields_same :
      (p : Program S E A) (s : S) → Yields P (p s) → Yields P (converting f p s)
  unfolding converting
  converting-Yields_same p s h = with_error-Yields_same (p s) h

module _ {S E A B : Type 0} (Q : B → Type 0) (next : A → Program S E B) where
  and_then-Yields_eq :
      (r r' : Result E A × S)
      → r ≡ r'
      → ((a : A) (s' : S) → r ≡ (ok a, s') → Yields Q (next a s'))
      → Yields Q (and_then r' next)
  unfolding and_then
  and_then-Yields_eq r (ok a, s') e h = h a s' e
  and_then-Yields_eq r (err x, s') e h = tt

  -- the same without a conversion
  pub bind-Yields_eq :
      (p : Program S E A) (s : S)
      → ((a : A) (s' : S) → p s ≡ (ok a, s') → Yields Q (next a s'))
      → Yields Q ((p >>= next) s)
  unfolding ◌>>=◌
  bind-Yields_eq p s h = and_then-Yields_eq (p s) (p s) refl h
