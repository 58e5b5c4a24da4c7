-- ===== src/Rpc/Macros/Printed.antt =====
-- What the attribute parser reads back: a list of `key = "value"` in any order.
use mojave.Base.{
  ℕ, zero, suc, String, true, false, Option, none, some, List, [], ◌∷◌, length, ◌==◌, string_key,
  if◌then◌else◌, ok, ok_or, ◌>>=◌, ◌≡◌, refl, ap, ◌∙◌, ◌≤◌, arith, Bool-cases, inl, inr,
}
use mojave.Rpc.Macros.{
  missing_namespace, missing_method, TokenTree, ident, literal, punct, Lit, lit_str,
  skip_until_equal, lit_value, value_of, parse_string_literal, Attributes, assign, parse_loop,
  parse_attr_tokens,
}

-- `key = "value",` for each, where `quoted` puts a text between quotes
unfoldable pub printed : (String → String) → List (String × String) → List TokenTree
printed quoted [] = []
printed quoted ((key, value) ∷ rest) =
    ident key ∷ punct 61 ∷ literal (quoted value) ∷ punct 44 ∷ printed quoted rest

abbrev or : {A : Type 0} → Option A → Option A → Option A
or (some a) later = some a
or none later = later

-- the value of the last attribute with this key
unfoldable pub last_of : String → List (String × String) → Option String
last_of key [] = none
last_of key ((k, value) ∷ rest) = or (last_of key rest) (if k == key then some value else none)

or-or : {A : Type 0} (a b c : Option A) → or (or a b) c ≡ or a (or b c)
or-or (some a) b c = refl
or-or none b c = refl

or-none : {A : Type 0} (a : Option A) → or a none ≡ a
or-none (some a) = refl
or-none none = refl

-- "namespace" and "method" are two keys.
one_key : (k : String) → (k == "namespace") ≡ true → (k == "method") ≡ false
one_key k h = rw ((string_key.same_iff k "namespace").0 h) refl

assign-namespace :
    (k value : String) (found : Attributes)
    → (assign k value found).namespace
      ≡ or (if k == "namespace" then some value else none) found.namespace
unfolding assign
assign-namespace k value found = elim (Bool-cases (k == "namespace")) [
  | inl h ↦ rw h refl
  | inr h ↦ elim (Bool-cases (k == "method")) [ inl m ↦ rw (h, m) refl | inr m ↦ rw (h, m) refl ]
]

assign-method :
    (k value : String) (found : Attributes)
    → (assign k value found).method ≡ or (if k == "method" then some value else none) found.method
unfolding assign
assign-method k value found = elim (Bool-cases (k == "namespace")) [
  | inl h ↦ rw (h, one_key k h) refl
  | inr h ↦ elim (Bool-cases (k == "method")) [ inl m ↦ rw (h, m) refl | inr m ↦ rw (h, m) refl ]
]

abbrev all_of : List (String × String) → Attributes → Attributes
all_of attrs found = record {
  namespace = or (last_of "namespace" attrs) found.namespace;
  method = or (last_of "method" attrs) found.method;
}

all_of-assign :
    (k value : String) (rest : List (String × String)) (found : Attributes)
    → all_of rest (assign k value found) ≡ all_of ((k, value) ∷ rest) found
unfolding last_of
all_of-assign k value rest found =
    rw
      (
        assign-namespace k value found,
        assign-method k value found,
        or-or (last_of "namespace" rest) (if k == "namespace" then some value else none)
            found.namespace,
        or-or (last_of "method" rest) (if k == "method" then some value else none) found.method,
      )
      refl

module _ (parse_str : String → Option Lit) (quoted : String → String)
    (reads : (s : String) → parse_str (quoted s) ≡ some (lit_str s)) where
  parse_loop-printed :
      (attrs : List (String × String)) (fuel : ℕ) (found : Attributes)
      → length (printed quoted attrs) ≤ fuel
      → parse_loop parse_str fuel (printed quoted attrs) found ≡ ok (all_of attrs found)
  unfolding parse_loop printed skip_until_equal parse_string_literal value_of lit_value last_of
  parse_loop-printed [] zero found h = refl
  parse_loop-printed [] (suc fuel) found h = refl
  parse_loop-printed ((k, value) ∷ rest) zero found h = ground arith
  parse_loop-printed ((k, value) ∷ rest) (suc zero) found h = ground arith
  parse_loop-printed ((k, value) ∷ rest) (suc (suc fuel)) found h = rw (reads value) (
      parse_loop-printed rest fuel (assign k value found) (omega arith)
      ∙ ap ok (all_of-assign k value rest found))

  -- Where a quoted text is read back as that text: the attributes that are written as `key = "value",`
  -- give the last value of "namespace" and the last value of "method", whatever their order and
  -- whatever other keys are among them; without the one or the other, the error names it, the
  -- namespace first.
  pub parse_attr_tokens-printed :
      (attrs : List (String × String))
      → parse_attr_tokens parse_str (printed quoted attrs) ≡ (do
        ns ← ok_or (last_of "namespace" attrs) missing_namespace
        m ← ok_or (last_of "method" attrs) missing_method
        ok (ns, m))
  unfolding parse_attr_tokens
  parse_attr_tokens-printed attrs =
      rw
        (
          parse_loop-printed attrs (length (printed quoted attrs)) _ (omega arith),
          or-none (last_of "namespace" attrs),
          or-none (last_of "method" attrs),
        )
        refl
