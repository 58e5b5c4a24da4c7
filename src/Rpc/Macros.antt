-- ===== src/Rpc/Macros.antt =====
-- crates/rpc/macros/src/lib.rs: the attributes of `#[rpc(namespace = "..", method = "..")]`, the name
-- that a handler is registered under, and the parameters that the generated code reads. The tokens of
-- proc_macro2 and the literals of syn are given; a panic is an error of compilation.
pub mod Printed
use Prim.Native.String.{◌++◌ as append}
use mojave.Base.{
  ℕ, zero, suc, String, Option, none, some, List, [], ◌∷◌, length, eqb, ◌==◌, string_key,
  if◌then◌else◌, Result, ok, err, ok_or, map_err, ◌>>=◌,
}
use mojave.Rpc.{RpcErr, bad_params}

pub data ParseError : Type 0 where
  missing_namespace missing_method : ParseError
  invalid_format : String → ParseError

pub data TokenTree : Type 0 where
  ident : String → TokenTree
  literal : String → TokenTree
  punct : ℕ → TokenTree
  group : TokenTree

-- `syn::Lit`: a text with its value, or another literal as written
pub data Lit : Type 0 where
  lit_str : String → Lit
  lit_other : String → Lit

-- the tokens after the next `=`
unfoldable pub skip_until_equal : List TokenTree → Result ParseError (List TokenTree)
skip_until_equal [] = err (invalid_format "Expected '=' after attribute key")
skip_until_equal (punct c ∷ rest) =
    let later = skip_until_equal rest in if eqb c 61 then ok rest else later
skip_until_equal (_ ∷ rest) = skip_until_equal rest

lit_value : Lit → String
lit_value (lit_str s) = s
lit_value (lit_other s) = s

pub record Attributes : Type 0 where
  pub namespace : Option String
  pub method : Option String

-- the `match` on the key
unfoldable pub assign : String → String → Attributes → Attributes
assign key value found =
    if key == "namespace"
    then record found { namespace = some value }
    else if key == "method"
    then record found { method = some value }
    else found

module _ (parse_str : String → Option Lit) where
  value_of : Option Lit → Option String
  unfolding lit_value
  value_of none = none
  value_of (some lit) = some (lit_value lit)

  -- with the tokens that are left
  unfoldable pub parse_string_literal : List TokenTree → Option String × List TokenTree
  unfolding value_of
  parse_string_literal [] = (none, [])
  parse_string_literal (literal l ∷ rest) = (value_of (parse_str l), rest)
  parse_string_literal (_ ∷ rest) = (none, rest)

  -- The loop. Each turn takes a token at least, so that as much fuel as tokens is enough.
  unfoldable pub parse_loop : ℕ → List TokenTree → Attributes → Result ParseError Attributes
  parse_loop zero ts found = ok found
  parse_loop (suc fuel) [] found = ok found
  parse_loop (suc fuel) (ident key ∷ ts) found = do
    rest ← skip_until_equal ts
    value ←
        ok_or (parse_string_literal rest).0
          (invalid_format (append (append "Expected string literal after '" key) "='"))
    parse_loop fuel (parse_string_literal rest).1 (assign key value found)
  parse_loop (suc fuel) (_ ∷ ts) found = parse_loop fuel ts found

  unfoldable pub parse_attr_tokens : List TokenTree → Result ParseError (String × String)
  parse_attr_tokens ts = do
    found ← parse_loop (length ts) ts (record { namespace = none; method = none })
    ns ← ok_or found.namespace missing_namespace
    m ← ok_or found.method missing_method
    ok (ns, m)

-- the name that the generated `register_*` function registers the handler under
unfoldable pub full_method : String → String → String
full_method namespace method = append namespace (append "_" method)

-- `extract_args_types`: the types of the two arguments; another number of them is a panic.
unfoldable pub extract_args_types : {Ty : Type 0} → List Ty → Option (Ty × Ty)
extract_args_types (ctx_ty ∷ params_ty ∷ []) = some (ctx_ty, params_ty)
extract_args_types _ = none

-- the value that the parameters are read from: one parameter stands for itself
unfoldable pub params_value :
    {Json : Type 0} → Json → (List Json → Json) → Option (List Json) → Json
params_value null array none = null
params_value null array (some []) = null
params_value null array (some (v ∷ [])) = v
params_value null array (some (v ∷ w ∷ vec)) = array (v ∷ w ∷ vec)

module _ {F Json Params : Type 0} (null : Json) (array : List Json → Json)
    (from_value : Json → Result F Params) (invalid_params : F → String) where
  unfoldable pub parse_params : Option (List Json) → Result RpcErr Params
  parse_params params =
      map_err (λ e. bad_params (invalid_params e)) (from_value (params_value null array params))

  -- the handler that is registered, around the annotated function
  unfoldable pub registered :
      {Ctx Answer : Type 0}
      → (Ctx → Params → Result RpcErr Answer)
      → Option (List Json)
      → Ctx
      → Result RpcErr Answer
  registered handler params ctx = do parsed ← parse_params params; handler ctx parsed
