-- ===== src/Rpc/Tests.antt =====
-- A registry with one handler and one fallback, and the theorems on it. A request is its method.
use Prim.Native.String.{◌∷◌ as and_then}
use mojave.Base.{
  ℕ, String, Option, some, List, [], ◌∷◌, ok, err, string_key, if◌then◌else◌, ◌≡◌, refl,
}
use mojave.Base.Collections.{get, put}
use mojave.Rpc
use mojave.Rpc.{
  eth, net, RpcErr, method_not_found, before, without, named, resolve_namespace, RpcRegistry,
  DynHandler, register_fn, register_fallback, dispatch, dispatched, without_handler, fall_back,
  ns_beq,
}
use mojave.Rpc.Macros.{Lit, lit_str, parse_attr_tokens}
use mojave.Rpc.Macros.Printed.{printed, last_of, parse_attr_tokens-printed}
use mojave.Rpc.Routing.{Redirects, dispatch-register_fn, dispatch-register_fallback}

abbrev chain_id : DynHandler String ℕ ℕ
chain_id req ctx = ok ctx

abbrev proxy : DynHandler String ℕ ℕ
proxy req ctx = ok 99

abbrev method : String → String
method req = req

abbrev registry : RpcRegistry String ℕ ℕ
registry = register_fallback (register_fn Rpc.new "eth_chainId" chain_id) eth proxy

to_handler : dispatch method registry "eth_chainId" 7 ≡ ok 7
unfolding dispatch dispatched without_handler fall_back register_fn register_fallback Rpc.new get
    put resolve_namespace named before without ns_beq
to_handler = refl

to_fallback : dispatch method registry "eth_blockNumber" 7 ≡ ok 99
unfolding dispatch dispatched without_handler fall_back register_fn register_fallback Rpc.new get
    put resolve_namespace named before without ns_beq
to_fallback = refl

to_nobody : dispatch method registry "net_version" 7 ≡ err (method_not_found "net_version")
unfolding dispatch dispatched without_handler fall_back register_fn register_fallback Rpc.new get
    put resolve_namespace named before without ns_beq
to_nobody = refl

dispatch-register_fn_example :
    dispatch method (register_fn registry "net_version" proxy) "net_version" 7 ≡ (
      if string_key.same "net_version" "net_version"
      then proxy "net_version" 7
      else dispatch method registry "net_version" 7)
dispatch-register_fn_example =
    dispatch-register_fn method registry "net_version" proxy "net_version" 7

dispatch-register_fallback_example :
    Redirects method registry net proxy "net_version" 7
      (get "net_version" registry.handlers)
      (resolve_namespace "net_version")
      (dispatch method (register_fallback registry net proxy) "net_version" 7)
      (dispatch method registry "net_version" 7)
dispatch-register_fallback_example =
    dispatch-register_fallback method registry net proxy "net_version" 7

-- `extra = "ignored", method = "first", namespace = "moj", method = "getJobId",`, without the quotes
abbrev attrs : List (String × String)
attrs =
    ("extra", "ignored") ∷ ("method", "first") ∷ ("namespace", "moj") ∷ ("method", "getJobId") ∷ []

abbrev as_text : String → Option Lit
as_text s = some (lit_str s)

parse_attr_tokens-printed_example :
    parse_attr_tokens as_text (printed (λ s. s) attrs) ≡ ok ("moj", "getJobId")
unfolding last_of
parse_attr_tokens-printed_example = parse_attr_tokens-printed as_text (λ s. s) (λ s. refl) attrs
