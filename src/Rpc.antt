-- ===== src/Rpc.antt =====
-- crates/rpc/core/src/{types,utils}.rs and crates/rpc/server/src/lib.rs: the registry of handlers and
-- fallbacks, the dispatch of a request, and the answer to a request body with one or several requests.
-- JSON values, request ids and requests are serde's and ethrex's and come as parameters, so does the
-- parser of bodies. What a handler answers is a function of the request and the context.
pub mod Macros
pub mod Routing
mod Tests
use Prim.Native.Char.{Char, code}
use Prim.Native.String.{[] as empty, ◌∷◌ as and_then}
use mojave.Base.{
  ℕ, String, Bool, true, false, Option, none, some, List, [], ◌∷◌, map, eqb, if◌then◌else◌, Result,
  ok, err, KeyEq, ◌==◌, string_key, map_err, ◌>>=◌, ◌≡◌, ◌↔◌, refl, arith,
}
use mojave.Base.Collections.{get, put}

-- `Mojave` is spelled as in requests.
pub data Namespace : Type 0 where
  debug eth moj net tx_pool web3 : Namespace

-- the variants of ethrex's `RpcErr` that the source constructs
pub data RpcErr : Type 0 where
  bad_params internal method_not_found : String → RpcErr

-- `str::replace(c, "")`
unfoldable pub without : ℕ → String → String
without c empty = empty
without c (and_then d s) =
    let rest = without c s in if eqb (code d) c then rest else and_then d rest

-- `str::split(c).next()`, which is there even for the empty text
unfoldable pub before : ℕ → String → String
before c empty = empty
before c (and_then d s) = let rest = before c s in if eqb (code d) c then empty else and_then d rest

abbrev quote : ℕ
quote = 34

abbrev underscore : ℕ
underscore = 95

unfoldable pub named : String → String → Result RpcErr Namespace
named method namespace =
    if namespace == "debug"
    then ok debug
    else if namespace == "eth"
    then ok eth
    else if namespace == "moj"
    then ok moj
    else if namespace == "net"
    then ok net
    else if namespace == "txpool"
    then ok tx_pool
    else if namespace == "web3"
    then ok web3
    else err (method_not_found method)

unfoldable pub resolve_namespace : String → Result RpcErr Namespace
unfolding named
resolve_namespace method = named method (before underscore (without quote method))

pub ns_beq : Namespace → Namespace → Bool
ns_beq debug debug = true
ns_beq eth eth = true
ns_beq moj moj = true
ns_beq net net = true
ns_beq tx_pool tx_pool = true
ns_beq web3 web3 = true
ns_beq _ _ = false

pub ns_beq_iff : (a b : Namespace) → (ns_beq a b ≡ true) ↔ (a ≡ b)
unfolding ns_beq
ns_beq_iff a b = ground arith

-- `derive(PartialEq, KeyEq)`
instance abbrev pub namespace_key : KeyEq Namespace
namespace_key = record { same = ns_beq; same_iff = ns_beq_iff }

abbrev pub DynHandler : Type 0 → Type 0 → Type 0 → Type 0
DynHandler Request Value C = Request → C → Result RpcErr Value

pub record RpcRegistry (Request Value C : Type 0) : Type 0 where
  pub handlers : List (String × DynHandler Request Value C)
  pub fallbacks : List (Namespace × DynHandler Request Value C)

module _ {Request Value C : Type 0} where
  unfoldable pub new : RpcRegistry Request Value C
  new = record { handlers = []; fallbacks = [] }

  unfoldable pub register_fn :
      RpcRegistry Request Value C
      → String
      → DynHandler Request Value C
      → RpcRegistry Request Value C
  register_fn self name f = record self { handlers = put name f self.handlers }

  unfoldable pub register_fallback :
      RpcRegistry Request Value C
      → Namespace
      → DynHandler Request Value C
      → RpcRegistry Request Value C
  register_fallback self ns f = record self { fallbacks = put ns f self.fallbacks }

  module _ (method : Request → String) where
    fall_back : Request → C → Option (DynHandler Request Value C) → Result RpcErr Value
    fall_back req ctx (some fallback) = fallback req ctx
    fall_back req ctx none = err (method_not_found (method req))

    without_handler :
        RpcRegistry Request Value C → Request → C → Result RpcErr Namespace → Result RpcErr Value
    unfolding fall_back
    without_handler self req ctx (ok ns) = fall_back req ctx (get ns self.fallbacks)
    without_handler self req ctx (err e) = err e

    dispatched :
        RpcRegistry Request Value C
        → Request
        → C
        → Option (DynHandler Request Value C)
        → Result RpcErr Value
    unfolding without_handler
    dispatched self req ctx (some handler) = handler req ctx
    dispatched self req ctx none = without_handler self req ctx (resolve_namespace (method req))

    unfoldable pub dispatch : RpcRegistry Request Value C → Request → C → Result RpcErr Value
    unfolding dispatched
    dispatch self req ctx = dispatched self req ctx (get (method req) self.handlers)

pub record RpcSuccessResponse (RequestId Value : Type 0) : Type 0 where
  pub id : RequestId
  pub jsonrpc : String
  pub result : Value

pub record RpcErrorResponse (RequestId Metadata : Type 0) : Type 0 where
  pub jsonrpc : String
  pub id : Option RequestId
  pub error : Metadata

pub data RpcRequestWrapper (Request : Type 0) : Type 0 where
  single : Request → RpcRequestWrapper Request
  multiple : List Request → RpcRequestWrapper Request

pub data StatusCode : Type 0 where
  bad_request : StatusCode

-- what the server calls of serde and ethrex
pub record Json (Request RequestId Value : Type 0) : Type 1 where
  pub F : Type 0
  pub Metadata : Type 0
  pub method : Request → String
  pub id : Request → RequestId
  pub from_str : String → Result F (RpcRequestWrapper Request)
  pub metadata : RpcErr → Metadata
  pub from_error : F → RpcErr
  pub success_to_value : RpcSuccessResponse RequestId Value → Result F Value
  pub error_to_value : RpcErrorResponse RequestId Metadata → Result F Value
  pub list_to_value : List Value → Result F Value
  -- `json!({"error": message})`
  pub error_object : String → Value

module _ {Request RequestId Value : Type 0} (json : Json Request RequestId Value) where
  open json use {
    F, Metadata, method, id, from_str, metadata, from_error, success_to_value, error_to_value,
    list_to_value, error_object,
  }

  unwrap_or : {E : Type 0} → Value → Result E Value → Value
  unwrap_or v (ok value) = value
  unwrap_or v (err e) = v

  unfoldable pub rpc_response_success : RequestId → Value → Result RpcErr Value
  rpc_response_success i result =
      map_err from_error (success_to_value (record { id = i; jsonrpc = "2.0"; result = result }))

  unfoldable pub rpc_response_error : Option RequestId → RpcErr → Result RpcErr Value
  rpc_response_error i error =
      map_err from_error
        (error_to_value (record { jsonrpc = "2.0"; id = i; error = metadata error }))

  unfoldable pub rpc_response : RequestId → Result RpcErr Value → Result RpcErr Value
  unfolding rpc_response_success rpc_response_error
  rpc_response i (ok value) = rpc_response_success i value
  rpc_response i (err e) = rpc_response_error (some i) e

  module _ {C : Type 0} where
    unfoldable pub respond : RpcRegistry Request Value C → C → Request → Value
    unfolding unwrap_or
    respond registry context request =
        unwrap_or (error_object "Response serialization failed")
          (rpc_response (id request) (dispatch method registry request context))

    answer : RpcRegistry Request Value C → C → RpcRequestWrapper Request → Value
    unfolding respond unwrap_or
    answer registry context (single request) = respond registry context request
    answer registry context (multiple requests) =
        unwrap_or (error_object "Batch serialization failed")
          (list_to_value (map (respond registry context) requests))

    parsed :
        RpcRegistry Request Value C
        → C
        → Result F (RpcRequestWrapper Request)
        → Result (StatusCode × Value) Value
    unfolding answer
    parsed registry context (ok wrapper) = ok (answer registry context wrapper)
    parsed registry context (err e) = err (
      bad_request,
      unwrap_or (error_object "Parse error") (rpc_response_error none (bad_params "Invalid JSON")),
    )

    unfoldable pub handle :
        RpcRegistry Request Value C → C → String → Result (StatusCode × Value) Value
    unfolding parsed
    handle registry context body = parsed registry context (from_str body)
