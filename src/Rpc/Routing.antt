-- ===== src/Rpc/Routing.antt =====
-- Where a request goes, after each registration.
use Prim.Native.Char.{char, code}
use Prim.Native.String.{[] as empty, ◌∷◌ as and_then}
use mojave.Base.{
  ℕ, zero, suc, List, [], ◌∷◌, String, false, Option, none, some, eqb, if◌then◌else◌, Result, ok,
  err, ◌==◌, string_key, sym, ◌≡◌, ◌⊎◌, inl, inr, refl, ap, Bool-cases,
}
use mojave.Base.Collections.{get, get-put}
use mojave.Rpc.{
  Namespace, RpcErr, underscore, quote, resolve_namespace, DynHandler, RpcRegistry, register_fn,
  register_fallback, without_handler, dispatched, fall_back, namespace_key, dispatch,
}

module _ {Request Value C : Type 0} (method : Request → String) where
  -- A handler that is registered under a name answers the requests with that method, in place of one
  -- that was there; all other requests are answered as before.
  pub dispatch-register_fn :
      (self : RpcRegistry Request Value C) (name : String) (f : DynHandler Request Value C)
      (req : Request) (ctx : C)
      → dispatch method (register_fn self name f) req ctx
        ≡ (if name == method req then f req ctx else dispatch method self req ctx)
  unfolding dispatch register_fn
  dispatch-register_fn self name f req ctx =
      rw (get-put name (method req) f self.handlers)
        (elim (Bool-cases (name == method req)) [ inl h ↦ rw h refl | inr h ↦ rw h refl ])

  abbrev pub Redirects :
      RpcRegistry Request Value C
      → Namespace
      → DynHandler Request Value C
      → Request
      → C
      → Option (DynHandler Request Value C)
      → Result RpcErr Namespace
      → Result RpcErr Value
      → Result RpcErr Value
      → Type 0
  Redirects self ns f req ctx handler found after before' =
      ((handler ≡ none) × (found ≡ ok ns) × (after ≡ f req ctx))
      ⊎ (((handler ≡ none) × (found ≡ ok ns) → ⊥) × (after ≡ before'))

  without_handler-Redirects :
      (self : RpcRegistry Request Value C) (ns : Namespace) (f : DynHandler Request Value C)
      (req : Request) (ctx : C) (found : Result RpcErr Namespace)
      → Redirects self ns f req ctx none found
          (without_handler method (register_fallback self ns f) req ctx found)
          (without_handler method self req ctx found)
  unfolding register_fallback without_handler fall_back
  without_handler-Redirects self ns f req ctx (err e) = inr (λ h. cc h.1, refl)
  without_handler-Redirects self ns f req ctx (ok m) =
      rw (get-put ns m f self.fallbacks) (elim (Bool-cases (ns == m)) [
        | inl h ↦ rw h (inl (refl, ap ok (sym ((namespace_key.same_iff ns m).0 h)), refl))
        | inr h ↦ rw h (inr (λ k. cc (h, (namespace_key.same_iff ns m).1 (cc k.1)), refl))
      ])

  dispatched-Redirects :
      (self : RpcRegistry Request Value C) (ns : Namespace) (f : DynHandler Request Value C)
      (req : Request) (ctx : C) (handler : Option (DynHandler Request Value C))
      → Redirects self ns f req ctx handler
          (resolve_namespace (method req))
          (dispatched method (register_fallback self ns f) req ctx handler)
          (dispatched method self req ctx handler)
  unfolding dispatched
  dispatched-Redirects self ns f req ctx (some handler) = inr (λ h. cc h.0, refl)
  dispatched-Redirects self ns f req ctx none =
      without_handler-Redirects self ns f req ctx (resolve_namespace (method req))

  -- A fallback that is registered for a namespace answers the requests whose method has no handler of
  -- its own and lies in the namespace, and every other request is answered as before.
  pub dispatch-register_fallback :
      (self : RpcRegistry Request Value C) (ns : Namespace) (f : DynHandler Request Value C)
      (req : Request) (ctx : C)
      → Redirects self ns f req ctx
          (get (method req) self.handlers)
          (resolve_namespace (method req))
          (dispatch method (register_fallback self ns f) req ctx)
          (dispatch method self req ctx)
  unfolding dispatch register_fallback
  dispatch-register_fallback self ns f req ctx =
      dispatched-Redirects self ns f req ctx (get (method req) self.handlers)

-- None of the letters of `p` is a quote or an underscore.
abbrev pub IsPlain : String → Type 0
IsPlain empty = Unit
IsPlain (and_then c p) =
    (eqb (code c) quote ≡ false) × (eqb (code c) underscore ≡ false) × IsPlain p

-- A text with so many quotes before each of its letters; a letter without a number has none.
abbrev pub quotes : ℕ → String → String
quotes zero s = s
quotes (suc n) s = and_then (char 34 tt) (quotes n s)

abbrev pub quoted : List ℕ → String → String
quoted ns empty = empty
quoted [] (and_then c p) = and_then c (quoted [] p)
quoted (n ∷ ns) (and_then c p) = quotes n (and_then c (quoted ns p))
