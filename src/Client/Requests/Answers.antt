-- ===== src/Client/Requests/Answers.antt =====
-- What a request builder answers, whichever urls and whichever strategy it is given.
use mathlib.Core.List.{Mem, mem-append, mem-cons_self}
use mojave.Base.{
  ◌≡◌, refl, sym, subst, ap, false, Option, none, some, List, [], ◌∷◌, String, map, All, is_ok,
  Result, ok, err, inl, inr,
}
use mathlib.Core.Logic.Or
use mojave.Client.{Error, no_rpc_urls_configured, RetryConfig}
use mojave.Client.Sequential.{contact, FirstAnswer, send_request_sequential-FirstAnswer}
use mojave.Client.Requests.{
  Http, Strategy, sequential, race, RpcRequest, RequestBuilder, get_target_urls, targets, wrapped,
  send_request_race, by_strategy, to_targets, send_rpc_request, effective_retry_config,
}

module _ (http : Http) {T : Type 0} where
  open http use {F, Url, Json}

  -- A url answers ok among these, or none does.
  abbrev pub Answers : (Url → Result (Error F) T) → List Url → Result (Error F) T → Type 0
  Answers reply urls (ok response) = (url : Url) × Mem url urls × (reply url ≡ ok response)
  Answers reply urls (err e) = All (λ url. is_ok (reply url) ≡ false) urls

  -- What `select_ok` promises of requests to at least one url.
  abbrev pub Selects :
      (List (List Url → Result (Error F) T × List Url) → List Url → Result (Error F) T × List Url)
      → Type 0
  Selects select_ok =
      (reply : Url → Result (Error F) T) (url : Url) (urls log : List Url)
      → Answers reply (url ∷ urls) (select_ok (map (contact reply) (url ∷ urls)) log).0

  module _
      (select_ok : List (List Url → Result (Error F) T × List Url)
        → List Url
        → Result (Error F) T × List Url)
      (all_failed : Error F → String) (selects : Selects select_ok)
      -- the answer of each url under each strategy
      (reply : Strategy → Url → Result (Error F) T) where
    abbrev sends : RequestBuilder http → RpcRequest Json → List Url → Result (Error F) T × List Url
    sends =
        send_rpc_request http select_ok all_failed (λ config request. contact (reply sequential))
          (λ request. contact (reply race))

    abbrev pub Sends :
        Option (List Url) → Strategy → List Url → Result (Error F) T × List Url → Type 0
    Sends none strategy log r = r ≡ (err no_rpc_urls_configured, log)
    Sends (some []) strategy log r = r ≡ (err no_rpc_urls_configured, log)
    Sends (some (url ∷ urls)) strategy log r = Answers (reply strategy) (url ∷ urls) r.0

    first-Answers :
        (urls : List Url) (e : Error F) (r : Result (Error F) T × List Url)
        → FirstAnswer (reply sequential) urls e [] r
        → Answers (reply sequential) urls r.0
    first-Answers urls e r (inl (before, url, after, response, parts, failed, found, same)) =
        subst (Answers (reply sequential) urls) (sym (ap (λ x. x.0) same))
          (url, subst (Mem url) (sym parts) (mem-append.1 (Or.inr mem-cons_self)), found)
    first-Answers urls e r (inr (failed, same)) =
        subst (Answers (reply sequential) urls) (sym (ap (λ x. x.0) same)) failed

    wrapped-Answers :
        (urls : List Url) (r : Result (Error F) T × List Url)
        → Answers (reply race) urls r.0
        → Answers
            (reply race)
            urls
            (wrapped http select_ok all_failed
              (λ config request. contact (reply sequential))
              (λ request. contact (reply race))
              r).0
    unfolding wrapped
    wrapped-Answers urls (ok response, log) h = h
    wrapped-Answers urls (err e, log) h = h

    by_strategy-Answers :
        (config : RetryConfig) (request : RpcRequest Json) (strategy : Strategy) (url : Url)
        (urls : List Url)
        → Answers
            (reply strategy)
            (url ∷ urls)
            (by_strategy http select_ok all_failed
              (λ config' request'. contact (reply sequential))
              (λ request'. contact (reply race))
              strategy
              config
              request
              (url ∷ urls)
              []).0
    unfolding by_strategy send_request_race
    by_strategy-Answers config request sequential url urls =
        first-Answers (url ∷ urls) _ _
          (send_request_sequential-FirstAnswer (reply sequential) (url ∷ urls))
    by_strategy-Answers config request race url urls =
        wrapped-Answers (url ∷ urls) _ (selects (reply race) url urls [])

    -- Where each url has its answer, and `select_ok` returns an ok answer if there is one: a request
    -- without target urls is the error that none is configured, and contacts nobody. One with target
    -- urls, in sequence or as a race, returns the ok answer of one of them, or fails only if none of
    -- them answers ok.
    pub send_rpc_request-Sends :
        (self : RequestBuilder http) (request : RpcRequest Json)
        → Sends self.target_urls self.strategy [] (sends self request [])
    unfolding send_rpc_request get_target_urls to_targets targets
    send_rpc_request-Sends self request = by_targets self.target_urls
      where
        by_targets :
            (urls : Option (List Url))
            → Sends urls self.strategy [] (
                to_targets http select_ok all_failed
                  (λ config' request'. contact (reply sequential))
                  (λ request'. contact (reply race))
                  self
                  request
                  (targets http urls)
                  [])
        by_targets none = refl
        by_targets (some []) = refl
        by_targets (some (url ∷ urls)) =
            by_strategy-Answers (effective_retry_config http self) request self.strategy url urls
