-- ===== src/Client/Sequential.antt =====
-- Which urls a sequential request contacts, and what it answers.
use mojave.Base.{
  ◌≡◌, refl, ap, ◌∙◌, List, [], ◌∷◌, ◌++◌, Result, ok, err, ◌⊎◌, inl, inr, All, is_ok, false,
}
use mathlib.Core.List.{append_assoc, append-nil}
use mojave.Client.{Error, custom, next_url, try_urls, send_request_sequential}

module _ {F T Url : Type 0} (answer : Url → Result (Error F) T) where
  -- Each url has its answer, and the world records the urls that are contacted.
  abbrev pub contact : Url → List Url → Result (Error F) T × List Url
  contact url log = (answer url, log ++ url ∷ [])

  -- the error of the last url, if there is one
  abbrev pub last_failure : List Url → Error F → Error F
  last_failure [] e = e
  last_failure (url ∷ urls) e = last_failure urls (elim (answer url) [ ok r ↦ e | err e' ↦ e' ])

  -- The first url whose answer is ok is the last that is contacted, and its answer is returned; or
  -- all are contacted and fail, and the last error is returned.
  abbrev pub FirstAnswer : List Url → Error F → List Url → Result (Error F) T × List Url → Type 0
  FirstAnswer urls last log r =
      ((before : List Url) × (url : Url) × (after : List Url) × (response : T) × (urls
          ≡ before ++ url ∷ after)
        × All (λ u. is_ok (answer u) ≡ false) before
        × (answer url ≡ ok response)
        × (r ≡ (ok response, log ++ (before ++ url ∷ []))))
      ⊎ (All (λ u. is_ok (answer u) ≡ false) urls
          × (r ≡ (err (last_failure urls last), log ++ urls)))

  FirstAnswer-next :
      (url : Url) (urls : List Url) (last : Error F) (log : List Url) (r : Result (Error F) T)
      → answer url ≡ r
      → ((e : Error F)
          → FirstAnswer urls e (log ++ url ∷ []) (try_urls contact urls e (log ++ url ∷ [])))
      → FirstAnswer
          (url ∷ urls)
          last
          log
          (next_url (try_urls contact urls) (answer url, log ++ url ∷ []))
  unfolding next_url
  FirstAnswer-next url urls last log (ok response) a later =
      inl ([], url, urls, response, refl, tt, a, rw (a, next_url))
  FirstAnswer-next url urls last log (err e) a later = elim (later e) [
    | inl (before, u, after, response, split, failed, found, r) ↦ inl (
      url ∷ before,
      u,
      after,
      response,
      ap (◌∷◌ url) split,
      (rw a, failed),
      found,
      rw (a, next_url) (r ∙ rw append_assoc),
    )
    | inr (failed, r) ↦ inr ((rw a, failed), rw (a, next_url) (r ∙ rw append_assoc))
  ]

  try_urls-FirstAnswer :
      (urls : List Url) (last : Error F) (log : List Url)
      → FirstAnswer urls last log (try_urls contact urls last log)
  unfolding try_urls
  try_urls-FirstAnswer [] last log = inr (tt, rw append-nil)
  try_urls-FirstAnswer (url ∷ urls) last log =
      FirstAnswer-next url urls last log (answer url) refl
        (λ e. try_urls-FirstAnswer urls e (log ++ url ∷ []))

  -- Over urls that each have one answer, a sequential request returns the first answer that is ok,
  -- and contacts just the urls up to it, in order; if no answer is ok it contacts them all and
  -- returns the error of the last, or the error "All RPC calls failed" when there is no url.
  pub send_request_sequential-FirstAnswer :
      (urls : List Url)
      → FirstAnswer urls
          (custom "All RPC calls failed")
          []
          (send_request_sequential contact urls [])
  unfolding send_request_sequential
  send_request_sequential-FirstAnswer urls = try_urls-FirstAnswer urls _ []
