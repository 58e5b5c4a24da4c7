-- ===== src/Client/Retry.antt =====
-- Where the retry loop stops, and which delays it sleeps.
use mojave.Base.{
  ℕ, zero, suc, ◌+◌, ◌-◌, ◌≤◌, ◌<◌, ◌≡◌, max, length, All, refl, ap, ◌∙◌, true, false, ◌&&◌, Option,
  none, some, List, [], ◌∷◌, ◌++◌, Result, ok, err, ltb, arith, Bool-cases, inl, inr, lt→ltb,
}
use mathlib.Core.List.{append_assoc, append-nil}
use mojave.Client.{
  Error, RetryConfig, next_delay, Attempts, after_attempt, retry_loop, send_request_with_retry,
}
use mojave.Client.Outcomes.{
  is_retryable_error-retryable, longer, retryable, stop, Clock, answer, doze, delays,
}

module _ {F T : Type 0} (config : RetryConfig) (outcome : ℕ → Result (Error F) T) where
  stop-ge : (left i : ℕ) → i ≤ stop outcome left i
  unfolding stop
  stop-ge zero i = omega arith
  stop-ge (suc left) i = ground (arith, stop-ge left (i + 1))

  stop-le : (left i : ℕ) → stop outcome left i ≤ i + left
  unfolding stop
  stop-le zero i = omega arith
  stop-le (suc left) i = ground (arith, stop-le left (i + 1))

  module _ (again : Attempts F → Clock → Option (Result (Error F) T × Clock)) (s : Attempts F)
      (w : Clock) where
    after_attempt-final :
        (r : Result (Error F) T)
        → (retryable r && ltb s.attempt config.max_retries) ≡ false
        → after_attempt config doze again s (r, w) ≡ some (r, w)
    unfolding after_attempt
    after_attempt-final (ok response) h = refl
    after_attempt-final (err error) h = rw (is_retryable_error-retryable T error, h) refl

    after_attempt-again :
        (r : Result (Error F) T) {x : Option (Result (Error F) T × Clock)}
        → (retryable r && ltb s.attempt config.max_retries) ≡ true
        → ((error : Error F)
            → again
                (record s { delay = next_delay config s.delay; last_error = some error })
                (doze s.delay w)
              ≡ x)
        → after_attempt config doze again s (r, w) ≡ x
    unfolding after_attempt
    after_attempt-again (ok response) h k = cc
    after_attempt-again (err error) h k = rw (is_retryable_error-retryable T error, h) (k error)

  next_delay-longer : (delay : ℕ) → next_delay config delay ≡ longer config delay
  unfolding next_delay
  next_delay-longer delay = ground arith

  delays-step :
      (i j delay : ℕ)
      → i + 1 ≤ j
      → delays config (j - i) delay ≡ delay ∷ delays config (j - (i + 1)) (next_delay config delay)
  unfolding delays
  delays-step i j delay h =
      let e : j - i ≡ suc (j - (i + 1)) = omega arith in
      rw (ap (λ n. delays config n delay) e, next_delay-longer delay) refl

  abbrev Stops : ℕ → ℕ → ℕ → List ℕ → Option (Result (Error F) T × Clock) → Type 0
  Stops j i delay slept r =
      r
      ≡ some (outcome j, record { attempts = j + 1; slept = slept ++ delays config (j - i) delay })

  Stops-self :
      (i delay : ℕ) (slept : List ℕ)
      → Stops i i delay slept (some (outcome i, record { attempts = i + 1; slept = slept }))
  unfolding delays
  Stops-self i delay slept =
      let e : i - i ≡ 0 = omega arith in rw (ap (λ n. delays config n delay) e, append-nil slept)

  Stops-later :
      (j i delay : ℕ) (slept : List ℕ) {r : Option (Result (Error F) T × Clock)}
      → i + 1 ≤ j
      → Stops j (i + 1) (next_delay config delay) (slept ++ delay ∷ []) r
      → Stops j i delay slept r
  Stops-later j i delay slept h k =
      k ∙ rw (delays-step i j delay h, append_assoc slept (delay ∷ []) _)

  -- The loop in the midst: `i` attempts are made, and one more is allowed than `left`.
  retry_loop-Stops :
      (left fuel i delay : ℕ) (last : Option (Error F)) (slept : List ℕ)
      → config.max_retries ≡ suc (i + left)
      → left < fuel
      → Stops (stop outcome left i) i delay slept (
          retry_loop config doze
            (answer outcome)
            fuel
            (record { attempt = i; delay = delay; last_error = last })
            (record { attempts = i; slept = slept }))
  unfolding retry_loop stop
  retry_loop-Stops left zero i delay last slept e h = elim h [ ]
  retry_loop-Stops zero (suc fuel) i delay last slept e h =
      rw (lt→ltb i config.max_retries (omega arith), retry_loop)
        (after_attempt-final (retry_loop config doze (answer outcome) fuel)
            (record { attempt = i + 1; delay = delay; last_error = last })
            (record { attempts = i + 1; slept = slept }) (outcome i) (ground arith)
          ∙ Stops-self i delay slept)
  retry_loop-Stops (suc left) (suc fuel) i delay last slept e h =
      elim (Bool-cases (retryable (outcome i))) [
        | inl more ↦
            rw (lt→ltb i config.max_retries (omega arith), retry_loop, more)
              (after_attempt-again (retry_loop config doze (answer outcome) fuel)
                (record { attempt = i + 1; delay = delay; last_error = last })
                (record { attempts = i + 1; slept = slept }) (outcome i) (ground arith)
                (λ error.
                  Stops-later (stop outcome left (i + 1)) i delay slept (stop-ge left (i + 1)) (
                    retry_loop-Stops left fuel (i + 1) (next_delay config delay) (some error)
                      (slept ++ delay ∷ []) (omega arith) (omega arith))))
        | inr final ↦
            rw (lt→ltb i config.max_retries (omega arith), retry_loop, final)
              (after_attempt-final (retry_loop config doze (answer outcome) fuel)
                  (record { attempt = i + 1; delay = delay; last_error = last })
                  (record { attempts = i + 1; slept = slept }) (outcome i) (ground arith)
                ∙ Stops-self i delay slept)
      ]

  -- Where the limit of retries is above zero, and the fuel is not below it: the request returns the
  -- outcome of the first attempt that does not time out, or of the last one allowed, after just the
  -- attempts up to that one. Between them it has slept, first the initial delay, and then each time the
  -- delay before times the backoff factor, no more than the longest duration and than the maximum.
  pub send_request_with_retry-stop :
      (fuel : ℕ)
      → 0 < config.max_retries
      → config.max_retries ≤ fuel
      → send_request_with_retry config doze fuel
          (answer outcome)
          (record { attempts = 0; slept = [] })
        ≡ some (
          outcome (stop outcome (config.max_retries - 1) 0),
          record {
            attempts = stop outcome (config.max_retries - 1) 0 + 1;
            slept = delays config (stop outcome (config.max_retries - 1) 0) config.initial_delay;
          },
        )
  unfolding send_request_with_retry
  send_request_with_retry-stop fuel h k =
      let j = stop outcome (config.max_retries - 1) 0 in
      let e : j - 0 ≡ j = omega arith in
      rw e at (
        retry_loop-Stops (config.max_retries - 1) fuel 0 config.initial_delay none [] (omega arith)
          (omega arith))

  delays-le :
      (n delay : ℕ)
      → delay ≤ max config.initial_delay config.max_delay
      → All (λ d. d ≤ max config.initial_delay config.max_delay) (delays config n delay)
  unfolding delays
  delays-le zero delay h = tt
  delays-le (suc n) delay h = (h, delays-le n (longer config delay) (ground arith))

  length-delays : (n delay : ℕ) → length (delays config n delay) ≡ n
  unfolding delays
  length-delays zero delay = refl
  length-delays (suc n) delay = ap suc (length-delays n (longer config delay))

  -- A request with a limit of retries above zero returns, after at most that many attempts, and it
  -- sleeps once between any two of them, never longer than the greater of the initial and the
  -- maximal delay.
  pub send_request_with_retry_bounds :
      (fuel : ℕ)
      → 0 < config.max_retries
      → config.max_retries ≤ fuel
      → (r : Result (Error F) T) × (w : Clock) × (send_request_with_retry config doze fuel
            (answer outcome)
            (record { attempts = 0; slept = [] })
          ≡ some (r, w))
        × (w.attempts ≤ config.max_retries)
        × (length w.slept + 1 ≡ w.attempts)
        × All (λ d. d ≤ max config.initial_delay config.max_delay) w.slept
  send_request_with_retry_bounds fuel h k =
      let j = stop outcome (config.max_retries - 1) 0 in
      (
        outcome j,
        record { attempts = j + 1; slept = delays config j config.initial_delay },
        send_request_with_retry-stop fuel h k,
        omega (arith, stop-le (config.max_retries - 1) 0),
        omega (arith, length-delays j config.initial_delay),
        delays-le j config.initial_delay (omega arith),
      )
