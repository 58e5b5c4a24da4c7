-- ===== src/Client/Outcomes.antt =====
-- A description of a retried request that does not follow the loop: what the attempts return is a
-- sequence, and the request stops at one of them.
use mojave.Base.{
  ◌≡◌, arith, ℕ, zero, suc, ◌+◌, ◌*◌, min, Bool, List, [], ◌∷◌, ◌++◌, Result, err, if◌then◌else◌,
  true, false,
}
use mojave.Client.{Error, is_retryable_error, time_out, RetryConfig}

-- A world that answers by the sequence, and records the attempts made and the times slept.
pub record Clock : Type 0 where
  pub attempts : ℕ
  pub slept : List ℕ

module _ {F T : Type 0} where
  -- Only a time-out is worth another attempt.
  abbrev pub retryable : Result (Error F) T → Bool
  retryable (err time_out) = true
  retryable _ = false

  -- From attempt `i`, with `left` more allowed: the first whose outcome is final, else the last.
  unfoldable pub stop : (ℕ → Result (Error F) T) → ℕ → ℕ → ℕ
  stop outcome zero i = i
  stop outcome (suc left) i =
      let later = stop outcome left (i + 1) in if retryable (outcome i) then later else i

  abbrev pub answer : (ℕ → Result (Error F) T) → Clock → Result (Error F) T × Clock
  answer outcome w = (outcome w.attempts, record w { attempts = w.attempts + 1 })

abbrev pub doze : ℕ → Clock → Clock
doze delay w = record w { slept = w.slept ++ delay ∷ [] }

pub is_retryable_error-retryable :
    {F : Type 0} (T : Type 0) (error : Error F)
    → is_retryable_error error ≡ retryable {T = T} (err error)
unfolding is_retryable_error
is_retryable_error-retryable T error = ground arith

-- A delay times the backoff factor, no more than `Duration::MAX`, which is 2 ^ 64 - 1 seconds and
-- 999,999,999 nanoseconds, and no more than the maximum.
abbrev pub longer : RetryConfig → ℕ → ℕ
longer config delay =
    min (min (delay * config.backoff_factor) (18446744073709551615 * 1000000000 + 999999999))
      config.max_delay

-- The first `n` delays from a delay on.
unfoldable pub delays : RetryConfig → ℕ → ℕ → List ℕ
delays config zero delay = []
delays config (suc n) delay = delay ∷ delays config n (longer config delay)
