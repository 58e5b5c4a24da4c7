-- ===== src/Client.antt =====
-- crates/client/src/utils.rs, retry_config.rs, constants.rs, error.rs and types.rs: one request to a
-- list of urls, each with retries. The network and the clock are a world `W` that reqwest's calls and
-- tokio's `sleep` act on; both are parameters, as is serde. A `Duration` is its number of
-- nanoseconds. `while` takes fuel, and `none` means that the fuel ran out.
pub mod Outcomes
pub mod Retry
pub mod Once
pub mod Sequential
pub mod Requests
pub mod Tests
use mojave.Base.{
  ℕ, zero, suc, ◌+◌, ◌-◌, ◌*◌, ◌^◌, min, String, Bool, true, false, ◌&&◌, Option, none, some, List,
  [], ◌∷◌, ltb, if◌then◌else◌, Result, ok, err, map_err, ◌>>=◌,
}

-- `F` stands for the errors of other crates that the variants wrap.
pub data Error (F : Type 0) : Type 0 where
  custom : String → Error F
  missing_full_node_urls missing_max_attempts missing_private_key missing_prover_url : Error F
  missing_sequencer_url missing_timeout no_rpc_urls_configured : Error F
  reqwest : F → Error F
  retry_failed : ℕ → Error F
  rpc : F → Error F
  serde_json : F → Error F
  signature_error : F → Error F
  time_out : Error F

abbrev pub millis : ℕ → ℕ
millis n = n * 1000000

abbrev pub secs : ℕ → ℕ
secs n = n * 1000000000

-- `Duration::MAX`
abbrev pub duration_max : ℕ
duration_max = secs (2 ^ 64 - 1) + 999999999

abbrev pub saturating_mul : ℕ → ℕ → ℕ
saturating_mul d k = min (d * k) duration_max

pub record RetryConfig : Type 0 where
  pub max_retries : ℕ
  pub initial_delay : ℕ
  pub backoff_factor : ℕ
  pub max_delay : ℕ

-- `RetryConfig::default`, from the four constants
abbrev pub default_config : RetryConfig
default_config = record {
  max_retries = 1;
  initial_delay = millis 100;
  backoff_factor = 2;
  max_delay = secs 30;
}

unfoldable pub is_retryable_error : {F : Type 0} → Error F → Bool
is_retryable_error time_out = true
is_retryable_error _ = false

-- The delay after a delay.
unfoldable pub next_delay : RetryConfig → ℕ → ℕ
next_delay config delay =
    let longer = saturating_mul delay config.backoff_factor in
    if ltb config.max_delay longer then config.max_delay else longer

-- the variables of the loop in `send_request_with_retry`
pub record Attempts (F : Type 0) : Type 0 where
  pub attempt : ℕ
  pub delay : ℕ
  pub last_error : Option (Error F)

abbrev pub unwrap_or : {A : Type 0} → Option A → A → A
unwrap_or none d = d
unwrap_or (some a) d = a

module _ {F T W : Type 0} (config : RetryConfig) (sleep : ℕ → W → W) where
  -- the `match` in the loop, after `attempt += 1`
  after_attempt :
      (Attempts F → W → Option (Result (Error F) T × W))
      → Attempts F
      → Result (Error F) T × W
      → Option (Result (Error F) T × W)
  after_attempt again s (ok response, w) = some (ok response, w)
  after_attempt again s (err error, w) =
      if is_retryable_error error && ltb s.attempt config.max_retries
      then again (record s { delay = next_delay config s.delay; last_error = some error })
          (sleep s.delay w)
      else some (err error, w)

  retry_loop : (W → Result (Error F) T × W) → ℕ → Attempts F → W → Option (Result (Error F) T × W)
  unfolding after_attempt
  retry_loop send_once zero s w = none
  retry_loop send_once (suc fuel) s w = elim (ltb s.attempt config.max_retries) [
    | false ↦ some (err (unwrap_or s.last_error (retry_failed config.max_retries)), w)
    | true ↦
        after_attempt (retry_loop send_once fuel) (record s { attempt = s.attempt + 1 })
          (send_once w)
  ]

  unfoldable pub send_request_with_retry :
      ℕ → (W → Result (Error F) T × W) → W → Option (Result (Error F) T × W)
  unfolding retry_loop
  send_request_with_retry fuel send_once w =
      retry_loop send_once fuel
        (record { attempt = 0; delay = config.initial_delay; last_error = none }) w

-- A JSON-RPC response: a result, or a code and a message.
pub data RpcResponse (V C : Type 0) : Type 0 where
  success : V → RpcResponse V C
  failure : C → String → RpcResponse V C

module _ {F T W V C Request Url : Type 0} (to_string : Request → Result F String)
    (post : Url → String → W → Result F (RpcResponse V C) × W) (from_value : V → Result F T)
    (rpc_error : C → String → String) where
  -- the `match` on the response
  read_response : Result F (RpcResponse V C) → Result (Error F) T
  read_response (ok (success result)) = map_err serde_json (from_value result)
  read_response (ok (failure code message)) = err (custom (rpc_error code message))
  read_response (err error) = err (reqwest error)

  post_body : Url → Result F String → W → Result (Error F) T × W
  post_body url (ok body) w = let (response, w') = post url body w in (read_response response, w')
  post_body url (err error) w = (err (serde_json error), w)

  -- `post` sends the request, waits for the response and reads it as JSON.
  unfoldable pub send_request_once : Request → Url → W → Result (Error F) T × W
  unfolding post_body read_response
  send_request_once request url w = post_body url (to_string request) w

module _ {F T W : Type 0} where
  next_url :
      (Error F → W → Result (Error F) T × W) → Result (Error F) T × W → Result (Error F) T × W
  next_url more (ok response, w) = (ok response, w)
  next_url more (err error, w) = more error w

module _ {F T W Url : Type 0} where
  try_urls : (Url → W → Result (Error F) T × W) → List Url → Error F → W → Result (Error F) T × W
  unfolding next_url
  try_urls send [] last_error w = (err last_error, w)
  try_urls send (url ∷ urls) last_error w = next_url (try_urls send urls) (send url w)

  -- `send` is `send_request_with_retry` for the request at hand.
  unfoldable pub send_request_sequential :
      (Url → W → Result (Error F) T × W) → List Url → W → Result (Error F) T × W
  unfolding try_urls
  send_request_sequential send urls w = try_urls send urls (custom "All RPC calls failed") w
