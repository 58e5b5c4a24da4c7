-- ===== src/Client/Once.antt =====
-- One attempt over HTTP, and what that makes of the retries.
use mojave.Base.{
  ℕ, zero, suc, ◌<◌, ◌≡◌, refl, String, false, Option, some, Result, ok, err, arith, lt→ltb,
}
use mojave.Client.{
  Error, RetryConfig, RpcResponse, Attempts, after_attempt, retry_loop, send_request_with_retry,
  post_body, read_response, send_request_once,
}
use mojave.Client.Outcomes.{retryable, is_retryable_error-retryable}

module _ {F T W : Type 0} (config : RetryConfig) (sleep : ℕ → W → W)
    (send_once : W → Result (Error F) T × W) where
  after_attempt_final :
      (again : Attempts F → W → Option (Result (Error F) T × W)) (s : Attempts F) (w : W)
      (r : Result (Error F) T)
      → retryable r ≡ false
      → after_attempt config sleep again s (r, w) ≡ some (r, w)
  unfolding after_attempt
  after_attempt_final again s w (ok response) h = refl
  after_attempt_final again s w (err error) h = rw (is_retryable_error-retryable T error, h) refl

  send_request_with_retry_final :
      (fuel : ℕ) (w : W)
      → 0 < config.max_retries
      → 0 < fuel
      → retryable (send_once w).0 ≡ false
      → send_request_with_retry config sleep fuel send_once w ≡ some (send_once w)
  unfolding send_request_with_retry retry_loop
  send_request_with_retry_final zero w h k e = elim k [ ]
  send_request_with_retry_final (suc fuel) w h k e =
      rw (lt→ltb 0 config.max_retries h, retry_loop)
        (after_attempt_final (retry_loop config sleep send_once fuel)
          (record { attempt = 1; delay = config.initial_delay; last_error = Option.none })
          (send_once w).1 (send_once w).0 e)

module _ {F T W V C Request Url : Type 0} (to_string : Request → Result F String)
    (post : Url → String → W → Result F (RpcResponse V C) × W) (from_value : V → Result F T)
    (rpc_error : C → String → String) where
  read_response_final :
      (response : Result F (RpcResponse V C))
      → retryable (read_response {W = W} to_string post from_value rpc_error response) ≡ false
  unfolding read_response
  read_response_final response = ground arith

  send_request_once_final :
      (request : Request) (url : Url) (w : W)
      → retryable (send_request_once to_string post from_value rpc_error request url w).0 ≡ false
  unfolding send_request_once post_body
  send_request_once_final request url w = ground (arith)

  -- No request is ever sent twice: whatever fails over HTTP, no failure counts as a timeout, so with
  -- a limit of retries above zero the request is the first attempt alone, and nothing sleeps.
  pub send_request_once-never_retries :
      (config : RetryConfig) (sleep : ℕ → W → W) (fuel : ℕ) (request : Request) (url : Url) (w : W)
      → 0 < config.max_retries
      → 0 < fuel
      → send_request_with_retry config sleep fuel
          (send_request_once to_string post from_value rpc_error request url)
          w
        ≡ some (send_request_once to_string post from_value rpc_error request url w)
  send_request_once-never_retries config sleep fuel request url w h k =
      send_request_with_retry_final config sleep
        (send_request_once to_string post from_value rpc_error request url) fuel w h k
        (send_request_once_final request url w)
