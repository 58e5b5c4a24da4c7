-- ===== src/Client/Tests.antt =====
-- Runs of the retry loop and of a request to three urls, and the theorems on them.
use mojave.Base.{
  ℕ, suc, ◌≡◌, refl, ◌+◌, String, none, some, List, [], ◌∷◌, ◌++◌, map, Result, ok, err, arith, eqb,
  if◌then◌else◌,
}
use mojave.Client.{
  Error, custom, time_out, reqwest, RetryConfig, millis, is_retryable_error, next_delay,
  RpcResponse, send_request_with_retry, send_request_once, send_request_sequential,
}
use mathlib.Core.List.{mem-cons_self, mem-cons_of_mem}
use mojave.Client.Requests.{Http, RequestBuilder, race, send_rpc_request}
use mojave.Client.Requests.Answers.{Answers, Sends, send_rpc_request-Sends}
use mojave.Client.Outcomes.{stop, Clock, answer, doze, delays}
use mojave.Client.Retry.{send_request_with_retry-stop}
use mojave.Client.Once.{send_request_once-never_retries}
use mojave.Client.Sequential.{contact, FirstAnswer, send_request_sequential-FirstAnswer}

abbrev patient : RetryConfig
patient = record {
  max_retries = 5;
  initial_delay = millis 100;
  backoff_factor = 2;
  max_delay = millis 300;
}

-- Three attempts time out, and the fourth is answered.
abbrev outcome : ℕ → Result (Error ℕ) String
outcome n = if eqb n 3 then ok "proof" else err time_out

abbrev at_start : Clock
at_start = record { attempts = 0; slept = [] }

fourth_attempt :
    send_request_with_retry patient doze 5 (answer outcome) at_start
    ≡ some (ok "proof", record { attempts = 4; slept = millis 100 ∷ millis 200 ∷ millis 300 ∷ [] })
unfolding send_request_with_retry is_retryable_error next_delay
fourth_attempt = refl

send_request_with_retry-stop_example :
    send_request_with_retry patient doze 5 (answer outcome) at_start
    ≡ some (
      outcome (stop outcome 4 0),
      record {
        attempts = stop outcome 4 0 + 1;
        slept = delays patient (stop outcome 4 0) (millis 100);
      },
    )
send_request_with_retry-stop_example =
    send_request_with_retry-stop patient outcome 5 (omega arith) (omega arith)

-- A server that is never reached: the world counts the connections.
abbrev unreachable : ℕ → String → ℕ → Result ℕ (RpcResponse ℕ ℕ) × ℕ
unreachable url body w = (err 110, suc w)

abbrev nobody : ℕ → Result ℕ ℕ
nobody n = ok n

abbrev body_of : String → Result ℕ String
body_of request = ok request

abbrev describe : ℕ → String → String
describe code message = message

send_request_once-never_retries_example :
    send_request_with_retry patient
      (λ d w. w + d)
      5
      (send_request_once body_of unreachable nobody describe "{}" 0)
      0
    ≡ some (err (reqwest 110), 1)
unfolding send_request_once
send_request_once-never_retries_example =
    send_request_once-never_retries body_of unreachable nobody describe patient (λ d w. w + d) 5
      "{}" 0 0 (omega arith) (omega arith)

-- The second of three urls answers.
abbrev by_url : ℕ → Result (Error ℕ) String
by_url url = if eqb url 1 then ok "job" else err (reqwest url)

second_url : send_request_sequential (contact by_url) (0 ∷ 1 ∷ 2 ∷ []) [] ≡ (ok "job", 0 ∷ 1 ∷ [])
unfolding send_request_sequential
second_url = refl

send_request_sequential-FirstAnswer_example :
    FirstAnswer by_url
      (0 ∷ 1 ∷ 2 ∷ [])
      (custom "All RPC calls failed")
      []
      (send_request_sequential (contact by_url) (0 ∷ 1 ∷ 2 ∷ []) [])
send_request_sequential-FirstAnswer_example =
    send_request_sequential-FirstAnswer by_url (0 ∷ 1 ∷ 2 ∷ [])

abbrev http : Http
http = record {
  F = ℕ;
  HttpClient = ℕ;
  SigningKey = ℕ;
  Url = ℕ;
  Json = ℕ;
  to_string = λ e. "failed";
  client_builder = λ timeout. ok 0;
  signing_key_from_str = λ s. ok 0;
  url_parse = λ s. ok 1;
  method_to_string = λ method. ok "moj_getProof";
}

abbrev racer : RequestBuilder http
racer = record {
  client = record {
    client = 0;
    sequencer_urls = [];
    full_node_urls = [];
    prover_urls = 0 ∷ 1 ∷ 2 ∷ [];
    retry_config = patient;
    signing_key = none;
  };
  target_urls = some (0 ∷ 1 ∷ 2 ∷ []);
  strategy = race;
  retry_config = none;
}

abbrev Call : Type 0
Call = List ℕ → Result (Error ℕ) String × List ℕ

-- The requests of a race end in turn, and the first answer that is ok counts.
abbrev pick : Result (Error ℕ) String × List ℕ → Call → Result (Error ℕ) String × List ℕ
pick (ok response, log) more = (ok response, log)
pick (err e, log) more = more log

abbrev first_ok : List Call → Call
first_ok [] log = (err (custom "none"), log)
first_ok (call ∷ calls) log = pick (call log) (first_ok calls)

later_answers :
    (reply : ℕ → Result (Error ℕ) String) (url : ℕ) (urls : List ℕ) (e : Error ℕ)
    (r : Result (Error ℕ) String)
    → reply url ≡ err e
    → Answers http reply urls r
    → Answers http reply (url ∷ urls) r
later_answers reply url urls e (ok response) h (u, there, found) =
    (u, mem-cons_of_mem url there, found)
later_answers reply url urls e (err e') h none_ok = (rw h refl, none_ok)

first_ok_answers :
    (reply : ℕ → Result (Error ℕ) String) (urls log : List ℕ)
    → Answers http reply urls (first_ok (map (contact reply) urls) log).0
first_ok_answers reply [] log = tt
first_ok_answers reply (url ∷ urls) log =
    by_reply (reply url) refl (first_ok_answers reply urls (log ++ url ∷ []))
  where
    by_reply :
        (r : Result (Error ℕ) String)
        → reply url ≡ r
        → Answers http reply urls (first_ok (map (contact reply) urls) (log ++ url ∷ [])).0
        → Answers http reply
            (url ∷ urls)
            (pick (r, log ++ url ∷ []) (first_ok (map (contact reply) urls))).0
    by_reply (ok response) e h = (url, mem-cons_self, e)
    by_reply (err e') e h = later_answers reply url urls e' _ e h

send_rpc_request-Sends_example :
    Sends http first_ok
      (λ e. "All RPC calls failed")
      (λ reply url urls log. first_ok_answers reply (url ∷ urls) log)
      (λ strategy. by_url)
      (some (0 ∷ 1 ∷ 2 ∷ []))
      race
      []
      (send_rpc_request http first_ok
        (λ e. "All RPC calls failed")
        (λ config request. contact by_url)
        (λ request. contact by_url)
        racer
        (record { id = 1; jsonrpc = "2.0"; method = "moj_getProof"; params = none })
        [])
send_rpc_request-Sends_example =
    send_rpc_request-Sends http first_ok (λ e. "All RPC calls failed")
      (λ reply url urls log. first_ok_answers reply (url ∷ urls) log) (λ strategy. by_url) racer
      (record { id = 1; jsonrpc = "2.0"; method = "moj_getProof"; params = none })
