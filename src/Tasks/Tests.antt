-- ===== src/Tasks/Tests.antt =====
-- The task of the test in crates/task/src/lib.rs, which counts the blocks that it builds, over a
-- channel that is a list; and a service whose third run fails.
use mojave.Base.{ℕ, ◌+◌, ◌≡◌, refl, false, List, [], ◌∷◌, ◌++◌, ok, err, ltb, if◌then◌else◌}
use mojave.Tasks.{Task, returned}
use mojave.Tasks.System.{
  Action, Poll, pending, closed, item, Mpsc, ask, ask_shutdown, take_request, take_shutdown, spawn,
  acts,
}
use mojave.Tasks.System.Order.{IsFifo, SystemIsInOrder, acts-spawn-IsInOrder}
use mojave.Tasks.Runner.{
  Service, running, ran, cancelled, run_until, outcome, stop_event, runs, runs_before,
  run_until-outcome,
}

abbrev toy : Task
toy = record {
  Self = ℕ;
  Request = ℕ;
  Response = ℕ;
  F = ℕ;
  Sender = ℕ;
  on_start = λ n. (ok tt, n);
  handle_request = λ request n. (ok n, n + 1);
  on_request_started = λ request n. n;
  on_request_finished = λ response n. n;
  on_shutdown = λ n. (ok tt, n);
}

module _ {A : Type 0} where
  abbrev head : List A → Poll A (List A)
  head [] = pending
  head (x ∷ xs) = item x xs

  abbrev queue : Mpsc A
  queue = record {
    Channel = List A;
    send = λ a c. (ok tt, c ++ a ∷ []);
    poll = head;
    close = λ c. c;
  }

  head-receives : (a : A) (c c' : List A) → head c ≡ item a c' → c ≡ a ∷ c'
  head-receives a [] c' h = cc h
  head-receives a (x ∷ c) c' h = cc h

  head-idles : (c : List A) → head c ≡ pending → c ≡ []
  head-idles [] h = refl
  head-idles (x ∷ c) h = cc h

  head-ends : (c : List A) → head c ≡ closed → c ≡ []
  head-ends [] h = refl
  head-ends (x ∷ c) h = cc h

  abbrev queue_fifo : IsFifo queue
  queue_fifo = record {
    waiting = λ c. c;
    sends = λ a c c' h. cc h;
    refuses = λ a c c' e h. cc h;
    receives = head-receives;
    idles = head-idles;
    ends = head-ends;
  }

abbrev calls : List (Action toy queue queue)
calls = ask (5, 0) ∷ ask (6, 1) ∷ take_request ∷ ask (7, 2) ∷ []

acts-spawn-IsInOrder_example : SystemIsInOrder toy queue queue queue_fifo 0 (
    acts toy queue queue
      (calls ++ ask_shutdown 9 ∷ take_shutdown ∷ [])
      (spawn toy queue queue [] [] 0))
acts-spawn-IsInOrder_example =
    acts-spawn-IsInOrder toy queue queue queue_fifo [] [] 0
      (calls ++ ask_shutdown 9 ∷ take_shutdown ∷ []) refl

abbrev flaky : Service
flaky = record {
  Self = ℕ;
  F = ℕ;
  run = λ n. if ltb n 2 then (ok tt, n + 1) else (err n, n);
  interrupt = λ n. n;
  shutdown = λ n. (ok tt, n + 10);
}

run_until-outcome_example :
    run_until flaky
      (ran ∷ ran ∷ cancelled ∷ ran ∷ [])
      (running (record { service = 0; cancel_token = false }))
    ≡ outcome flaky false
        (stop_event flaky (ran ∷ ran ∷ cancelled ∷ ran ∷ []))
        (runs flaky (runs_before flaky (ran ∷ ran ∷ cancelled ∷ ran ∷ [])) 0)
run_until-outcome_example = run_until-outcome flaky _ (record { service = 0; cancel_token = false })
