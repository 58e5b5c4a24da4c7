-- ===== src/Tasks/Handle.antt =====
-- crates/task/src/handle.rs, and the periodic caller of traits.rs: what a caller gets back.
use mojave.Base.{ℕ, zero, suc, String, Result, ok, err, map_err}

pub data Error (F Closed : Type 0) : Type 0 where
  send : String → Error F Closed
  receive : Closed → Error F Closed
  task : F → Error F Closed

module _ {F Closed A : Type 0} where
  -- the end of `request` and of `shutdown`, by what the oneshot receiver returns
  received : Result Closed (Result F A) → Result (Error F Closed) A
  received (err closed) = err (receive closed)
  received (ok answered) = map_err task answered

  -- `request` and `shutdown`: by what the channel says to the signal, and by what comes back.
  unfoldable pub call :
      {W : Type 0}
      → (W → Result String (Unit {0}) × W)
      → (W → Result Closed (Result F A) × W)
      → W
      → Result (Error F Closed) A × W
  unfolding received
  call send_signal await_answer w = elim (send_signal w).0 [
    | err closed ↦ (err (send closed), (send_signal w).1)
    | ok _ ↦ (received (await_answer (send_signal w).1).0, (await_answer (send_signal w).1).1)
  ]

module _ {W Request : Type 0} (tick : W → W) (make_request : W → Request × W)
    (submit : Request → W → Result String (Unit {0}) × W) (await_answer : W → W) where
  after_submit : (W → W) → Result String (Unit {0}) × W → W
  after_submit again (err closed, w) = w
  after_submit again (ok _, w) = again (await_answer w)

  -- The loop of `spawn_with_capacity_periodic` for so many ticks: it ends when a send fails.
  unfoldable pub periodic : ℕ → W → W
  unfolding after_submit
  periodic zero w = w
  periodic (suc ticks) w =
      let (request, w') = make_request (tick w) in after_submit (periodic ticks) (submit request w')
