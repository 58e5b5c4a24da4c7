-- ===== src/Tasks/Runner.antt =====
-- crates/task/src/runner.rs: a service that runs over and over until a signal, a cancellation or an
-- error stops it.
use mojave.Base.{ℕ, zero, suc, ◌≡◌, refl, Bool, true, List, [], ◌∷◌, Result, ok, err}

-- The trait `Service`. `interrupt` is what a call of `run` has done when `select!` drops it.
pub record Service : Type 1 where
  pub Self : Type 0
  pub F : Type 0
  pub run : Self → Result F (Unit {0}) × Self
  pub interrupt : Self → Self
  pub shutdown : Self → Result F (Unit {0}) × Self

-- Which branch of `select!` is taken. The token is shared, and `cancelled` is taken once somebody has
-- cancelled it.
pub data Event : Type 0 where
  ran shutdown_signal cancelled : Event

module _ (trait : Service) where
  open trait use {Self, F, run, interrupt, shutdown}

  pub record Runner : Type 0 where
    pub service : Self
    pub cancel_token : Bool

  pub data Status : Type 0 where
    running : Runner → Status
    returned : Result F (Unit {0}) → Runner → Status

  unfoldable pub ran_once : Runner → Result F (Unit {0}) × Self → Status
  ran_once self (ok _, service) = running (record self { service = service })
  ran_once self (err error, service) = returned (err error) (record self { service = service })

  unfoldable pub shut : Bool → Result F (Unit {0}) × Self → Status
  shut token (result, service) =
      returned result (record { service = service; cancel_token = token })

  unfoldable pub step : Event → Runner → Status
  unfolding ran_once shut
  step ran self = ran_once self (run self.service)
  step shutdown_signal self = shut true (shutdown (interrupt self.service))
  step cancelled self = shut true (shutdown (interrupt self.service))

  unfoldable pub stepped : Status → Event → Status
  unfolding step
  stepped (running self) event = step event self
  stepped (returned result self) event = returned result self

  unfoldable pub run_until : List Event → Status → Status
  unfolding stepped
  run_until [] status = status
  run_until (event ∷ events) status = run_until events (stepped status event)

  -- A description of the runs alone: the service after so many, or the first error and what is left.
  abbrev pub Runs : Type 0
  Runs = Result (F × Self) Self

  next_run : (Self → Runs) → Result F (Unit {0}) × Self → Runs
  next_run more (ok _, service) = more service
  next_run more (err error, service) = err (error, service)

  unfoldable pub runs : ℕ → Self → Runs
  unfolding next_run
  runs zero service = ok service
  runs (suc n) service = next_run (runs n) (run service)

  -- How many runs end before the first signal or cancellation, and which comes then.
  unfoldable pub runs_before : List Event → ℕ
  runs_before [] = 0
  runs_before (ran ∷ events) = suc (runs_before events)
  runs_before (_ ∷ events) = 0

  unfoldable pub stop_event : List Event → Event
  stop_event [] = ran
  stop_event (ran ∷ events) = stop_event events
  stop_event (event ∷ events) = event

  -- By the event that stops the runner, where no run has failed before.
  abbrev pub stop_at : Bool → Event → Self → Status
  stop_at token ran service = running (record { service = service; cancel_token = token })
  stop_at token shutdown_signal service =
      returned (shutdown (interrupt service)).0
        (record { service = (shutdown (interrupt service)).1; cancel_token = true })
  stop_at token cancelled service =
      returned (shutdown (interrupt service)).0
        (record { service = (shutdown (interrupt service)).1; cancel_token = true })

  abbrev pub outcome : Bool → Event → Runs → Status
  outcome token event (ok service) = stop_at token event service
  outcome token event (err (error, service)) =
      returned (err error) (record { service = service; cancel_token = token })

  run_until-returned :
      (events : List Event) (result : Result F (Unit {0})) (self : Runner)
      → run_until events (returned result self) ≡ returned result self
  unfolding run_until stepped
  run_until-returned [] result self = refl
  run_until-returned (event ∷ events) result self = run_until-returned events result self

  ran_once-outcome :
      (events : List Event) (self : Runner)
      → ((service : Self)
          → run_until events (running (record self { service = service }))
            ≡ outcome self.cancel_token (stop_event events) (runs (runs_before events) service))
      → (r : Result F (Unit {0}) × Self)
      → run_until events (ran_once self r)
        ≡ outcome self.cancel_token (stop_event events) (next_run (runs (runs_before events)) r)
  unfolding ran_once next_run
  ran_once-outcome events self ih (ok _, service) = ih service
  ran_once-outcome events self ih (err error, service) = run_until-returned events (err error) _

  -- The runner runs the service until the first signal or cancellation, and then shuts it down once
  -- and returns what the shutdown returns, with the token cancelled. A run that fails
  -- before ends it with that error, and the service is not shut down. With neither, it runs on.
  pub run_until-outcome :
      (events : List Event) (self : Runner)
      → run_until events (running self)
        ≡ outcome self.cancel_token (stop_event events) (runs (runs_before events) self.service)
  unfolding run_until runs runs_before stop_event stepped step shut ran_once next_run
  run_until-outcome [] self = refl
  run_until-outcome (ran ∷ events) self =
      ran_once-outcome events self
        (λ service. run_until-outcome events (record self { service = service })) (run self.service)
  run_until-outcome (shutdown_signal ∷ events) self = run_until-returned events _ _
  run_until-outcome (cancelled ∷ events) self = run_until-returned events _ _
