-- ===== src/Tasks.antt =====
-- crates/task/src/: a task that answers requests one after another (task_runner.rs, traits.rs), the
-- handle that its callers hold (handle.rs), and the runner of a service (runner.rs). `select!` takes
-- one event at a time. Tokio's channels are parameters; a sender of a oneshot channel is a value, and
-- what was sent over it is recorded. Logging is left out.
pub mod Handle
pub mod Runner
pub mod System
mod Tests
use mojave.Base.{ℕ, Option, none, some, List, [], ◌∷◌, ◌++◌, Result, ok, err}

-- `DEFAULT_TASK_CAPACITY`
abbrev pub default_task_capacity : ℕ
default_task_capacity = 64

-- The trait `Task`: its methods act on the task itself.
pub record Task : Type 1 where
  pub Self : Type 0
  pub Request : Type 0
  pub Response : Type 0
  pub F : Type 0
  -- the sending half of a oneshot channel
  pub Sender : Type 0
  pub on_start : Self → Result F (Unit {0}) × Self
  pub handle_request : Request → Self → Result F Response × Self
  pub on_request_started : Request → Self → Self
  pub on_request_finished : Result F Response → Self → Self
  pub on_shutdown : Self → Result F (Unit {0}) × Self

module _ (trait : Task) where
  open trait use {
    Self, Request, Response, F, Sender, on_start, handle_request, on_request_started,
    on_request_finished, on_shutdown,
  }

  -- `RequestSignal` and `ShutdownSignal`
  abbrev pub RequestSignal : Type 0
  RequestSignal = Request × Sender

  -- What `select!` takes: what one of the two receivers returns, which is none where it is closed.
  pub data Event : Type 0 where
    request_received : Option RequestSignal → Event
    shutdown_received : Option Sender → Event

  -- the task, and what was sent over the oneshot channels
  pub record State : Type 0 where
    pub task : Self
    pub answers : List (Sender × Result F Response)

  pub data Status : Type 0 where
    listening : State → Status
    returned : State → Sender → Result F (Unit {0}) → Status

  finished : State → Sender → Result F Response × Self → State
  finished s sender (response, task) = record {
    task = on_request_finished response task;
    answers = s.answers ++ (sender, response) ∷ [];
  }

  unfoldable pub answer : RequestSignal → State → State
  unfolding finished
  answer (request, sender) s =
      finished s sender (handle_request request (on_request_started request s.task))

  shut : State → Sender → Result F (Unit {0}) × Self → Status
  shut s sender (response, task) = returned (record s { task = task }) sender response

  -- one turn of the loop
  unfoldable pub step : Event → State → Status
  unfolding shut
  step (request_received (some signal)) s = listening (answer signal s)
  step (request_received none) s = listening s
  step (shutdown_received (some sender)) s = shut s sender (on_shutdown s.task)
  step (shutdown_received none) s = listening s

  -- An error of `on_start` is logged only.
  unfoldable pub started : Self → State
  started task = record { task = (on_start task).1; answers = [] }
