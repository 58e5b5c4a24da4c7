-- ===== src/Tasks/System.antt =====
-- A task with its callers: the handle of crates/task/src/handle.rs sends signals into the channels
-- that the loop of crates/task/src/task_runner.rs takes them from. Any interleaving of callers and of
-- turns of the loop is a list of actions. The channel of requests and that of shutdowns are parameters.
pub mod Order
pub mod Progress
use mojave.Base.{Option, none, some, List, [], ◌∷◌, ◌++◌, String, Result, ok, err}
use mojave.Tasks.{
  Task, RequestSignal, State, request_received, shutdown_received, Status, listening, returned,
  step, started,
}

-- What a receiver finds: nothing yet, no sender any more, or the next message.
pub data Poll (A Channel : Type 0) : Type 0 where
  pending closed : Poll A Channel
  item : A → Channel → Poll A Channel

-- Tokio's `mpsc`: `send` waits for room, and fails where the receiver is gone.
pub record Mpsc (A : Type 0) : Type 1 where
  pub Channel : Type 0
  pub send : A → Channel → Result String (Unit {0}) × Channel
  pub poll : Channel → Poll A Channel
  -- the receiver is dropped
  pub close : Channel → Channel

module _ (trait : Task) (mpsc : Mpsc (RequestSignal trait)) (downs : Mpsc (trait.Sender)) where
  open trait use {Self, Sender}

  -- a caller sends a request or a shutdown, or the loop takes one
  pub data Action : Type 0 where
    ask : RequestSignal trait → Action
    ask_shutdown : Sender → Action
    take_request take_shutdown : Action

  -- `accepted` is what the channel took of the callers' requests, in order: no code reads it.
  pub record System : Type 0 where
    pub requests : mpsc.Channel
    pub shutdowns : downs.Channel
    pub status : Status trait
    pub accepted : List (RequestSignal trait)

  unfoldable pub spawn : mpsc.Channel → downs.Channel → Self → System
  spawn requests shutdowns task = record {
    requests = requests;
    shutdowns = shutdowns;
    status = listening (started trait task);
    accepted = [];
  }

  sent : System → RequestSignal trait → Result String (Unit {0}) × mpsc.Channel → System
  sent s signal (ok _, channel) = record s {
    requests = channel;
    accepted = s.accepted ++ signal ∷ [];
  }
  sent s signal (err error, channel) = record s { requests = channel }

  take_signal : System → State trait → Poll (RequestSignal trait) mpsc.Channel → System
  take_signal s state pending = s
  take_signal s state closed = record s { status = step trait (request_received none) state }
  take_signal s state (item signal channel) = record s {
    requests = channel;
    status = step trait (request_received (some signal)) state;
  }

  take_down : System → State trait → Poll Sender downs.Channel → System
  take_down s state pending = s
  take_down s state closed = record s { status = step trait (shutdown_received none) state }
  take_down s state (item sender channel) = record s {
    requests = mpsc.close s.requests;
    shutdowns = downs.close channel;
    status = step trait (shutdown_received (some sender)) state;
  }

  -- The loop does nothing once it has returned.
  listen : (State trait → System) → System → Status trait → System
  listen turn s (listening state) = turn state
  listen turn s (returned state sender response) = s

  unfoldable pub act : Action → System → System
  unfolding sent take_signal take_down listen
  act (ask signal) s = sent s signal (mpsc.send signal s.requests)
  act (ask_shutdown sender) s = record s { shutdowns = (downs.send sender s.shutdowns).1 }
  act take_request s = listen (λ state. take_signal s state (mpsc.poll s.requests)) s s.status
  act take_shutdown s = listen (λ state. take_down s state (downs.poll s.shutdowns)) s s.status

  unfoldable pub acts : List Action → System → System
  acts [] s = s
  acts (action ∷ actions) s = acts actions (act action s)
