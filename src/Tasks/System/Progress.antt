-- ===== src/Tasks/System/Progress.antt =====
-- How many turns of the loop the waiting requests take.
use mojave.Base.{ℕ, zero, suc, ◌≡◌, List, [], ◌∷◌}
use mojave.Tasks.{Task, RequestSignal, State, listening}
use mojave.Tasks.System.{Mpsc, Action, take_request, System}
use mojave.Tasks.System.Order.{IsFifo}

module _ (trait : Task) (mpsc : Mpsc (RequestSignal trait)) (downs : Mpsc (trait.Sender))
    (fifo : IsFifo mpsc) where
  open fifo use {waiting, receives, idles, ends}

  abbrev pub turns : ℕ → List (Action trait mpsc downs)
  turns zero = []
  turns (suc n) = take_request ∷ turns n

  -- the loop listens, and this is what waits
  pub record Listens (s : System trait mpsc downs) (waits : List (RequestSignal trait))
      : Type 0 where
    pub state : State trait
    pub at_ : s.status ≡ listening state
    pub ready : waiting s.requests ≡ waits
