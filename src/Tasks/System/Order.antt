-- ===== src/Tasks/System/Order.antt =====
-- The order of the answers, however callers and the loop interleave.
use mojave.Base.{◌≡◌, refl, sym, ap, subst, ◌∙◌, some, List, [], ◌∷◌, ◌++◌, String, Result, ok, err}
use mathlib.Core.List.{append_assoc}
use mojave.Tasks.{
  Task, RequestSignal, State, shutdown_received, Status, listening, returned, finished, answer,
  shut, step, started,
}
use mojave.Tasks.System.{
  Poll, pending, closed, item, Mpsc, Action, ask, ask_shutdown, take_request, take_shutdown, System,
  spawn, sent, take_signal, take_down, listen, act, acts,
}

-- Messages leave a channel in the order in which it accepted them.
pub record IsFifo {A : Type 0} (mpsc : Mpsc A) : Type 0 where
  pub waiting : mpsc.Channel → List A
  pub sends :
      (a : A) (c c' : mpsc.Channel) → mpsc.send a c ≡ (ok tt, c') → waiting c' ≡ waiting c ++ a ∷ []
  pub refuses :
      (a : A) (c c' : mpsc.Channel) (e : String)
      → mpsc.send a c ≡ (err e, c')
      → waiting c' ≡ waiting c
  pub receives :
      (a : A) (c c' : mpsc.Channel) → mpsc.poll c ≡ item a c' → waiting c ≡ a ∷ waiting c'
  pub idles : (c : mpsc.Channel) → mpsc.poll c ≡ pending → waiting c ≡ []
  pub ends : (c : mpsc.Channel) → mpsc.poll c ≡ closed → waiting c ≡ []

module _ (trait : Task) where
  open trait use {
    Self, Request, Response, F, Sender, handle_request, on_request_started, on_request_finished,
    on_shutdown,
  }

  -- One request alone: what it returns, and the task after it.
  abbrev pub turn : Request → Self → Result F Response × Self
  turn request self =
      let r = handle_request request (on_request_started request self) in
      (r.0, on_request_finished r.0 r.1)

  -- The requests one after another: what is sent to whom, and the task after them.
  unfoldable pub replies : List (RequestSignal trait) → Self → List (Sender × Result F Response)
  replies [] self = []
  replies ((request, sender) ∷ signals) self =
      (sender, (turn request self).0) ∷ replies signals (turn request self).1

  unfoldable pub after : List (RequestSignal trait) → Self → Self
  after [] self = self
  after ((request, sender) ∷ signals) self = after signals (turn request self).1

  replies-snoc :
      (signals : List (RequestSignal trait)) (request : Request) (sender : Sender) (self : Self)
      → replies (signals ++ (request, sender) ∷ []) self
        ≡ replies signals self ++ (sender, (turn request (after signals self)).0) ∷ []
  unfolding replies after
  replies-snoc [] request sender self = refl
  replies-snoc ((first, to) ∷ signals) request sender self =
      ap (◌∷◌ (to, (turn first self).0)) (replies-snoc signals request sender (turn first self).1)

  after-snoc :
      (signals : List (RequestSignal trait)) (request : Request) (sender : Sender) (self : Self)
      → after (signals ++ (request, sender) ∷ []) self ≡ (turn request (after signals self)).1
  unfolding after
  after-snoc [] request sender self = refl
  after-snoc ((first, to) ∷ signals) request sender self =
      after-snoc signals request sender (turn first self).1

  -- the state after the signals, from one start
  abbrev pub served : Self → List (RequestSignal trait) → State trait
  served self signals = record { task = after signals self; answers = replies signals self }

  answer-served :
      (self : Self) (signals : List (RequestSignal trait)) (signal : RequestSignal trait)
      → answer trait signal (served self signals) ≡ served self (signals ++ signal ∷ [])
  unfolding answer finished
  answer-served self signals (request, sender) =
      rw (replies-snoc signals request sender self, after-snoc signals request sender self)

  module _ (mpsc : Mpsc (RequestSignal trait)) (downs : Mpsc Sender) (fifo : IsFifo mpsc)
      (self : Self) where
    open fifo use {waiting, sends, refuses, receives}

    -- While the task listens, what it has answered and what waits are what was accepted, in order.
    -- Once it has returned, it had answered a part of that, in order, before it was shut down.
    abbrev pub IsInOrder :
        Status trait → List (RequestSignal trait) → List (RequestSignal trait) → Type 0
    IsInOrder (listening state) accepted waits =
        (done : List (RequestSignal trait)) × (accepted ≡ done ++ waits)
        × (state ≡ served self done)
    IsInOrder (returned state sender response) accepted waits =
        (done : List (RequestSignal trait)) × (lost : List (RequestSignal trait)) × (accepted
          ≡ done ++ lost)
        × (state.answers ≡ replies done self)
        × ((response, state.task) ≡ on_shutdown (after done self))

    abbrev pub SystemIsInOrder : System trait mpsc downs → Type 0
    SystemIsInOrder s = IsInOrder s.status s.accepted (waiting s.requests)

    grown :
        (status : Status trait) (accepted waits waits' : List (RequestSignal trait))
        (signal : RequestSignal trait)
        → waits' ≡ waits ++ signal ∷ []
        → IsInOrder status accepted waits
        → IsInOrder status (accepted ++ signal ∷ []) waits'
    grown (listening state) accepted waits waits' signal e (done, parts, h) =
        (done, rw (parts, e, append_assoc done waits (signal ∷ [])), h)
    grown (returned state sender response) accepted waits waits' signal e
          (done, lost, parts, h, down) =
        (done, lost ++ signal ∷ [], rw (parts, append_assoc done lost (signal ∷ [])), h, down)

    sent-InOrder :
        (s : System trait mpsc downs) (signal : RequestSignal trait)
        (r : Result String (Unit {0}) × mpsc.Channel)
        → mpsc.send signal s.requests ≡ r
        → SystemIsInOrder s
        → SystemIsInOrder (sent trait mpsc downs s signal r)
    unfolding sent
    sent-InOrder s signal (ok tt, channel) e h =
        grown s.status s.accepted (waiting s.requests) (waiting channel) signal
          (sends signal s.requests channel e) h
    sent-InOrder s signal (err error, channel) e h =
        subst (λ w. IsInOrder s.status s.accepted w)
          (sym (refuses signal s.requests channel error e)) h

    answered-InOrder :
        (state : State trait) (accepted waits : List (RequestSignal trait))
        (signal : RequestSignal trait)
        → IsInOrder (listening state) accepted (signal ∷ waits)
        → IsInOrder (listening (answer trait signal state)) accepted waits
    answered-InOrder state accepted waits signal (done, parts, h) = (
      done ++ signal ∷ [],
      parts ∙ sym (append_assoc done (signal ∷ []) waits),
      ap (answer trait signal) h ∙ answer-served self done signal,
    )

    shut-InOrder :
        (state : State trait) (accepted waits waits' : List (RequestSignal trait)) (sender : Sender)
        → IsInOrder (listening state) accepted waits
        → IsInOrder (step trait (shutdown_received (some sender)) state) accepted waits'
    unfolding step shut
    shut-InOrder state accepted waits waits' sender (done, parts, h) =
        (done, waits, parts, ap (λ s. s.answers) h, ap (λ s. on_shutdown s.task) h)

    take_signal-InOrder :
        (s : System trait mpsc downs) (state : State trait)
        (found : Poll (RequestSignal trait) mpsc.Channel)
        → mpsc.poll s.requests ≡ found
        → s.status ≡ listening state
        → SystemIsInOrder s
        → SystemIsInOrder (take_signal trait mpsc downs s state found)
    unfolding take_signal step
    take_signal-InOrder s state pending e at_ h = h
    take_signal-InOrder s state closed e at_ h =
        subst (λ status. IsInOrder status s.accepted (waiting s.requests)) at_ h
    take_signal-InOrder s state (item signal channel) e at_ h =
        answered-InOrder state s.accepted (waiting channel) signal (
          subst (λ w. IsInOrder (listening state) s.accepted w)
            (receives signal s.requests channel e)
            (subst (λ status. IsInOrder status s.accepted (waiting s.requests)) at_ h))

    take_down-InOrder :
        (s : System trait mpsc downs) (state : State trait) (found : Poll Sender downs.Channel)
        → s.status ≡ listening state
        → SystemIsInOrder s
        → SystemIsInOrder (take_down trait mpsc downs s state found)
    unfolding take_down
    take_down-InOrder s state pending at_ h = h
    take_down-InOrder s state closed at_ h =
        unfold step in subst (λ status. IsInOrder status s.accepted (waiting s.requests)) at_ h
    take_down-InOrder s state (item sender channel) at_ h =
        shut-InOrder state s.accepted (waiting s.requests) (waiting (mpsc.close s.requests)) sender
          (subst (λ status. IsInOrder status s.accepted (waiting s.requests)) at_ h)

    listen-InOrder :
        (s : System trait mpsc downs) (turn_of : State trait → System trait mpsc downs)
        (status : Status trait)
        → ((state : State trait) → status ≡ listening state → SystemIsInOrder (turn_of state))
        → SystemIsInOrder s
        → SystemIsInOrder (listen trait mpsc downs turn_of s status)
    unfolding listen
    listen-InOrder s turn_of (listening state) next h = next state refl
    listen-InOrder s turn_of (returned state sender response) next h = h

    act-InOrder :
        (action : Action trait mpsc downs) (s : System trait mpsc downs)
        → SystemIsInOrder s
        → SystemIsInOrder (act trait mpsc downs action s)
    unfolding act
    act-InOrder (ask signal) s h = sent-InOrder s signal (mpsc.send signal s.requests) refl h
    act-InOrder (ask_shutdown sender) s h = h
    act-InOrder take_request s h =
        listen-InOrder s _ s.status
          (λ state at_. take_signal-InOrder s state (mpsc.poll s.requests) refl at_ h) h
    act-InOrder take_shutdown s h =
        listen-InOrder s _ s.status
          (λ state at_. take_down-InOrder s state (downs.poll s.shutdowns) at_ h) h

    pub acts-InOrder :
        (actions : List (Action trait mpsc downs)) (s : System trait mpsc downs)
        → SystemIsInOrder s
        → SystemIsInOrder (acts trait mpsc downs actions s)
    unfolding acts
    acts-InOrder [] s h = h
    acts-InOrder (action ∷ actions) s h =
        acts-InOrder actions (act trait mpsc downs action s) (act-InOrder action s h)

  -- Over a channel that keeps the order, from a task that starts with no request waiting, and in any
  -- interleaving of callers and loop: the answers sent are those of the accepted requests, one after
  -- another in the order of acceptance. While the task listens, the rest waits and none is lost; once
  -- it has returned, what it was shut down with is the task after the answered ones.
  pub acts-spawn-IsInOrder :
      (mpsc : Mpsc (RequestSignal trait)) (downs : Mpsc Sender) (fifo : IsFifo mpsc)
      (requests : mpsc.Channel) (shutdowns : downs.Channel) (self : Self)
      (actions : List (Action trait mpsc downs))
      → fifo.waiting requests ≡ []
      → SystemIsInOrder mpsc downs fifo
          (trait.on_start self).1
          (acts trait mpsc downs actions (spawn trait mpsc downs requests shutdowns self))
  unfolding spawn started replies after
  acts-spawn-IsInOrder mpsc downs fifo requests shutdowns self actions none_yet =
      acts-InOrder mpsc downs fifo (trait.on_start self).1 actions
        (spawn trait mpsc downs requests shutdowns self) ([], sym none_yet, refl)
