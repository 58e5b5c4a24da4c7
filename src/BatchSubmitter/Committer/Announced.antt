-- ===== src/BatchSubmitter/Committer/Announced.antt =====
-- What the peers hear of, and when.
use mojave.Base.{
  ◌≡◌, refl, sym, ap, subst, ◌∙◌, ◌⊎◌, inl, inr, List, [], ◌∷◌, Result, ok, err, map_err,
}
use mojave.Base.Programs.{pure, lift, converting, ◌>>=◌, and_then, with_error}
use mojave.BatchSubmitter.{Error, recv_error, bincode_error, msgio_error, p2p_network_error}
use mojave.BatchSubmitter.Committer.{Line, message, run, shutdown, commit_next_batch_to_l1, service}
use mojave.Tasks.Runner.{
  Runner, Event, ran, shutdown_signal, cancelled, Status, running, returned, step, stepped,
  ran_once, shut, run_until,
}

module _ (line : Line) where
  open line use {
    F, Batch, Bytes, World, recv, serialize, publish, broadcast_mojave_message, interrupt,
  }

  -- Newest first: what the queue took, and what was sent to the peers.
  pub record Journal : Type 0 where
    pub published : World → List Bytes
    pub announced : World → List Batch
    pub recv_published : (w : World) → published (recv w).1 ≡ published w
    pub recv_announced : (w : World) → announced (recv w).1 ≡ announced w
    pub publishes :
        (d : Bytes) (w w' : World) → publish d w ≡ (ok tt, w') → published w' ≡ d ∷ published w
    pub publishes_not :
        (d : Bytes) (w w' : World) (e : F) → publish d w ≡ (err e, w') → published w' ≡ published w
    pub publish_announced : (d : Bytes) (w : World) → announced (publish d w).1 ≡ announced w
    pub announces :
        (b : Batch) (w w' : World)
        → broadcast_mojave_message b w ≡ (ok tt, w')
        → announced w' ≡ b ∷ announced w
    pub announces_not :
        (b : Batch) (w w' : World) (e : F)
        → broadcast_mojave_message b w ≡ (err e, w')
        → announced w' ≡ announced w
    pub broadcast_published :
        (b : Batch) (w : World) → published (broadcast_mojave_message b w).1 ≡ published w
    pub drops :
        (w : World)
        → (announced (interrupt w) ≡ announced w)
          × ((published (interrupt w) ≡ published w)
              ⊎ ((d : Bytes) × (published (interrupt w) ≡ d ∷ published w)))

  module _ (journal : Journal) where
    open journal use {
      published, announced, recv_published, recv_announced, publishes, publishes_not,
      publish_announced, announces, announces_not, broadcast_published, drops,
    }

    -- each batch with its message
    abbrev pub Matches : List Batch → List Bytes → Type 0
    Matches [] [] = Unit
    Matches (b ∷ bs) (d ∷ ds) = (serialize (message line b) ≡ ok d) × Matches bs ds
    Matches _ _ = ⊥

    -- exactly the batches announced were published, or one message more was
    abbrev pub InStep : World → Type 0
    InStep w = Matches (announced w) (published w)

    abbrev pub AheadBy1 : World → Type 0
    AheadBy1 w = (d : Bytes) × (ds : List Bytes) × (published w ≡ d ∷ ds) × Matches (announced w) ds

    abbrev pub IsOrderly : Status (service line) → Type 0
    IsOrderly (running self) = InStep self.service
    IsOrderly (returned result self) = InStep self.service ⊎ AheadBy1 self.service

    abbrev pub Ends : Result (Error F) (Unit {0}) × World → Type 0
    Ends (ok _, w) = InStep w
    Ends (err e, w) = InStep w ⊎ AheadBy1 w

    InStep-same :
        (w w' : World)
        → announced w' ≡ announced w
        → published w' ≡ published w
        → InStep w
        → InStep w'
    InStep-same w w' a p h =
        subst (λ bs. Matches bs (published w')) (sym a) (subst (Matches (announced w)) (sym p) h)

    broadcast-Ends :
        (b : Batch) (d : Bytes) (ds : List Bytes) (w : World) (r : Result F (Unit {0}) × World)
        → broadcast_mojave_message b w ≡ r
        → serialize (message line b) ≡ ok d
        → published w ≡ d ∷ ds
        → Matches (announced w) ds
        → Ends (with_error p2p_network_error r)
    unfolding with_error
    broadcast-Ends b d ds w (ok tt, w') e s p h =
        rw (announces b w w' e, sym (ap (λ r. published r.1) e) ∙ broadcast_published b w ∙ p)
          (s, h)
    broadcast-Ends b d ds w (err e', w') e s p h = inr (
      d,
      ds,
      sym (ap (λ r. published r.1) e) ∙ broadcast_published b w ∙ p,
      rw (announces_not b w w' e' e) h,
    )

    publish-Ends :
        (b : Batch) (d : Bytes) (w : World) (r : Result F (Unit {0}) × World)
        → publish d w ≡ r
        → serialize (message line b) ≡ ok d
        → InStep w
        → Ends (
            and_then
              (with_error msgio_error r)
              (λ _. converting p2p_network_error (broadcast_mojave_message b)))
    unfolding and_then with_error converting
    publish-Ends b d w (ok tt, w') e s h =
        broadcast-Ends b d (published w) w' (broadcast_mojave_message b w') refl s
          (publishes d w w' e) (rw (sym (ap (λ r. announced r.1) e) ∙ publish_announced d w) h)
    publish-Ends b d w (err e', w') e s h = inl (
        InStep-same w w' (sym (ap (λ r. announced r.1) e) ∙ publish_announced d w)
          (publishes_not d w w' e' e) h)

    serialize-Ends :
        (b : Batch) (w : World) (r : Result F Bytes)
        → serialize (message line b) ≡ r
        → InStep w
        → Ends (
            and_then (lift (map_err bincode_error r) w) (λ d.
              converting msgio_error (publish d) >>= λ _.
              converting p2p_network_error (broadcast_mojave_message b)))
    unfolding and_then lift ◌>>=◌ converting with_error
    serialize-Ends b w (ok d) e h = publish-Ends b d w (publish d w) refl e h
    serialize-Ends b w (err e') e h = inl h

    recv-Ends :
        (r : Result F Batch × World)
        → InStep r.1
        → Ends (
            and_then (with_error recv_error r) (λ b. commit_next_batch_to_l1 line b >>= λ _.
            lift (map_err bincode_error (serialize (message line b))) >>= λ d.
            converting msgio_error (publish d) >>= λ _.
            converting p2p_network_error (broadcast_mojave_message b)))
    unfolding and_then with_error ◌>>=◌ commit_next_batch_to_l1 pure lift
    recv-Ends (ok b, w) h = serialize-Ends b w (serialize (message line b)) refl h
    recv-Ends (err e, w) h = inl h

    run-Ends : (w : World) → InStep w → Ends (run line w)
    unfolding run ◌>>=◌ converting
    run-Ends w h =
        recv-Ends (recv w) (InStep-same w (recv w).1 (recv_announced w) (recv_published w) h)

    ran_once-IsOrderly :
        (self : Runner (service line)) (r : Result (Error F) (Unit {0}) × World)
        → Ends r
        → IsOrderly (ran_once (service line) self r)
    unfolding ran_once
    ran_once-IsOrderly self (ok tt, w) h = h
    ran_once-IsOrderly self (err e, w) h = h

    interrupt-orderly : (w : World) → InStep w → InStep (interrupt w) ⊎ AheadBy1 (interrupt w)
    interrupt-orderly w h =
        let (a, p) = drops w in
        elim p [
          | inl same ↦ inl (InStep-same w (interrupt w) a same h)
          | inr (d, more) ↦ inr (d, published w, more, rw a h)
        ]

    step-IsOrderly :
        (event : Event) (self : Runner (service line))
        → InStep self.service
        → IsOrderly (step (service line) event self)
    unfolding step shut shutdown pure
    step-IsOrderly ran self h =
        ran_once-IsOrderly self (run line self.service) (run-Ends self.service h)
    step-IsOrderly shutdown_signal self h = interrupt-orderly self.service h
    step-IsOrderly cancelled self h = interrupt-orderly self.service h

    stepped-IsOrderly :
        (status : Status (service line)) (event : Event)
        → IsOrderly status
        → IsOrderly (stepped (service line) status event)
    unfolding stepped
    stepped-IsOrderly (running self) event h = step-IsOrderly event self h
    stepped-IsOrderly (returned result self) event h = h

    -- Over a queue and a network that do as they report: whenever the committer runs, the batches
    -- announced to the peers are those whose messages the queue has, in the same order. Once it has
    -- returned, for an error, a signal or a cancellation, the queue may have one message more.
    pub run_until-IsOrderly :
        (events : List Event) (status : Status (service line))
        → IsOrderly status
        → IsOrderly (run_until (service line) events status)
    unfolding run_until
    run_until-IsOrderly [] status h = h
    run_until-IsOrderly (event ∷ events) status h =
        run_until-IsOrderly events (stepped (service line) status event)
          (stepped-IsOrderly status event h)
