-- ===== src/Election/Tasks.antt =====
-- Which leader tasks are alive. A task may end by itself at any time.
use mojave.Base.{
  ◌≡◌, ◌≢◌, ◌⊎◌, inl, inr, refl, sym, ◌∙◌, Bool, true, false, Option, none, some, List, [], ◌∷◌,
  if◌then◌else◌, Result, ok, err,
}
use mojave.Election.{
  Event, shutdown_signal, tick, Pod, State, Status, running, returned, stop_epoch, shutdown, lead,
  follow, changed, renewed, step, stepped, run, attempted, run_with_k8s_coordination,
}

module _ (pod : Pod) where
  open pod use {
    F, World, LeaderEpoch, try_acquire_or_renew, spawn_leader_task, cancel_and_wait, step_down,
  }

  -- Of the calls, a spawn alone starts a task, and after the wait for a cancelled one it is over. Any
  -- task may end by itself meanwhile.
  pub record Lives : Type 1 where
    pub alive : LeaderEpoch → World → Type 0
    pub spawns :
        (e : LeaderEpoch) (w : World)
        → alive e (spawn_leader_task w).1
        → (e ≡ (spawn_leader_task w).0) ⊎ alive e w
    pub waits :
        (e f : LeaderEpoch) (w : World) → alive e (cancel_and_wait f w) → alive e w × (e ≢ f)
    pub leaves : (e : LeaderEpoch) (w : World) → alive e (step_down w) → alive e w
    pub tries : (e : LeaderEpoch) (w : World) → alive e (try_acquire_or_renew w).1 → alive e w

  module _ (lives : Lives) where
    open lives use {alive}

    -- no task but that of the epoch, where there is one
    abbrev Within : Option LeaderEpoch → World → Type 0
    Within none w = (e : LeaderEpoch) → alive e w → ⊥
    Within (some epoch) w = (e : LeaderEpoch) → alive e w → e ≡ epoch

    abbrev pub leading : Option LeaderEpoch → Bool
    leading none = false
    leading (some epoch) = true

    -- While the loop runs, the pod leads just when it has an epoch, and no task but that of the epoch
    -- is alive; after the return none is.
    abbrev pub IsSingle : Status pod → Type 0
    IsSingle (running s) = (s.am_i_leader ≡ leading s.epoch) × Within s.epoch s.world
    IsSingle (returned r world) = (e : LeaderEpoch) → alive e world → ⊥

    stop_epoch-Within :
        (epoch : Option LeaderEpoch) (w : World)
        → Within epoch w
        → Within none (stop_epoch pod epoch w)
    unfolding stop_epoch
    stop_epoch-Within none w h = h
    stop_epoch-Within (some epoch) w h =
        λ e a. let (before, other) = lives.waits e epoch w a in other (h e before)

    if-Within : (b : Bool) (w : World) → Within none w → Within none (if b then step_down w else w)
    if-Within true w h = λ e a. h e (lives.leaves e w a)
    if-Within false w h = h

    shutdown-Within : (s : State pod) → Within s.epoch s.world → Within none (shutdown pod s)
    unfolding shutdown
    shutdown-Within s h =
        if-Within s.am_i_leader (stop_epoch pod s.epoch s.world)
          (stop_epoch-Within s.epoch s.world h)

    tried-Within :
        (epoch : Option LeaderEpoch) (w : World)
        → Within epoch w
        → Within epoch (try_acquire_or_renew w).1
    tried-Within none w h = λ e a. h e (lives.tries e w a)
    tried-Within (some epoch) w h = λ e a. h e (lives.tries e w a)

    lead-IsSingle :
        (w : World) → Within none w → IsSingle (running (lead pod (spawn_leader_task w)))
    unfolding lead
    lead-IsSingle w h =
        (refl, λ e a. elim (lives.spawns e w a) [ inl new ↦ new | inr old ↦ absurd (h e old) ])

    none_held :
        (epoch : Option LeaderEpoch) (w : World)
        → false ≡ leading epoch
        → Within epoch w
        → Within none w
    none_held none w leads h = h
    none_held (some epoch) w leads h = cc leads

    changed-IsSingle :
        (s : State pod) (now before : Bool)
        → s.am_i_leader ≡ before
        → IsSingle (running s)
        → IsSingle (running (changed pod s now before))
    unfolding changed follow
    changed-IsSingle s true true b h = h
    changed-IsSingle s true false b (leads, h) =
        lead-IsSingle s.world (none_held s.epoch s.world (sym b ∙ leads) h)
    changed-IsSingle s false true b (leads, h) =
        (refl, λ e a. stop_epoch-Within s.epoch s.world h e (lives.leaves e _ a))
    changed-IsSingle s false false b h = h

    renewed-IsSingle :
        (s : State pod) (r : Result F Bool × World)
        → s.am_i_leader ≡ leading s.epoch
        → Within s.epoch r.1
        → IsSingle (renewed pod s r)
    unfolding renewed
    renewed-IsSingle s (ok now, w) leads h =
        changed-IsSingle (record s { world = w }) now s.am_i_leader refl (leads, h)
    renewed-IsSingle s (err f, w) leads h = shutdown-Within (record s { world = w }) h

    stepped-IsSingle :
        (status : Status pod) (event : Event)
        → IsSingle status
        → IsSingle (stepped pod status event)
    unfolding stepped step
    stepped-IsSingle (running s) shutdown_signal (leads, h) = shutdown-Within s h
    stepped-IsSingle (running s) tick (leads, h) =
        renewed-IsSingle s (try_acquire_or_renew s.world) leads (tried-Within s.epoch s.world h)
    stepped-IsSingle (returned r w) event h = h

    run-IsSingle :
        (events : List Event) (status : Status pod)
        → IsSingle status
        → IsSingle (run pod events status)
    unfolding run
    run-IsSingle [] status h = h
    run-IsSingle (event ∷ events) status h =
        run-IsSingle events (stepped pod status event) (stepped-IsSingle status event h)

    attempted-IsSingle : (r : Result F Bool × World) → Within none r.1 → IsSingle (attempted pod r)
    unfolding attempted
    attempted-IsSingle (ok true, w) h = lead-IsSingle w h
    attempted-IsSingle (ok false, w) h = (refl, h)
    attempted-IsSingle (err e, w) h =
        shutdown-Within (record { am_i_leader = false; epoch = none; world = w }) h

    -- From a world without a leader task, through any sequence of renewals and signals, and also where
    -- leader tasks end by themselves: no task is alive but the one that the pod spawned when it last
    -- became the leader, and that one only while the pod is the leader; when the coordination returns,
    -- after a signal or an error of the lease, none is.
    pub run_with_k8s_coordination-IsSingle :
        (events : List Event) (world : World)
        → ((e : LeaderEpoch) → alive e world → ⊥)
        → IsSingle (run_with_k8s_coordination pod events world)
    unfolding run_with_k8s_coordination
    run_with_k8s_coordination-IsSingle events world h =
        run-IsSingle events (attempted pod (try_acquire_or_renew world))
          (attempted-IsSingle (try_acquire_or_renew world) (tried-Within none world h))
