-- ===== src/Election.antt =====
-- crates/coordination/src/k8s.rs: this pod holds the lease of the leader or does not, and the leader
-- task runs while it does. The lease, the spawning of the task and the wait for its end are
-- parameters that act on the state of the world; their errors are logged only, except where the
-- lease cannot be acquired. Events come as a list, since `select!` takes them one at a time.
pub mod Leader
pub mod Tasks
mod Tests
use mojave.Base.{
  ℕ, ◌/◌, max, Bool, true, false, not, ◌&&◌, Option, none, some, List, [], ◌∷◌, if◌then◌else◌,
  Result, ok, err,
}

-- `LEASE_TTL_SECONDS`, where it is set to a number, and the interval between renewals
abbrev pub lease_ttl_secs : Option ℕ → ℕ
lease_ttl_secs none = 15
lease_ttl_secs (some secs) = secs

abbrev pub renew_every_secs : Option ℕ → ℕ
renew_every_secs setting = max 1 (lease_ttl_secs setting / 5)

pub data Event : Type 0 where
  shutdown_signal tick : Event

pub record Pod : Type 1 where
  pub F : Type 0
  pub World : Type 0
  -- a cancellation token with the handle of the task that it cancels
  pub LeaderEpoch : Type 0
  pub try_acquire_or_renew : World → Result F Bool × World
  pub spawn_leader_task : World → LeaderEpoch × World
  pub cancel_and_wait : LeaderEpoch → World → World
  pub step_down : World → World

module _ (pod : Pod) where
  open pod use {
    F, World, LeaderEpoch, try_acquire_or_renew, spawn_leader_task, cancel_and_wait, step_down,
  }

  -- the variables of the loop
  pub record State : Type 0 where
    pub am_i_leader : Bool
    pub epoch : Option LeaderEpoch
    pub world : World

  pub data Status : Type 0 where
    running : State → Status
    returned : Result F (Unit {0}) → World → Status

  stop_epoch : Option LeaderEpoch → World → World
  stop_epoch none world = world
  stop_epoch (some epoch) world = cancel_and_wait epoch world

  unfoldable pub shutdown : State → World
  unfolding stop_epoch
  shutdown s =
      let world = stop_epoch s.epoch s.world in if s.am_i_leader then step_down world else world

  lead : LeaderEpoch × World → State
  lead (epoch, world) = record { am_i_leader = true; epoch = some epoch; world = world }

  follow : State → State
  unfolding stop_epoch
  follow s = record {
    am_i_leader = false;
    epoch = none;
    world = step_down (stop_epoch s.epoch s.world);
  }

  -- by whether the lease is held now, and whether it was held before
  changed : State → Bool → Bool → State
  unfolding lead follow
  changed s true true = s
  changed s true false = lead (spawn_leader_task s.world)
  changed s false true = follow s
  changed s false false = s

  renewed : State → Result F Bool × World → Status
  unfolding changed
  renewed s (ok currently_leader, world) =
      running (changed (record s { world = world }) currently_leader s.am_i_leader)
  renewed s (err e, world) = returned (err e) (shutdown (record s { world = world }))

  unfoldable pub step : Event → State → Status
  unfolding renewed
  step shutdown_signal s = returned (ok tt) (shutdown s)
  step tick s = renewed s (try_acquire_or_renew s.world)

  -- Once it has returned, nothing happens any more.
  stepped : Status → Event → Status
  unfolding step
  stepped (running s) event = step event s
  stepped (returned r world) event = returned r world

  unfoldable pub run : List Event → Status → Status
  unfolding stepped
  run [] status = status
  run (event ∷ events) status = run events (stepped status event)

  -- the first attempt, before the loop
  attempted : Result F Bool × World → Status
  unfolding lead
  attempted (ok true, world) = running (lead (spawn_leader_task world))
  attempted (ok false, world) =
      running (record { am_i_leader = false; epoch = none; world = world })
  attempted (err e, world) =
      returned (err e) (shutdown (record { am_i_leader = false; epoch = none; world = world }))

  unfoldable pub run_with_k8s_coordination : List Event → World → Status
  unfolding attempted
  run_with_k8s_coordination events world = run events (attempted (try_acquire_or_renew world))
