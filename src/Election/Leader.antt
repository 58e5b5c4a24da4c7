-- ===== src/Election/Leader.antt =====
-- crates/coordination/src/sequencer.rs and utils.rs: the tasks that a leader starts and stops, and how a
-- sequencer runs them. Starting and stopping a task, the stores and the health probe act on the state of
-- the world, in the record `Crew`. Dropping the handle of a task sends it a shutdown.
pub mod Alive
use mojave.Base.{ℕ, String, Bool, true, false, Option, none, some, Result, ok, err}
use mojave.Base.Programs.{Program, pure, lift, reads, ◌>>=◌}

pub data CoordinationMode : Type 0 where
  kubernetes standalone : CoordinationMode

-- by whether `KUBERNETES_SERVICE_HOST` is set
unfoldable pub detect_coordination_mode : Option String → CoordinationMode
detect_coordination_mode (some host) = kubernetes
detect_coordination_mode none = standalone

unfoldable pub is_k8s_env : Option String → Bool
unfolding detect_coordination_mode
is_k8s_env setting = elim (detect_coordination_mode setting) [
  | kubernetes ↦ true
  | standalone ↦ false
]

-- `BLOCK_PRODUCER_CAPACITY`, and the milliseconds between batches
abbrev pub block_producer_capacity : ℕ
block_producer_capacity = 100

abbrev pub batch_every_millis : ℕ
batch_every_millis = 100000

pub record Crew : Type 1 where
  pub F : Type 0
  pub World : Type 0
  pub Batch : Type 0
  pub Block : Type 0
  pub Coordinator : Type 0
  pub Proof : Type 0
  pub Addr : Type 0
  pub Health : Type 0
  pub get_batch_number : Program World F (Option ℕ)
  pub new_coordinator : Result F Coordinator
  -- with the number of the last batch and the interval
  pub spawn_batch : ℕ → ℕ → World → Batch × World
  -- with the capacity and the interval
  pub spawn_block : ℕ → ℕ → World → Block × World
  pub spawn_proof : Coordinator → World → Proof × World
  pub get_http_socket_addr : String → String → Program World F Addr
  pub spawn_health_probe : Addr → Program World F Health
  pub shutdown_batch : Batch → Program World F (Unit {0})
  pub shutdown_block : Block → Program World F (Unit {0})
  pub shutdown_proof : Proof → Program World F (Unit {0})
  pub await_health : Health → Program World F (Unit {0})
  pub drop_batch : Batch → World → World
  pub drop_block : Block → World → World
  pub drop_proof : Proof → World → World
  -- the wait for the cancellation
  pub cancelled : World → World
  pub store_node_config : World → World

module _ (crew : Crew) where
  open crew use {
    F, World, Batch, Block, Coordinator, Proof, Addr, Health, get_batch_number, new_coordinator,
    spawn_batch, spawn_block, spawn_proof, get_http_socket_addr, spawn_health_probe, shutdown_batch,
    shutdown_block, shutdown_proof, await_health, drop_batch, drop_block, drop_proof, cancelled,
    store_node_config,
  }

  pub record LeaderTasks : Type 0 where
    pub batch : Batch
    pub block : Block
    pub proof : Proof
    pub health : Health

  abbrev pub unwrap_or_0 : Option ℕ → ℕ
  unwrap_or_0 none = 0
  unwrap_or_0 (some n) = n

  -- An error after the tasks are spawned drops their handles, the last one first.
  unfoldable pub with_health :
      Batch → Block → Proof → Result F Health × World → Result F LeaderTasks × World
  with_health batch block proof (ok health, world) =
      (ok (record { batch = batch; block = block; proof = proof; health = health }), world)
  with_health batch block proof (err e, world) =
      (err e, drop_batch batch (drop_block block (drop_proof proof world)))

  -- from the spawning on
  unfoldable pub spawn_all :
      ℕ → ℕ → String → String → Coordinator → World → Result F LeaderTasks × World
  unfolding with_health
  spawn_all batch_counter block_time health_addr health_port coordinator world =
      let (batch, w1) = spawn_batch batch_counter batch_every_millis world in
      let (block, w2) = spawn_block block_producer_capacity block_time w1 in
      let (proof, w3) = spawn_proof coordinator w2 in
      with_health batch block proof
        ((get_http_socket_addr health_addr health_port >>= λ addr. spawn_health_probe addr) w3)

  unfoldable pub start_leader_tasks : ℕ → String → String → Program World F LeaderTasks
  start_leader_tasks block_time health_addr health_port = do
    batch_number ← get_batch_number
    coordinator ← lift new_coordinator
    spawn_all (unwrap_or_0 batch_number) block_time health_addr health_port coordinator

  -- After an error, what is not yet shut down is dropped. A handle of the health probe is detached.
  unfoldable pub stop_proof :
      Proof → Health → Result F (Unit {0}) × World → Result F (Unit {0}) × World
  stop_proof proof health (ok _, world) = (shutdown_proof proof >>= λ _. await_health health) world
  stop_proof proof health (err e, world) = (err e, drop_proof proof world)

  unfoldable pub stop_block :
      Block → Proof → Health → Result F (Unit {0}) × World → Result F (Unit {0}) × World
  unfolding stop_proof
  stop_block block proof health (ok _, world) = stop_proof proof health (shutdown_block block world)
  stop_block block proof health (err e, world) = (err e, drop_block block (drop_proof proof world))

  unfoldable pub stop_leader_tasks : LeaderTasks → Program World F (Unit {0})
  unfolding stop_block
  stop_leader_tasks lt world =
      stop_block lt.block lt.proof lt.health (shutdown_batch lt.batch world)

  unfoldable pub run_sequencer_leader_task : ℕ → String → String → Program World F (Unit {0})
  run_sequencer_leader_task block_time health_addr health_port = do
    leader_tasks ← start_leader_tasks block_time health_addr health_port
    λ world. stop_leader_tasks leader_tasks (cancelled world)

  -- `run_sequencer` on its own, where the wait ends by a signal or by the task itself: the
  -- configuration is stored only when no task has failed.
  finished : Result F (Unit {0}) × World → Result F (Unit {0}) × World
  finished (ok _, world) = (ok tt, store_node_config world)
  finished (err e, world) = (err e, world)

  unfoldable pub run_sequencer :
      (World → Result F (Unit {0}) × World)
      → Option String
      → ℕ
      → String
      → String
      → Program World F (Unit {0})
  unfolding finished
  run_sequencer run_with_k8s_coordination setting block_time health_addr health_port world =
      elim (is_k8s_env setting) [
        | true ↦ finished (run_with_k8s_coordination world)
        | false ↦ finished (run_sequencer_leader_task block_time health_addr health_port world)
      ]
