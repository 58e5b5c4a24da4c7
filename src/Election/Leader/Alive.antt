-- ===== src/Election/Leader/Alive.antt =====
-- How many leader tasks have not been told to stop.
use mojave.Base.{ℕ, ◌+◌, ◌-◌, ◌≡◌, String, Result, ok, err}
use mojave.Base.Programs.{Keeps}
use mojave.Election.Leader.{Crew, LeaderTasks}

module _ (crew : Crew) where
  open crew use {
    F, World, Batch, Block, Coordinator, Proof, Addr, Health, get_batch_number, spawn_batch,
    spawn_block, spawn_proof, get_http_socket_addr, spawn_health_probe, shutdown_batch,
    shutdown_block, shutdown_proof, await_health, drop_batch, drop_block, drop_proof, cancelled,
  }

  -- A spawn adds a task. A shutdown that returns, with whatever result, and a drop of the handle tell
  -- one to stop. Nothing else starts or stops any.
  pub record Signals : Type 0 where
    pub alive : World → ℕ
    pub spawns_batch : (n k : ℕ) (w : World) → alive (spawn_batch n k w).1 ≡ alive w + 1
    pub spawns_block : (n k : ℕ) (w : World) → alive (spawn_block n k w).1 ≡ alive w + 1
    pub spawns_proof : (c : Coordinator) (w : World) → alive (spawn_proof c w).1 ≡ alive w + 1
    pub stops_batch : (b : Batch) (w : World) → alive (shutdown_batch b w).1 ≡ alive w - 1
    pub stops_block : (b : Block) (w : World) → alive (shutdown_block b w).1 ≡ alive w - 1
    pub stops_proof : (p : Proof) (w : World) → alive (shutdown_proof p w).1 ≡ alive w - 1
    pub drops_batch : (b : Batch) (w : World) → alive (drop_batch b w) ≡ alive w - 1
    pub drops_block : (b : Block) (w : World) → alive (drop_block b w) ≡ alive w - 1
    pub drops_proof : (p : Proof) (w : World) → alive (drop_proof p w) ≡ alive w - 1
    pub reads_number : Keeps alive get_batch_number
    pub resolves : (addr port : String) → Keeps alive (get_http_socket_addr addr port)
    pub probes : (addr : Addr) → Keeps alive (spawn_health_probe addr)
    pub awaits : (health : Health) → Keeps alive (await_health health)
    pub waits : (w : World) → alive (cancelled w) ≡ alive w

  module _ (signals : Signals) where
    open signals use {
      alive, spawns_batch, spawns_block, spawns_proof, stops_batch, stops_block, stops_proof,
      drops_batch, drops_block, drops_proof, reads_number, resolves, probes, awaits, waits,
    }

    -- three tasks more after a start that succeeds, and none after one that fails
    abbrev Starts : ℕ → Result F (LeaderTasks crew) × World → Type 0
    Starts n (ok lt, w) = alive w ≡ n + 3
    Starts n (err e, w) = alive w ≡ n
