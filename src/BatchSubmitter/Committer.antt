-- ===== src/BatchSubmitter/Committer.antt =====
-- crates/batch-submitter/src/committer.rs: each batch is published to the queue and then broadcast to
-- the peers. It is a service that crates/task/src/runner.rs runs. The channel of batches, the queue and
-- the network of peers are a world that the record `Line` acts on.
pub mod Announced
use mojave.Base.{ℕ, zero, suc, ◌/◌, ◌%◌, String, List, [], ◌∷◌, Result, ok, err, map_err}
use mojave.Base.Programs.{Program, pure, lift, converting, ◌>>=◌}
use mojave.BatchSubmitter.{Error, recv_error, bincode_error, msgio_error, p2p_network_error}
use mojave.Prover.Service.{MessageKind, MessageHeader, Message}
use mojave.Tasks.Runner.{Service}

pub record Line : Type 1 where
  pub F : Type 0
  pub Batch : Type 0
  pub Bytes : Type 0
  pub World : Type 0
  pub number : Batch → ℕ
  pub recv : Program World F Batch
  pub compute_keccak : List ℕ → List ℕ
  pub hex_encode : List ℕ → String
  pub serialize : Message Batch → Result F Bytes
  pub publish : Bytes → Program World F (Unit {0})
  pub broadcast_mojave_message : Batch → Program World F (Unit {0})
  -- what is done when `select!` drops a run that waits
  pub interrupt : World → World

-- `u64::to_le_bytes`, as so many bytes
unfoldable pub le_bytes : ℕ → ℕ → List ℕ
le_bytes zero n = []
le_bytes (suc k) n = n % 256 ∷ le_bytes k (n / 256)

module _ (line : Line) where
  open line use {
    F, Batch, Bytes, World, number, recv, compute_keccak, hex_encode, serialize, publish,
    broadcast_mojave_message, interrupt,
  }

  -- nothing is committed yet
  unfoldable pub commit_next_batch_to_l1 : Batch → Program World (Error F) (Unit {0})
  commit_next_batch_to_l1 batch = pure tt

  abbrev pub message : Batch → Message Batch
  message batch = record {
    header = record {
      version = 1;
      kind = MessageKind.batch_submit;
      message_id = hex_encode (compute_keccak (le_bytes 8 (number batch)));
      seq = 1;
    };
    body = batch;
  }

  unfoldable pub run : Program World (Error F) (Unit {0})
  run = do
    batch ← converting recv_error recv
    _ ← commit_next_batch_to_l1 batch
    data_ ← lift (map_err bincode_error (serialize (message batch)))
    _ ← converting msgio_error (publish data_)
    converting p2p_network_error (broadcast_mojave_message batch)

  unfoldable pub shutdown : Program World (Error F) (Unit {0})
  shutdown = pure tt

  abbrev pub service : Service
  service = record {
    Self = World;
    F = Error F;
    run = run;
    interrupt = interrupt;
    shutdown = shutdown;
  }
