-- ===== src/Prover/Service.antt =====
-- crates/prover/src/services/jobs.rs, the context of crates/prover/src/rpc/context.rs and the handlers
-- of crates/prover/src/rpc/handlers.rs. `System` is what they and the worker call of other crates: the
-- channel of jobs, the prover, the codecs, the hash and the publisher.
use Prim.Native.String.{◌++◌ as append, compare}
use Prim.Native.Nat.{Ordering}
use mojave.Base.{
  ℕ, String, Bool, true, false, Option, List, [], ◌∷◌, map, Result, ok, err, ◌>>=◌, map_err, ok_or,
}
use mojave.Rpc.{RpcErr, bad_params, internal}
use mojave.Prover.Jobs.{
  JobId, ProverData, ProofResponse, JobRecord, JobStore, already_requested, insert_job,
  get_pending_jobs, get_proof_by_id,
}

pub data MessageKind : Type 0 where
  proof_response batch_submit : MessageKind

pub record MessageHeader : Type 0 where
  pub version : ℕ
  pub kind : MessageKind
  pub message_id : String
  pub seq : ℕ

pub record Message (T : Type 0) : Type 0 where
  pub header : MessageHeader
  pub body : T

pub record System : Type 1 where
  pub F : Type 0
  pub to_string : F → String
  pub Block : Type 0
  pub Input : Type 0
  pub Url : Type 0
  pub Output : Type 0
  pub BatchProof : Type 0
  pub Bytes : Type 0
  pub blocks : Input → List Block
  -- `b.hash().to_string()`
  pub hash : Block → String
  pub serialize_hashes : List String → Result F Bytes
  pub serialize_message : Message (ProofResponse BatchProof) → Result F Bytes
  -- Keccak-256 of `tiny_keccak`, and `hex::encode`
  pub keccak : Bytes → Bytes
  pub hex : Bytes → String
  pub as_bytes : String → Bytes
  pub prove : Input → Bool → Result F Output
  pub to_batch_proof : Output → Bool → Result F BatchProof
  -- tokio's `mpsc` channel, with the jobs that are in it: the first is the next to be received
  pub Channel : Type 0
  pub contents : Channel → List (JobRecord Input Url)
  pub send : Channel → JobRecord Input Url → Channel × Result F (Unit {0})
  pub recv : Channel → Channel × Option (JobRecord Input Url)
  pub Publisher : Type 0
  pub publish : Publisher → Bytes → Publisher × Result F (Unit {0})

unfoldable pub insert : String → List String → List String
insert x [] = x ∷ []
insert x (y ∷ ys) =
    let rest = insert x ys in elim (compare x y) [ Ordering.gt ↦ y ∷ rest | _ ↦ x ∷ y ∷ ys ]

-- `slice::sort_unstable` on texts, where equal ones cannot be told apart
unfoldable pub sort_unstable : List String → List String
unfolding insert
sort_unstable [] = []
sort_unstable (x ∷ xs) = insert x (sort_unstable xs)

module _ (system : System) where
  open system use {
    F, to_string, Input, Url, BatchProof, Bytes, blocks, hash, serialize_hashes, keccak, hex,
    Channel, send, Publisher,
  }

  pub record ProverRpcContext : Type 0 where
    pub aligned_mode : Bool
    pub job_store : JobStore BatchProof
    pub sender : Channel
    pub publisher : Publisher
    pub sent_ids : List String

  serialization_error : F → RpcErr
  serialization_error e = internal (append "Error to serialize program input: " (to_string e))

  unfoldable pub calculate_job_id : Input → Result RpcErr JobId
  unfolding serialization_error
  calculate_job_id prover_input = do
    serialized ←
        map_err serialization_error
          (serialize_hashes (sort_unstable (map hash (blocks prover_input))))
    ok (hex (keccak serialized))

  unfoldable pub channel_error : F → RpcErr
  channel_error e = internal (append "Error sending job to channel: " (to_string e))

  -- after the send, by its result
  unfoldable pub queued :
      ProverRpcContext
      → JobId
      → Channel × Result F (Unit {0})
      → ProverRpcContext × Result RpcErr JobId
  unfolding channel_error
  queued ctx job_id (sender, ok _) = (record ctx { sender = sender }, ok job_id)
  queued ctx job_id (sender, err e) = (record ctx { sender = sender }, err (channel_error e))

  unfoldable pub enqueue_new :
      ProverRpcContext → ProverData Input → Url → JobId → ProverRpcContext × Result RpcErr JobId
  unfolding queued
  enqueue_new ctx prover_data sequencer_addr job_id =
      queued (record ctx { job_store = insert_job ctx.job_store job_id }) job_id
        (send ctx.sender
          (record { job_id = job_id; prover_data = prover_data; sequencer_url = sequencer_addr }))

  -- by the answer of `already_requested`
  unfoldable pub enqueue_checked :
      ProverRpcContext
      → ProverData Input
      → Url
      → JobId
      → Bool
      → ProverRpcContext × Result RpcErr JobId
  unfolding enqueue_new
  enqueue_checked ctx prover_data sequencer_addr job_id true =
      (ctx, err (bad_params "This batch already requested"))
  enqueue_checked ctx prover_data sequencer_addr job_id false =
      enqueue_new ctx prover_data sequencer_addr job_id

  unfoldable pub enqueue_id :
      ProverRpcContext
      → ProverData Input
      → Url
      → Result RpcErr JobId
      → ProverRpcContext × Result RpcErr JobId
  unfolding enqueue_checked
  enqueue_id ctx prover_data sequencer_addr (err e) = (ctx, err e)
  enqueue_id ctx prover_data sequencer_addr (ok job_id) =
      enqueue_checked ctx prover_data sequencer_addr job_id (already_requested ctx.job_store job_id)

  unfoldable pub enqueue_proof_input :
      ProverRpcContext → ProverData Input → Url → ProverRpcContext × Result RpcErr JobId
  unfolding enqueue_id
  enqueue_proof_input ctx prover_data sequencer_addr =
      enqueue_id ctx prover_data sequencer_addr (calculate_job_id prover_data.input)

  abbrev pub get_pending_job_ids : ProverRpcContext → Result RpcErr (List JobId)
  get_pending_job_ids ctx = ok (get_pending_jobs ctx.job_store)

  unfoldable pub get_proof : ProverRpcContext → JobId → Result RpcErr (ProofResponse BatchProof)
  get_proof ctx job_id =
      ok_or (get_proof_by_id ctx.job_store job_id)
        (internal (append "No proof exist with job id " job_id))
