-- ===== src/Prover/Worker.antt =====
-- crates/prover/src/rpc/tasks/proof_worker.rs: one turn of the worker's loop, and the loop.
use Prim.Native.String.{◌++◌ as append}
use mojave.Base.{
  String, Bool, Option, none, some, if◌then◌else◌, Result, ok, err, ◌>>=◌, string_key,
}
use mojave.Base.Collections.{contains, set_insert}
use mojave.Rpc.{RpcErr, internal}
use mojave.Prover.Jobs.{JobRecord, ProofResult, proof, error, ProofResponse, upsert_proof}
use mojave.Prover.Service.{System, MessageKind, ProverRpcContext}

-- `rpc_text` is ethrex's `Display` of an `RpcErr`.
module _ (system : System) (rpc_text : RpcErr → String) where
  open system use {
    F, to_string, Input, Url, BatchProof, Bytes, prove, to_batch_proof, serialize_message, keccak,
    hex, as_bytes, Channel, recv, Publisher, publish,
  }

  unfoldable pub proof_result : Result F BatchProof → ProofResult BatchProof
  proof_result (ok batch_proof) = proof batch_proof
  proof_result (err e) =
      error (rpc_text (internal (append "Error while generate proof: " (to_string e))))

  unfoldable pub respond : Bool → JobRecord Input Url → ProofResponse BatchProof
  unfolding proof_result
  respond aligned_mode job = record {
    job_id = job.job_id;
    batch_number = job.prover_data.batch_number;
    result =
        proof_result (
          prove job.prover_data.input aligned_mode >>= λ output.
          to_batch_proof output aligned_mode);
  }

  abbrev pub msg_id : ProofResponse BatchProof → String
  msg_id proof_response = hex (keccak (as_bytes proof_response.job_id))

  unfoldable pub sent : ProverRpcContext system → Result F Bytes → ProverRpcContext system
  sent ctx (ok bytes) = record ctx { publisher = (publish ctx.publisher bytes).0 }
  sent ctx (err e) = ctx

  unfoldable pub publish_once :
      ProverRpcContext system → ProofResponse BatchProof → ProverRpcContext system
  unfolding sent
  publish_once ctx proof_response =
      if contains (msg_id proof_response) ctx.sent_ids
      then ctx
      else sent (record ctx { sent_ids = (set_insert (msg_id proof_response) ctx.sent_ids).0 })
          (serialize_message (record {
            header = record {
              version = 1;
              kind = MessageKind.proof_response;
              message_id = msg_id proof_response;
              seq = 1;
            };
            body = proof_response;
          }))

  unfoldable pub process : ProverRpcContext system → JobRecord Input Url → ProverRpcContext system
  unfolding publish_once
  process ctx job =
      let proof_response = respond ctx.aligned_mode job in
      publish_once
        (record ctx { job_store = upsert_proof ctx.job_store proof_response.job_id proof_response })
        proof_response

  -- `none` when the channel is closed
  unfoldable pub received :
      ProverRpcContext system
      → Channel × Option (JobRecord Input Url)
      → Option (ProverRpcContext system)
  unfolding process
  received ctx (channel, none) = none
  received ctx (channel, some job) = some (process (record ctx { sender = channel }) job)

  unfoldable pub work : ProverRpcContext system → Option (ProverRpcContext system)
  unfolding received
  work ctx = received ctx (recv ctx.sender)
