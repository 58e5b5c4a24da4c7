-- ===== src/Prover/Requests.antt =====
-- Requests come in and the worker takes turns, in any order.
use mathlib.Core.List.{Perm, map-append, perm_append_singleton}
use mathlib.Core.List.Perm
use mojave.Base.{
  String, false, Option, none, some, List, [], ◌∷◌, map, Result, ok, err, ◌≡◌, refl, sym, ap, subst,
  ◌∙◌, inl, inr, Bool-cases, arith, string_key,
}
use mojave.Rpc.{RpcErr}
use mojave.Prover.Jobs.{
  JobId, ProverData, JobRecord, ProofResponse, default, already_requested, insert_job, upsert_proof,
}
use mojave.Prover.Service.{
  System, ProverRpcContext, calculate_job_id, queued, enqueue_new, enqueue_checked, enqueue_id,
  enqueue_proof_input,
}
use mojave.Prover.Worker.{respond, publish_once, sent, process, received, work}
use mojave.Prover.Channels.{IsFifo, ids}
use mojave.Prover.Consistency.{
  IsConsistent, IsConsistent-of_perm, default-IsConsistent, insert_job-lost, insert_job-queued,
  upsert_proof-IsConsistent,
}

module _ (system : System) (rpc_text : RpcErr → String) where
  open system use {F, Input, Url, BatchProof, Channel, contents, send, recv}

  abbrev pub Agrees : ProverRpcContext system → Type 0
  Agrees ctx = IsConsistent (ids system ctx.sender) ctx.job_store

  queued-Agrees :
      (fifo : IsFifo system) (ctx : ProverRpcContext system) (r : JobRecord Input Url)
      (sent : Channel × Result F (Unit {0}))
      → already_requested ctx.job_store r.job_id ≡ false
      → Agrees ctx
      → send ctx.sender r ≡ sent
      → Agrees
          (queued system
            (record ctx { job_store = insert_job ctx.job_store r.job_id })
            r.job_id
            sent).0
  unfolding queued
  queued-Agrees fifo ctx r (c, ok u) new h s =
      IsConsistent-of_perm
        (Perm.symm (
          subst (λ l. Perm l (r.job_id ∷ ids system ctx.sender))
            (sym (
              ap (map (λ j. j.job_id)) (fifo.sends ctx.sender c r s)
              ∙ map-append (λ j. j.job_id) (contents ctx.sender) (r ∷ [])))
            (perm_append_singleton r.job_id (ids system ctx.sender))))
        (insert_job-queued (ids system ctx.sender) ctx.job_store r.job_id new h)
  queued-Agrees fifo ctx r (c, err e) new h s =
      subst (λ l. IsConsistent l (insert_job ctx.job_store r.job_id))
        (sym (ap (map (λ j. j.job_id)) (fifo.refuses ctx.sender c r e s)))
        (insert_job-lost (ids system ctx.sender) ctx.job_store r.job_id new h)

  enqueue_id-Agrees :
      (fifo : IsFifo system) (ctx : ProverRpcContext system) (prover_data : ProverData Input)
      (url : Url) (id : Result RpcErr JobId)
      → Agrees ctx
      → Agrees (enqueue_id system ctx prover_data url id).0
  unfolding enqueue_id enqueue_checked enqueue_new
  enqueue_id-Agrees fifo ctx prover_data url (err e) h = h
  enqueue_id-Agrees fifo ctx prover_data url (ok k) h =
      elim (Bool-cases (already_requested ctx.job_store k)) [
        | inl known ↦ rw known h
        | inr new ↦ rw new (
            queued-Agrees fifo ctx
              (record { job_id = k; prover_data = prover_data; sequencer_url = url }) _ new h refl)
      ]

  publish_once-keeps :
      (ctx : ProverRpcContext system) (p : ProofResponse BatchProof)
      → ((publish_once system rpc_text ctx p).sender ≡ ctx.sender)
        × ((publish_once system rpc_text ctx p).job_store ≡ ctx.job_store)
        × ((publish_once system rpc_text ctx p).aligned_mode ≡ ctx.aligned_mode)
  unfolding publish_once sent
  publish_once-keeps ctx p = ground arith

  process-Agrees :
      (ctx : ProverRpcContext system) (job : JobRecord Input Url)
      → IsConsistent (job.job_id ∷ ids system ctx.sender) ctx.job_store
      → Agrees (process system rpc_text ctx job)
  unfolding process respond
  process-Agrees ctx job h =
      let p = respond system rpc_text ctx.aligned_mode job in
      let c = record ctx { job_store = upsert_proof ctx.job_store p.job_id p } in
      let keeps = publish_once-keeps c p in
      rw (keeps.0, keeps.1)
        (upsert_proof-IsConsistent (ids system ctx.sender) ctx.job_store job.job_id p refl h)

  -- the context after a turn of the worker, which does nothing on a channel that is empty
  abbrev pub after :
      ProverRpcContext system → Option (ProverRpcContext system) → ProverRpcContext system
  after ctx none = ctx
  after ctx (some ctx') = ctx'

  received-Agrees :
      (fifo : IsFifo system) (ctx : ProverRpcContext system)
      (r : Channel × Option (JobRecord Input Url))
      → recv ctx.sender ≡ r
      → Agrees ctx
      → Agrees (after ctx (received system rpc_text ctx r))
  unfolding received
  received-Agrees fifo ctx (c, none) s h = h
  received-Agrees fifo ctx (c, some job) s h =
      process-Agrees (record ctx { sender = c }) job
        (subst (λ l. IsConsistent l ctx.job_store)
          (ap (map (λ j. j.job_id)) (fifo.receives ctx.sender c job s)) h)

  pub data Op : Type 0 where
    requests : ProverData Input → Url → Op
    works : Op

  abbrev pub apply : Op → ProverRpcContext system → ProverRpcContext system
  apply (requests prover_data url) ctx = (enqueue_proof_input system ctx prover_data url).0
  apply works ctx = after ctx (work system rpc_text ctx)

  unfoldable pub run : List Op → ProverRpcContext system → ProverRpcContext system
  run [] ctx = ctx
  run (op ∷ ops) ctx = run ops (apply op ctx)

  apply-Agrees :
      (fifo : IsFifo system) (op : Op) (ctx : ProverRpcContext system)
      → Agrees ctx
      → Agrees (apply op ctx)
  unfolding enqueue_proof_input work
  apply-Agrees fifo (requests prover_data url) ctx h =
      enqueue_id-Agrees fifo ctx prover_data url (calculate_job_id system prover_data.input) h
  apply-Agrees fifo works ctx h = received-Agrees fifo ctx (recv ctx.sender) refl h

  run-Agrees :
      (fifo : IsFifo system) (ops : List Op) (ctx : ProverRpcContext system)
      → Agrees ctx
      → Agrees (run ops ctx)
  unfolding run
  run-Agrees fifo [] ctx h = h
  run-Agrees fifo (op ∷ ops) ctx h = run-Agrees fifo ops (apply op ctx) (apply-Agrees fifo op ctx h)

  -- From a store and a channel that are empty, any sequence of whole requests and turns of the worker
  -- leaves the queued jobs distinct and all pending, the pending jobs without a proof, and each proof
  -- under the id of its own job.
  pub run-IsConsistent :
      (fifo : IsFifo system) (ops : List Op) (ctx : ProverRpcContext system)
      → contents ctx.sender ≡ []
      → ctx.job_store ≡ default
      → IsConsistent (ids system (run ops ctx).sender) (run ops ctx).job_store
  run-IsConsistent fifo ops ctx empty new =
      run-Agrees fifo ops ctx (rw (ap (map (λ j. j.job_id)) empty, new) default-IsConsistent)
