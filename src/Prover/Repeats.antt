-- ===== src/Prover/Repeats.antt =====
-- What a request for a proof returns, and what a second one does.
use mojave.Base.{
  Option, some, none, if◌then◌else◌, Bool-cases, Bool, true, false, [], ◌∷◌, ◌++◌, Result, ok, err,
  ◌≡◌, refl, ap, ◌∙◌, ◌⊎◌, inl, inr, string_key,
}
use mojave.Base.Collections.{contains, get, contains-set_insert}
use mojave.Rpc.{RpcErr, bad_params}
use mojave.Prover.Jobs.{
  JobId, ProverData, ProofResponse, is_some, JobStore, already_requested, insert_job,
}
use mojave.Prover.Service.{
  System, ProverRpcContext, calculate_job_id, channel_error, queued, enqueue_new, enqueue_checked,
  enqueue_id, enqueue_proof_input,
}
use mojave.Prover.Channels.{IsFifo}

insert_job-already_requested :
    {BatchProof : Type 0} (store : JobStore BatchProof) (k : JobId)
    → already_requested (insert_job store k) k ≡ true
unfolding already_requested insert_job
insert_job-already_requested store k =
    rw (contains-set_insert k k store.pending, (string_key.same_iff k k).1 refl) refl

module _ (system : System) where
  open system use {F, Input, Url, BatchProof, Channel, contents, send}

  -- A job that is pending, or that has a proof, and one that neither is nor has.
  abbrev pub Known : JobStore BatchProof → JobId → Type 0
  Known store k =
      (contains k store.pending ≡ true)
      ⊎ ((p : ProofResponse BatchProof) × (get k store.proofs ≡ some p))

  abbrev pub Fresh : JobStore BatchProof → JobId → Type 0
  Fresh store k = (contains k store.pending ≡ false) × (get k store.proofs ≡ none)

  -- The job becomes pending, every other one stays as it was, and no proof changes.
  abbrev pub Marked : JobStore BatchProof → JobId → JobStore BatchProof → Type 0
  Marked store k store' =
      ((j : JobId)
        → contains j store'.pending
          ≡ (if string_key.same k j then true else contains j store.pending))
      × (store'.proofs ≡ store.proofs)

  -- what a request returns and leaves behind, by the job id of its input
  abbrev pub Enqueues :
      ProverRpcContext system
      → ProverData Input
      → Url
      → Result RpcErr JobId
      → ProverRpcContext system × Result RpcErr JobId
      → Type 0
  Enqueues ctx prover_data url (err e) r = r ≡ (ctx, err e)
  Enqueues ctx prover_data url (ok k) r =
      (Known ctx.job_store k × (r ≡ (ctx, err (bad_params "This batch already requested"))))
      ⊎ (Fresh ctx.job_store k
          × Marked ctx.job_store k r.0.job_store
          × (((r.1 ≡ ok k)
                × (contents r.0.sender
                    ≡ contents ctx.sender
                      ++ record { job_id = k; prover_data = prover_data; sequencer_url = url }
                        ∷ []))
              ⊎ ((e : F) × (r.1 ≡ err (channel_error system e))
                  × (contents r.0.sender ≡ contents ctx.sender))))

  already_requested-Known :
      (store : JobStore BatchProof) (k : JobId) → already_requested store k ≡ true → Known store k
  unfolding already_requested is_some
  already_requested-Known store k h = elim (Bool-cases (contains k store.pending)) [
    | inl there ↦ inl there
    | inr away ↦ inr (stored (get k store.proofs) (rw away at h))
  ]
    where
      stored :
          (o : Option (ProofResponse BatchProof))
          → is_some o ≡ true
          → (p : ProofResponse BatchProof) × (o ≡ some p)
      stored (some p) h = (p, refl)
      stored none h = cc h

  already_requested-Fresh :
      (store : JobStore BatchProof) (k : JobId) → already_requested store k ≡ false → Fresh store k
  unfolding already_requested is_some
  already_requested-Fresh store k h = elim (Bool-cases (contains k store.pending)) [
    | inl there ↦ cc (rw there at h)
    | inr away ↦ (away, nothing (get k store.proofs) (rw away at h))
  ]
    where
      nothing : (o : Option (ProofResponse BatchProof)) → is_some o ≡ false → o ≡ none
      nothing (some p) h = cc h
      nothing none h = refl

  insert_job-Marked :
      (store : JobStore BatchProof) (k : JobId) → Marked store k (insert_job store k)
  unfolding insert_job
  insert_job-Marked store k = (λ j. contains-set_insert k j store.pending, refl)

  queued-Enqueues :
      (fifo : IsFifo system) (ctx : ProverRpcContext system) (prover_data : ProverData Input)
      (url : Url) (k : JobId) (sent : Channel × Result F (Unit {0}))
      → already_requested ctx.job_store k ≡ false
      → send ctx.sender (record { job_id = k; prover_data = prover_data; sequencer_url = url })
        ≡ sent
      → Enqueues ctx prover_data url
          (ok k)
          (queued system (record ctx { job_store = insert_job ctx.job_store k }) k sent)
  unfolding queued
  queued-Enqueues fifo ctx prover_data url k (c, ok u) new s = inr (
    already_requested-Fresh ctx.job_store k new,
    insert_job-Marked ctx.job_store k,
    inl (refl, fifo.sends ctx.sender c _ s),
  )
  queued-Enqueues fifo ctx prover_data url k (c, err e) new s = inr (
    already_requested-Fresh ctx.job_store k new,
    insert_job-Marked ctx.job_store k,
    inr (e, refl, fifo.refuses ctx.sender c _ e s),
  )

  enqueue_checked-Enqueues :
      (fifo : IsFifo system) (ctx : ProverRpcContext system) (prover_data : ProverData Input)
      (url : Url) (k : JobId) (known : Bool)
      → already_requested ctx.job_store k ≡ known
      → Enqueues ctx prover_data url (ok k) (enqueue_checked system ctx prover_data url k known)
  unfolding enqueue_checked enqueue_new
  enqueue_checked-Enqueues fifo ctx prover_data url k true known =
      inl (already_requested-Known ctx.job_store k known, refl)
  enqueue_checked-Enqueues fifo ctx prover_data url k false new =
      queued-Enqueues fifo ctx prover_data url k _ new refl

  enqueue_id-Enqueues :
      (fifo : IsFifo system) (ctx : ProverRpcContext system) (prover_data : ProverData Input)
      (url : Url) (id : Result RpcErr JobId)
      → Enqueues ctx prover_data url id (enqueue_id system ctx prover_data url id)
  unfolding enqueue_id
  enqueue_id-Enqueues fifo ctx prover_data url (err e) = refl
  enqueue_id-Enqueues fifo ctx prover_data url (ok k) =
      enqueue_checked-Enqueues fifo ctx prover_data url k _ refl

  -- A request whose job id cannot be computed fails and changes nothing. One whose job is pending or
  -- has a proof is refused and changes nothing. Any other becomes pending, while every other job stays
  -- pending or not and the proofs stay, and is put at the end of the channel and answered with its id,
  -- unless the channel refuses it: then the error of the channel is returned.
  pub enqueue_proof_input-Enqueues :
      (fifo : IsFifo system) (ctx : ProverRpcContext system) (prover_data : ProverData Input)
      (url : Url)
      → Enqueues ctx prover_data url
          (calculate_job_id system prover_data.input)
          (enqueue_proof_input system ctx prover_data url)
  unfolding enqueue_proof_input
  enqueue_proof_input-Enqueues fifo ctx prover_data url =
      enqueue_id-Enqueues fifo ctx prover_data url (calculate_job_id system prover_data.input)

  queued-known :
      (ctx : ProverRpcContext system) (k : JobId) (sent : Channel × Result F (Unit {0}))
      → already_requested ctx.job_store k ≡ true
      → already_requested (queued system ctx k sent).0.job_store k ≡ true
  unfolding queued
  queued-known ctx k (c, ok u) h = h
  queued-known ctx k (c, err e) h = h

  enqueue_checked-known :
      (ctx : ProverRpcContext system) (prover_data : ProverData Input) (url : Url) (k : JobId)
      (known : Bool)
      → already_requested ctx.job_store k ≡ known
      → already_requested (enqueue_checked system ctx prover_data url k known).0.job_store k ≡ true
  unfolding enqueue_checked enqueue_new
  enqueue_checked-known ctx prover_data url k true known = known
  enqueue_checked-known ctx prover_data url k false new =
      queued-known (record ctx { job_store = insert_job ctx.job_store k }) k _
        (insert_job-already_requested ctx.job_store k)

  refused :
      (ctx : ProverRpcContext system) (again : ProverData Input) (url : Url) (k : JobId)
      → already_requested ctx.job_store k ≡ true
      → enqueue_id system ctx again url (ok k)
        ≡ (ctx, err (bad_params "This batch already requested"))
  unfolding enqueue_id enqueue_checked
  refused ctx again url k known = rw known refl

  -- After a request, one for the same job is refused and changes nothing, also when the channel has
  -- refused the first one.
  pub enqueue_proof_input-again :
      (ctx : ProverRpcContext system) (prover_data again : ProverData Input) (url url' : Url)
      (k : JobId)
      → calculate_job_id system prover_data.input ≡ ok k
      → calculate_job_id system again.input ≡ ok k
      → enqueue_proof_input system (enqueue_proof_input system ctx prover_data url).0 again url' ≡ (
        (enqueue_proof_input system ctx prover_data url).0,
        err (bad_params "This batch already requested"),
      )
  unfolding enqueue_proof_input enqueue_id
  enqueue_proof_input-again ctx prover_data again url url' k first second =
      ap (enqueue_id system (enqueue_proof_input system ctx prover_data url).0 again url') second
      ∙ refused (enqueue_proof_input system ctx prover_data url).0 again url' k
          (rw first (enqueue_checked-known ctx prover_data url k _ refl))
