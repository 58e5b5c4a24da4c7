-- ===== src/Prover/Consistency.antt =====
-- How the store of jobs and the channel agree.
use mathlib.Core.List.{Perm, Mem, Nodup, Nodup-cons, Nodup-nil}
use mathlib.Core.List.Perm
use mojave.Base.{
  Bool, true, false, none, some, List, [], ◌∷◌, ◌≡◌, refl, sym, subst, ◌∙◌, ◌⊎◌, inl, inr,
  if◌then◌else◌, Bool-cases, arith, string_key,
}
use mojave.Base.Collections.{
  contains, get, contains-set_insert, contains-set_remove, contains_iff, contains-eq_of_perm,
  get-put,
}
use mojave.Prover.Jobs.{
  JobId, ProofResponse, JobStore, default, already_requested, is_some, insert_job, upsert_proof,
  remove_pending, insert_proof,
}

if-true : (b : Bool) → (if b then true else true) ≡ true
if-true true = refl
if-true false = refl

contains-cons :
    (k j : JobId) (queue : List JobId)
    → contains j (k ∷ queue) ≡ true
    → (k ≡ j) ⊎ (contains j queue ≡ true)
unfolding contains
contains-cons k j queue m = elim (Bool-cases (string_key.same k j)) [
  | inl e ↦ inl ((string_key.same_iff k j).0 e)
  | inr e ↦ inr (sym (rw e refl) ∙ m)
]

module _ {BatchProof : Type 0} where
  -- the queued jobs are distinct and pending, no pending job has a proof, and each proof is its job's
  pub record IsConsistent (queue : List JobId) (store : JobStore BatchProof) : Type 0 where
    pub distinct : Nodup queue
    pub waiting : (k : JobId) → contains k queue ≡ true → contains k store.pending ≡ true
    pub apart : (k : JobId) → contains k store.pending ≡ true → get k store.proofs ≡ none
    pub labelled :
        (k : JobId) (p : ProofResponse BatchProof) → get k store.proofs ≡ some p → p.job_id ≡ k

  pub default-IsConsistent : IsConsistent [] default
  unfolding contains get
  default-IsConsistent = record {
    distinct = Nodup-nil;
    waiting = λ k h. cc h;
    apart = λ k h. refl;
    labelled = λ k p h. cc h;
  }

  pub IsConsistent-of_perm :
      {queue queue' : List JobId} {store : JobStore BatchProof}
      → Perm queue queue'
      → IsConsistent queue store
      → IsConsistent queue' store
  IsConsistent-of_perm {queue} {queue'} p h = record {
    distinct = Perm.nodup p h.distinct;
    waiting = λ k m. h.waiting k (contains-eq_of_perm k queue queue' p ∙ m);
    apart = h.apart;
    labelled = h.labelled;
  }

  pub fresh :
      (store : JobStore BatchProof) (k : JobId)
      → already_requested store k ≡ false
      → (contains k store.pending ≡ false) × (get k store.proofs ≡ none)
  unfolding already_requested is_some
  fresh store k h = ground arith

  insert_job-pending :
      (store : JobStore BatchProof) (k j : JobId)
      → (k ≡ j) ⊎ (contains j store.pending ≡ true)
      → contains j (insert_job store k).pending ≡ true
  unfolding insert_job
  insert_job-pending store k j (inl e) =
      contains-set_insert k j store.pending ∙ rw ((string_key.same_iff k j).1 e) refl
  insert_job-pending store k j (inr m) =
      contains-set_insert k j store.pending ∙ rw m (if-true (string_key.same k j))

  insert_job-apart :
      (store : JobStore BatchProof) (k : JobId)
      → already_requested store k ≡ false
      → ((j : JobId) → contains j store.pending ≡ true → get j store.proofs ≡ none)
      → (j : JobId) → contains j (insert_job store k).pending ≡ true
      → get j (insert_job store k).proofs ≡ none
  unfolding insert_job
  insert_job-apart store k new apart j m = elim (Bool-cases (string_key.same k j)) [
    | inl e ↦
        subst (λ i. get i store.proofs ≡ none) ((string_key.same_iff k j).0 e) (fresh store k new).1
    | inr e ↦ apart j (sym (contains-set_insert k j store.pending ∙ rw e refl) ∙ m)
  ]

  pub insert_job-lost :
      (queue : List JobId) (store : JobStore BatchProof) (k : JobId)
      → already_requested store k ≡ false
      → IsConsistent queue store
      → IsConsistent queue (insert_job store k)
  unfolding insert_job
  insert_job-lost queue store k new h = record {
    distinct = h.distinct;
    waiting = λ j m. insert_job-pending store k j (inr (h.waiting j m));
    apart = insert_job-apart store k new h.apart;
    labelled = h.labelled;
  }

  pub insert_job-queued :
      (queue : List JobId) (store : JobStore BatchProof) (k : JobId)
      → already_requested store k ≡ false
      → IsConsistent queue store
      → IsConsistent (k ∷ queue) (insert_job store k)
  unfolding insert_job contains
  insert_job-queued queue store k new h = record {
    distinct =
        Nodup-cons.1
          (λ m. cc (h.waiting k ((contains_iff k queue).1 m), (fresh store k new).0), h.distinct);
    waiting = λ j m.
        insert_job-pending store k j
          (elim (contains-cons k j queue m) [ inl e ↦ inl e | inr n ↦ inr (h.waiting j n) ]);
    apart = insert_job-apart store k new h.apart;
    labelled = h.labelled;
  }

  pub upsert_proof-IsConsistent :
      (queue : List JobId) (store : JobStore BatchProof) (k : JobId) (p : ProofResponse BatchProof)
      → p.job_id ≡ k
      → IsConsistent (k ∷ queue) store
      → IsConsistent queue (upsert_proof store k p)
  unfolding upsert_proof remove_pending insert_proof contains
  upsert_proof-IsConsistent queue store k p own h = record {
    distinct = (Nodup-cons.0 h.distinct).1;
    waiting = λ j m.
        contains-set_remove k j store.pending ∙ elim (Bool-cases (string_key.same k j)) [
          | inl e ↦ absurd (
              (Nodup-cons.0 h.distinct).0 (
                subst (λ i. Mem i queue) (sym ((string_key.same_iff k j).0 e))
                  ((contains_iff j queue).0 m)))
          | inr e ↦ rw e (h.waiting j (rw e m))
        ];
    apart = λ j m. get-put k j p store.proofs ∙ elim (Bool-cases (string_key.same k j)) [
      | inl e ↦ cc (rw e at (sym (contains-set_remove k j store.pending) ∙ m))
      | inr e ↦ rw e (h.apart j (rw e at (sym (contains-set_remove k j store.pending) ∙ m)))
    ];
    labelled = λ j q m. elim (Bool-cases (string_key.same k j)) [
      | inl e ↦
          cc (rw e at (sym (get-put k j p store.proofs) ∙ m), own, (string_key.same_iff k j).0 e)
      | inr e ↦ h.labelled j q (rw e at (sym (get-put k j p store.proofs) ∙ m))
    ];
  }
