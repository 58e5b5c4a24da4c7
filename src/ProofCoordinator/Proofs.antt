-- ===== src/ProofCoordinator/Proofs.antt =====
-- Which proofs are stored, and which stay.
use mojave.Base.{ℕ, ◌≡◌, refl, sym, subst, ◌∙◌, ◌⊎◌, inl, inr, Option, none, some, Result, ok, err}
use mojave.Base.Programs.{with_error}
use mojave.Prover.Jobs.{ProofResult, proof, error}
use mojave.ProofCoordinator.{
  Error, failed_accessing_rollup_store, proof_failed, Request, process_batch, store_proof, Response,
  Stores, stored, store_result, acknowledged, handle_request,
}

module _ (stores : Stores) where
  open stores use {
    F, BatchProof, ProverType, World, prover_type, get_proof_by_batch_and_type,
    store_proof_by_batch_and_type,
  }

  -- The rollup store is a table by batch and type; a write that fails changes nothing.
  pub record Keyed : Type 0 where
    pub proof_at : World → ℕ → ProverType → Option BatchProof
    pub gets :
        (n : ℕ) (t : ProverType) (w : World) (o : Option BatchProof)
        → get_proof_by_batch_and_type n t w ≡ ok o
        → proof_at w n t ≡ o
    pub puts :
        (n : ℕ) (t : ProverType) (p : BatchProof) (w w' : World)
        → store_proof_by_batch_and_type n t p w ≡ (ok tt, w')
        → proof_at w' n t ≡ some p
    pub puts_else :
        (n : ℕ) (t : ProverType) (p : BatchProof) (w w' : World)
        → store_proof_by_batch_and_type n t p w ≡ (ok tt, w')
        → (m : ℕ) (u : ProverType) → ((m ≡ n) × (u ≡ t)) ⊎ (proof_at w' m u ≡ proof_at w m u)
    pub puts_not :
        (n : ℕ) (t : ProverType) (p : BatchProof) (w w' : World) (e : F)
        → store_proof_by_batch_and_type n t p w ≡ (err e, w')
        → (m : ℕ) (u : ProverType) → proof_at w' m u ≡ proof_at w m u

  module _ (keyed : Keyed) where
    open keyed use {proof_at, gets, puts, puts_else, puts_not}

    -- every proof that is there stays
    abbrev pub Keeps : World → World → Type 0
    Keeps w w' =
        (m : ℕ) (u : ProverType) (q : BatchProof)
        → proof_at w m u ≡ some q
        → proof_at w' m u ≡ some q

    -- and on success there is one for the batch and the type
    abbrev pub Holds : ℕ → ProverType → {A : Type 0} → Result (Error F) A × World → Type 0
    Holds n t (ok a, w) = (q : BatchProof) × (proof_at w n t ≡ some q)
    Holds n t (err e, w) = Unit

    written :
        (n : ℕ) (p : BatchProof) (w : World) (r : Result F (Unit {0}) × World)
        → store_proof_by_batch_and_type n (prover_type p) p w ≡ r
        → proof_at w n (prover_type p) ≡ none
        → Keeps w (with_error failed_accessing_rollup_store r).1
          × Holds n (prover_type p) (with_error failed_accessing_rollup_store r)
    unfolding with_error
    written n p w (ok tt, w') e fresh = (
      λ m u q h. elim (puts_else n (prover_type p) p w w' e m u) [
        | inl (same_n, same_t) ↦ cc (
          subst (λ k. proof_at w k u ≡ some q) same_n h,
          subst (λ k. proof_at w n k ≡ none) (sym same_t) fresh,
        )
        | inr same ↦ same ∙ h
      ],
      (p, puts n (prover_type p) p w w' e),
    )
    written n p w (err e', w') e fresh =
        (λ m u q h. puts_not n (prover_type p) p w w' e' e m u ∙ h, tt)

    stored-Keeps :
        (n : ℕ) (p : BatchProof) (w : World) (o : Result F (Option BatchProof))
        → get_proof_by_batch_and_type n (prover_type p) w ≡ o
        → Keeps w (stored stores n p o w).1 × Holds n (prover_type p) (stored stores n p o w)
    unfolding stored
    stored-Keeps n p w (err e') e = (λ m u q h. h, tt)
    stored-Keeps n p w (ok (some old)) e =
        (λ m u q h. h, (old, gets n (prover_type p) w (some old) e))
    stored-Keeps n p w (ok none) e =
        written n p w (store_proof_by_batch_and_type n (prover_type p) p w) refl
          (gets n (prover_type p) w none e)

    acknowledged-Keeps :
        (n : ℕ) (t : ProverType) (w : World) (r : Result (Error F) (Unit {0}) × World)
        → Keeps w r.1 × Holds n t r
        → Keeps w (acknowledged stores r).1 × Holds n t (acknowledged stores r)
    unfolding acknowledged
    acknowledged-Keeps n t w (ok tt, w') h = h
    acknowledged-Keeps n t w (err e, w') h = h

    -- what the answer to a result, and to a request, promises
    abbrev pub PromisesResult :
        ProofResult BatchProof → ℕ → World → Result (Error F) Response × World → Type 0
    PromisesResult (proof p) n w r = Keeps w r.1 × Holds n (prover_type p) r
    PromisesResult (error e) n w r = r ≡ (err (proof_failed n e), w)

    abbrev pub Promises : Request BatchProof → World → Result (Error F) Response × World → Type 0
    Promises (process_batch n) w r = r.1 ≡ w
    Promises (store_proof response n) w r = PromisesResult response.result n w r

    result-Promises :
        (result : ProofResult BatchProof) (n : ℕ) (w : World)
        → PromisesResult result n w (acknowledged stores (store_result stores result n w))
    unfolding store_result acknowledged
    result-Promises (proof p) n w =
        acknowledged-Keeps n (prover_type p) w _
          (stored-Keeps n p w (get_proof_by_batch_and_type n (prover_type p) w) refl)
    result-Promises (error e) n w = refl

    -- In a rollup store that is a table: a request with a failed proof is an error and stores nothing.
    -- One with a proof leaves each stored proof as it is, so that the first proof of a batch and type
    -- stays, and where it is acknowledged there is a proof of that batch and type.
    pub handle_request-Promises :
        (request : Request BatchProof) (w : World)
        → Promises request w (handle_request stores request w)
    unfolding handle_request
    handle_request-Promises (process_batch n) w = refl
    handle_request-Promises (store_proof response n) w = result-Promises response.result n w
