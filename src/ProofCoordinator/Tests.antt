-- ===== src/ProofCoordinator/Tests.antt =====
-- Two blocks of a batch, and a store of proofs as a function, with the theorems on them.
use mojave.Base.{
  ℕ, ◌+◌, ◌≡◌, ◌⊎◌, inl, inr, refl, ap, subst, Bool-cases, IfOk, map, eqb_iff, Option, none, some,
  List, [], ◌∷◌, ok, eqb, if◌then◌else◌,
}
use mojave.Prover.Jobs.{proof, ProofResponse}
use mojave.ProofCoordinator.{store_proof, Stores, handle_request, create_prover_input}
use mojave.ProofCoordinator.Proofs.{Keyed, Promises, handle_request-Promises}
use mojave.ProofCoordinator.Inputs.{IsInput, create_prover_input-IsInput}

abbrev Table : Type 0
Table = List (ℕ × ℕ)

-- A proof has the one type there is; the store is a list of batches with their proofs, newest first.
abbrev find : ℕ → Table → Option ℕ
find n [] = none
find n ((m, p) ∷ w) = if eqb n m then some p else find n w

abbrev toy : Stores
toy = record {
  F = ℕ;
  Header = ℕ;
  Body = ℕ;
  Witness = List ℕ;
  Blob = ℕ;
  Commitment = ℕ;
  BlobProof = ℕ;
  BatchProof = ℕ;
  ProverType = Unit {0};
  World = Table;
  not_found = λ n. "Batch not found in store";
  prover_type = λ p. tt;
  get_proof_by_batch_and_type = λ n t w. ok (find n w);
  store_proof_by_batch_and_type = λ n t p w. (ok tt, (n, p) ∷ w);
  get_block_numbers_by_batch = λ n. ok (some (3 ∷ 4 ∷ []));
  get_blobs_by_batch = λ n. ok (some (1 ∷ []));
  create_from_blobs = λ blob. ok (record { commitments = 5 ∷ 6 ∷ []; proofs = 7 ∷ 8 ∷ [] });
  get_block_header = λ n. ok (some (n + 10));
  get_block_body = λ n. ok (some n);
  generate_witness_for_blocks = λ blocks. ok (map (λ b. b.header) blocks);
}

find-put : (n p : ℕ) (w : Table) → find n ((n, p) ∷ w) ≡ some p
find-put n p w = rw ((eqb_iff n n).1 refl) refl

find-put_else :
    (n p : ℕ) (w : Table) (m : ℕ) (u : Unit {0})
    → ((m ≡ n) × (u ≡ tt)) ⊎ (find m ((n, p) ∷ w) ≡ find m w)
find-put_else n p w m u = elim (Bool-cases (eqb m n)) [
  | inl same ↦ inl ((eqb_iff m n).0 same, refl)
  | inr other ↦ inr (rw other refl)
]

abbrev keyed : Keyed toy
keyed = record {
  proof_at = λ w n t. find n w;
  gets = λ n t w o h. cc h;
  puts = λ n t p w w' h. subst (λ v. find n v ≡ some p) (ap (λ r. r.1) h) (find-put n p w);
  puts_else = λ n t p w w' h m u.
      subst (λ v. ((m ≡ n) × (u ≡ t)) ⊎ (find m v ≡ find m w)) (ap (λ r. r.1) h)
        (find-put_else n p w m u);
  puts_not = λ n t p w w' e h m u. cc h;
}

abbrev response : ProofResponse ℕ
response = record { job_id = "job"; batch_number = 2; result = proof 9 }

handle_request-Promises_example :
    Promises toy keyed
      (store_proof response 2)
      ((2, 4) ∷ [])
      (handle_request toy (store_proof response 2) ((2, 4) ∷ []))
handle_request-Promises_example =
    handle_request-Promises toy keyed (store_proof response 2) ((2, 4) ∷ [])

create_prover_input-IsInput_example : IfOk (IsInput toy 2 1) (create_prover_input toy 2 1)
create_prover_input-IsInput_example = create_prover_input-IsInput toy 2 1
