-- ===== src/Prover/Jobs.antt =====
-- crates/prover/src/job.rs and the messages of crates/client/src/types.rs. Each lock of the store is
-- one step; `upsert_proof` takes two of them, one after the other.
use mojave.Base.{
  ℕ, String, Bool, true, false, Option, none, some, List, [], if◌then◌else◌, string_key, nat_key,
}
use mojave.Base.Collections.{contains, set_insert, set_remove, get, put}

-- `JobId(String)` compares as its text.
abbrev pub JobId : Type 0
JobId = String

pub record ProverData (Input : Type 0) : Type 0 where
  pub batch_number : ℕ
  pub input : Input

pub data ProofResult (BatchProof : Type 0) : Type 0 where
  proof : BatchProof → ProofResult BatchProof
  error : String → ProofResult BatchProof

pub record ProofResponse (BatchProof : Type 0) : Type 0 where
  pub job_id : JobId
  pub batch_number : ℕ
  pub result : ProofResult BatchProof

pub record JobRecord (Input Url : Type 0) : Type 0 where
  pub job_id : JobId
  pub prover_data : ProverData Input
  pub sequencer_url : Url

pub record JobStore (BatchProof : Type 0) : Type 0 where
  pub pending : List JobId
  pub proofs : List (JobId × ProofResponse BatchProof)

module _ {BatchProof : Type 0} where
  abbrev pub default : JobStore BatchProof
  default = record { pending = []; proofs = [] }

  unfoldable pub is_some : Option (ProofResponse BatchProof) → Bool
  is_some none = false
  is_some (some p) = true

  unfoldable pub get_proof_by_id : JobStore BatchProof → JobId → Option (ProofResponse BatchProof)
  get_proof_by_id self job_id = get job_id self.proofs

  unfoldable pub already_requested : JobStore BatchProof → JobId → Bool
  unfolding is_some
  already_requested self job_id =
      if contains job_id self.pending then true else is_some (get job_id self.proofs)

  unfoldable pub get_pending_jobs : JobStore BatchProof → List JobId
  get_pending_jobs self = self.pending

  unfoldable pub insert_job : JobStore BatchProof → JobId → JobStore BatchProof
  insert_job self job_id = record self { pending = (set_insert job_id self.pending).0 }

  unfoldable pub remove_pending : JobStore BatchProof → JobId → JobStore BatchProof
  remove_pending self job_id = record self { pending = set_remove job_id self.pending }

  unfoldable pub insert_proof :
      JobStore BatchProof → JobId → ProofResponse BatchProof → JobStore BatchProof
  insert_proof self job_id proof_response = record self {
    proofs = put job_id proof_response self.proofs;
  }

  unfoldable pub upsert_proof :
      JobStore BatchProof → JobId → ProofResponse BatchProof → JobStore BatchProof
  unfolding remove_pending insert_proof
  upsert_proof self job_id proof_response =
      insert_proof (remove_pending self job_id) job_id proof_response
