-- ===== src/ProofCoordinator.antt =====
-- crates/proof-coordinator/src/coordinator.rs: proofs are stored by batch and type, and the input of a
-- proof is read out of the stores. The stores, the chain and the blobs are the record `Stores`.
pub mod Proofs
pub mod Inputs
mod Tests
use mojave.Base.{
  ℕ, String, Option, none, some, List, [], ◌∷◌, ◌++◌, get_last?, Result, ok, err, map_err, ok_or,
  ◌>>=◌,
}
use mojave.Base.Programs.{with_error}
use mojave.Prover.Jobs.{ProofResult, proof, error, ProofResponse, ProverData}

-- `F` stands for the errors of other crates that the variants wrap.
pub data Error (F : Type 0) : Type 0 where
  connection failed_accessing_store failed_accessing_rollup_store : F → Error F
  failed_to_create_execution_witness join_error client execution_cache_error : F → Error F
  blobs_bundle_error command : F → Error F
  failed_to_verify_proof_on_chain custom item_not_found_in_store internal : String → Error F
  storage_data_is_none : Error F
  missing_blob : ℕ → Error F
  proof_failed : ℕ → String → Error F

pub data Request (BatchProof : Type 0) : Type 0 where
  process_batch : ℕ → Request BatchProof
  store_proof : ProofResponse BatchProof → ℕ → Request BatchProof

pub data Response : Type 0 where
  ack : Response

pub record Block (Header Body : Type 0) : Type 0 where
  pub header : Header
  pub body : Body

pub record BlobsBundle (Commitment BlobProof : Type 0) : Type 0 where
  pub commitments : List Commitment
  pub proofs : List BlobProof

pub record ProgramInput (Witness Header Body Commitment BlobProof : Type 0) : Type 0 where
  pub execution_witness : Witness
  pub blocks : List (Block Header Body)
  pub blob_commitment : Commitment
  pub blob_proof : BlobProof
  pub elasticity_multiplier : ℕ

pub record Stores : Type 1 where
  pub F : Type 0
  pub Header : Type 0
  pub Body : Type 0
  pub Witness : Type 0
  pub Blob : Type 0
  pub Commitment : Type 0
  pub BlobProof : Type 0
  pub BatchProof : Type 0
  pub ProverType : Type 0
  -- the store of proofs, which alone is written
  pub World : Type 0
  pub not_found : ℕ → String
  pub prover_type : BatchProof → ProverType
  pub get_proof_by_batch_and_type : ℕ → ProverType → World → Result F (Option BatchProof)
  pub store_proof_by_batch_and_type :
      ℕ → ProverType → BatchProof → World → Result F (Unit {0}) × World
  pub get_block_numbers_by_batch : ℕ → Result F (Option (List ℕ))
  pub get_blobs_by_batch : ℕ → Result F (Option (List Blob))
  pub create_from_blobs : List Blob → Result F (BlobsBundle Commitment BlobProof)
  pub get_block_header : ℕ → Result F (Option Header)
  pub get_block_body : ℕ → Result F (Option Body)
  pub generate_witness_for_blocks : List (Block Header Body) → Result F Witness

-- `DEFAULT_ELASTICITY`
abbrev pub default_elasticity : ℕ
default_elasticity = 2

module _ (stores : Stores) where
  open stores use {
    F, Header, Body, Witness, Blob, Commitment, BlobProof, BatchProof, ProverType, World, not_found,
    prover_type, get_proof_by_batch_and_type, store_proof_by_batch_and_type,
    get_block_numbers_by_batch, get_blobs_by_batch, create_from_blobs, get_block_header,
    get_block_body, generate_witness_for_blocks,
  }

  abbrev pub Input : Type 0
  Input = ProgramInput Witness Header Body Commitment BlobProof

  -- by whether a proof is stored
  stored :
      ℕ → BatchProof → Result F (Option BatchProof) → World → Result (Error F) (Unit {0}) × World
  stored batch_number batch_proof (err e) world = (err (failed_accessing_rollup_store e), world)
  stored batch_number batch_proof (ok (some old)) world = (ok tt, world)
  stored batch_number batch_proof (ok none) world =
      with_error failed_accessing_rollup_store
        (store_proof_by_batch_and_type batch_number (prover_type batch_proof) batch_proof world)

  unfoldable pub store_result :
      ProofResult BatchProof → ℕ → World → Result (Error F) (Unit {0}) × World
  unfolding stored
  store_result (proof batch_proof) batch_number world =
      stored batch_number batch_proof
        (get_proof_by_batch_and_type batch_number (prover_type batch_proof) world) world
  store_result (error e) batch_number world = (err (proof_failed batch_number e), world)

  -- `handle_request`; `ProcessBatch` is only acknowledged
  acknowledged : Result (Error F) (Unit {0}) × World → Result (Error F) Response × World
  acknowledged (ok _, world) = (ok ack, world)
  acknowledged (err e, world) = (err e, world)

  unfoldable pub handle_request : Request BatchProof → World → Result (Error F) Response × World
  unfolding acknowledged
  handle_request (process_batch batch_number) world = (ok ack, world)
  handle_request (store_proof proof_response batch_number) world =
      acknowledged (store_result proof_response.result batch_number world)

  unfoldable pub fetch_block : ℕ → Result (Error F) (Block Header Body)
  fetch_block block_number = do
    header? ← map_err failed_accessing_store (get_block_header block_number)
    header ← ok_or header? storage_data_is_none
    body? ← map_err failed_accessing_store (get_block_body block_number)
    body ← ok_or body? storage_data_is_none
    ok (record { header = header; body = body })

  -- the loop, with the blocks read so far
  unfoldable pub fetch_loop :
      List ℕ → List (Block Header Body) → Result (Error F) (List (Block Header Body))
  fetch_loop [] blocks = ok blocks
  fetch_loop (block_number ∷ rest) blocks = do
    block ← fetch_block block_number
    fetch_loop rest (blocks ++ block ∷ [])

  unfoldable pub fetch_blocks : List ℕ → Result (Error F) (List (Block Header Body))
  fetch_blocks block_numbers = fetch_loop block_numbers []

  -- `commitments.pop()` and `proofs.pop()`
  unfoldable pub last_of :
      ℕ → Option Commitment → Option BlobProof → Result (Error F) (Commitment × BlobProof)
  last_of batch_number (some commitment) (some blob_proof) = ok (commitment, blob_proof)
  last_of batch_number _ _ = err (missing_blob batch_number)

  unfoldable pub create_prover_input : ℕ → ℕ → Result (Error F) (ProverData Input)
  unfolding last_of
  create_prover_input elasticity_multiplier batch_number = do
    numbers? ← map_err failed_accessing_rollup_store (get_block_numbers_by_batch batch_number)
    block_numbers ← ok_or numbers? (item_not_found_in_store (not_found batch_number))
    blocks ← fetch_blocks block_numbers
    execution_witness ←
        map_err failed_to_create_execution_witness (generate_witness_for_blocks blocks)
    blob? ← map_err failed_accessing_rollup_store (get_blobs_by_batch batch_number)
    blob ← ok_or blob? (missing_blob batch_number)
    bundle ← map_err blobs_bundle_error (create_from_blobs blob)
    last ← last_of batch_number (get_last? bundle.commitments) (get_last? bundle.proofs)
    ok (record {
      batch_number = batch_number;
      input = record {
        execution_witness = execution_witness;
        blocks = blocks;
        blob_commitment = last.0;
        blob_proof = last.1;
        elasticity_multiplier = elasticity_multiplier;
      };
    })
