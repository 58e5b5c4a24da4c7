-- ===== src/Prover/Tests.antt =====
-- A prover whose inputs are their blocks' hashes and whose channel is a list, and the theorems on it.
use Prim.Native.String.{◌++◌ as append}
use mojave.Base.{
  ℕ, String, false, Option, none, some, List, [], ◌∷◌, ◌++◌, length, ok, err, ◌≡◌, refl, sym, ap,
}
use mojave.Rpc.{RpcErr, bad_params}
use mojave.Prover.Jobs.{ProverData, JobRecord, default}
use mojave.Prover.Service.{
  System, ProverRpcContext, calculate_job_id, insert, sort_unstable, enqueue_proof_input,
}
use mojave.Prover.Channels.{IsFifo, ids}
use mojave.Prover.Consistency.{IsConsistent}
use mojave.Prover.Requests.{Op, requests, works, run, run-IsConsistent}
use mojave.Prover.Repeats.{Enqueues, enqueue_proof_input-Enqueues, enqueue_proof_input-again}

abbrev Job : Type 0
Job = JobRecord (List String) ℕ

abbrev join : List String → String
join [] = ""
join (s ∷ ss) = append s (join ss)

abbrev pop_front : List Job → List Job × Option Job
pop_front [] = ([], none)
pop_front (r ∷ rs) = (rs, some r)

abbrev toy : System
toy = record {
  F = ℕ;
  to_string = λ e. "failure";
  Block = String;
  Input = List String;
  Url = ℕ;
  Output = ℕ;
  BatchProof = ℕ;
  Bytes = List String;
  blocks = λ input. input;
  hash = λ block. block;
  serialize_hashes = λ hashes. ok hashes;
  serialize_message = λ message. ok (message.header.message_id ∷ []);
  keccak = λ bytes. bytes;
  hex = join;
  as_bytes = λ s. s ∷ [];
  prove = λ input aligned. ok (length input);
  to_batch_proof = λ output aligned. ok output;
  Channel = List Job;
  contents = λ c. c;
  send = λ c r. (c ++ r ∷ [], ok tt);
  recv = pop_front;
  Publisher = List (List String);
  publish = λ sent bytes. (bytes ∷ sent, ok tt);
}

toy-receives : (c c' : List Job) (r : Job) → pop_front c ≡ (c', some r) → c ≡ r ∷ c'
toy-receives [] c' r h = cc h
toy-receives (j ∷ c) c' r h = cc h

toy-waits : (c c' : List Job) → pop_front c ≡ (c', none) → c ≡ []
toy-waits [] c' h = refl
toy-waits (j ∷ c) c' h = cc h

toy-IsFifo : IsFifo toy
toy-IsFifo = record {
  sends = λ c c' r h. sym (ap (λ p. p.0) h);
  refuses = λ c c' r e h. cc h;
  receives = toy-receives;
  waits = toy-waits;
}

abbrev ctx : ProverRpcContext toy
ctx = record {
  aligned_mode = false;
  job_store = default;
  sender = [];
  publisher = [];
  sent_ids = [];
}

abbrev data' : List String → ProverData (List String)
data' hashes = record { batch_number = 1; input = hashes }

abbrev rpc_text : RpcErr → String
rpc_text e = "failure"

abbrev history : List (Op toy rpc_text)
history =
    requests (data' ("b" ∷ "a" ∷ [])) 1
    ∷ requests (data' ("a" ∷ "b" ∷ [])) 2
    ∷ works
    ∷ requests (data' ("c" ∷ [])) 3
    ∷ []

run-IsConsistent_example :
    IsConsistent
      (ids toy (run toy rpc_text history ctx).sender)
      (run toy rpc_text history ctx).job_store
run-IsConsistent_example = run-IsConsistent toy rpc_text toy-IsFifo history ctx refl refl

enqueue_proof_input-Enqueues_example :
    Enqueues toy ctx
      (data' ("c" ∷ []))
      3
      (calculate_job_id toy ("c" ∷ []))
      (enqueue_proof_input toy ctx (data' ("c" ∷ [])) 3)
enqueue_proof_input-Enqueues_example =
    enqueue_proof_input-Enqueues toy toy-IsFifo ctx (data' ("c" ∷ [])) 3

first_id : calculate_job_id toy ("b" ∷ "a" ∷ []) ≡ ok "ab"
unfolding calculate_job_id sort_unstable insert
first_id = refl

second_id : calculate_job_id toy ("a" ∷ "b" ∷ []) ≡ ok "ab"
unfolding calculate_job_id sort_unstable insert
second_id = refl

enqueue_proof_input-again_example :
    enqueue_proof_input toy
      (enqueue_proof_input toy ctx (data' ("b" ∷ "a" ∷ [])) 1).0
      (data' ("a" ∷ "b" ∷ []))
      2
    ≡ (
      (enqueue_proof_input toy ctx (data' ("b" ∷ "a" ∷ [])) 1).0,
      err (bad_params "This batch already requested"),
    )
enqueue_proof_input-again_example =
    enqueue_proof_input-again toy ctx (data' ("b" ∷ "a" ∷ [])) (data' ("a" ∷ "b" ∷ [])) 1 2 "ab"
      first_id second_id
