-- ===== src/BatchSubmitter/Scripts.antt =====
-- crates/batch-submitter/src/builder.rs: `build_reveal_script`. The script builder of the bitcoin crate
-- is the record `Scripts`.
pub mod Reading
use mojave.Base.{
  ℕ, zero, suc, String, List, [], ◌∷◌, length, take, drop, Result, ok, err, map_err, ◌>>=◌,
}
use mojave.BatchSubmitter.{Error, internal, push_bytes_error}

-- `MAX_PUSH_SIZE`
abbrev pub max_push_size : ℕ
max_push_size = 520

-- the operations of `bitcoin::opcodes` that are used
pub data Opcode : Type 0 where
  op_checksig op_false op_if op_endif : Opcode

pub record Scripts : Type 1 where
  pub F : Type 0
  pub Key : Type 0
  pub Push : Type 0
  pub Builder : Type 0
  pub Script : Type 0
  pub new : Builder
  pub push_x_only_key : Key → Builder → Builder
  pub push_opcode : Opcode → Builder → Builder
  pub push_slice : Push → Builder → Builder
  pub into_script : Builder → Script
  -- `PushBytesBuf::try_from`
  pub try_from : List ℕ → Result F Push

-- `slice::chunks`: pieces of `n` items, of which the last may be shorter. Each takes at least one item
-- for `n` above zero, so that as much fuel as items is enough.
unfoldable pub chunks_within {ℓ} : {A : Type ℓ} → ℕ → ℕ → List A → List (List A)
chunks_within zero n xs = []
chunks_within (suc fuel) n [] = []
chunks_within (suc fuel) n (x ∷ xs) = take n (x ∷ xs) ∷ chunks_within fuel n (drop n (x ∷ xs))

abbrev pub chunks {ℓ} : {A : Type ℓ} → ℕ → List A → List (List A)
chunks n xs = chunks_within (length xs) n xs

module _ (scripts : Scripts) where
  open scripts use {
    F, Key, Push, Builder, Script, new, push_x_only_key, push_opcode, push_slice, into_script,
    try_from,
  }

  -- the loop over the chunks of a payload
  unfoldable pub push_chunks : List (List ℕ) → Builder → Result (Error F) Builder
  push_chunks [] script_builder = ok script_builder
  push_chunks (chunk ∷ rest) script_builder = do
    data_ ← map_err push_bytes_error (try_from chunk)
    push_chunks rest (push_slice data_ script_builder)

  -- the body of the loop over the payloads
  unfoldable pub push_payload : List ℕ → Builder → Result (Error F) Builder
  push_payload payload script_builder = do
    pushed ←
        push_chunks (chunks max_push_size payload)
          (push_opcode op_if (push_opcode op_false script_builder))
    ok (push_opcode op_endif pushed)

  unfoldable pub push_payloads : List (List ℕ) → Builder → Result (Error F) Builder
  push_payloads [] script_builder = ok script_builder
  push_payloads (payload ∷ payloads) script_builder = do
    pushed ← push_payload payload script_builder
    push_payloads payloads pushed

  finish : Result (Error F) Builder → Result (Error F) Script
  finish (ok script_builder) = ok (into_script script_builder)
  finish (err e) = err e

  unfoldable pub build_reveal_script : Key → List (List ℕ) → Result (Error F) Script
  unfolding finish
  build_reveal_script public_key [] = err (internal "Payloads cannot be empty")
  build_reveal_script public_key (payload ∷ payloads) = finish (
      push_payloads (payload ∷ payloads) (push_opcode op_checksig (push_x_only_key public_key new)))
