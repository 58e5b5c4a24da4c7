-- ===== src/BatchProducer/Chain.antt =====
-- crates/batch-producer/src/error.rs and types.rs, and what the batch producer calls of ethrex: the
-- stores, the virtual machine, the codecs of blobs and the channel, all parameters.
use mojave.Base.{ℕ, ◌+◌, ◌%◌, ◌^◌, Option, List, KeyEq, Result}

-- `a + b` on `u64`, which wraps in a release build
abbrev pub u64_add : ℕ → ℕ → ℕ
u64_add a b = (a + b) % 2 ^ 64

-- the texts that the variants with a `String` are given
pub data Message : Type 0 where
  no_header : ℕ → Message
  no_header_for_body : ℕ → Message
  no_state_root : Message
  missing_batch : ℕ → Message
  empty_batch : ℕ → Message
  no_blob_space : Message

-- `F` stands for the errors of other crates that the variants wrap.
pub data Error (F : Type 0) : Type 0 where
  chain_error evm_error failed_to_encode_account_state_diff rollup_store_error : F → Error F
  store_error failed_to_get_system_time try_into failed_to_generate_blobs_bundle : F → Error F
  retrieval_error failed_to_get_information_from_storage unreachable : Message → Error F
  privileged_transaction_error broadcast_error : F → Error F

-- `Batch`; the transactions that commit and verify it start out as none.
pub record Batch (Hash Bundle : Type 0) : Type 0 where
  pub number : ℕ
  pub first_block : ℕ
  pub last_block : ℕ
  pub state_root : Hash
  pub privileged_transactions_hash : Hash
  pub message_hashes : List Hash
  pub blobs_bundle : Bundle
  pub commit_tx : Option Hash
  pub verify_tx : Option Hash

pub record Chain : Type 1 where
  pub F : Type 0
  pub Hash : Type 0
  pub Header : Type 0
  pub Body : Type 0
  pub Address : Type 0
  pub AccountUpdate : Type 0
  pub L1Message : Type 0
  pub PrivilegedTx : Type 0
  pub StateDiff : Type 0
  pub Bytes : Type 0
  pub Blob : Type 0
  pub Bundle : Type 0
  pub default_hash : Hash
  pub default_bundle : Bundle
  pub default_diff : StateDiff
  pub header_number : Header → ℕ
  pub parent_hash : Header → Hash
  pub block_hash : Header → Body → Hash
  pub Store : Type 0
  pub get_block_header : Store → ℕ → Result F (Option Header)
  pub get_block_body : Store → ℕ → Result F (Option Body)
  pub state_trie_root : Store → Hash → Result F (Option Hash)
  -- `new_evm` on the state after a hash, `execute_block` and `get_state_transitions`
  pub Evm : Type 0
  pub new_evm : Store → Hash → Result F Evm
  pub execute_block : Evm → Header → Body → Result F Evm
  pub get_state_transitions : Evm → Result F (List AccountUpdate)
  -- `StoreRollup`
  pub Rollup : Type 0
  pub get_block_numbers_by_batch : Rollup → ℕ → Result F (Option (List ℕ))
  pub get_account_updates_by_block_number : Rollup → ℕ → Result F (Option (List AccountUpdate))
  pub seal_batch : Rollup → Batch Hash Bundle → Rollup × Result F (Unit {0})
  -- account updates, messages and privileged transactions
  pub address_eq : KeyEq Address
  pub address : AccountUpdate → Address
  pub merge : AccountUpdate → AccountUpdate → AccountUpdate
  pub get_l1_message_hash : L1Message → Hash
  pub get_privileged_hash : PrivilegedTx → Option Hash
  pub compute_privileged_transactions_hash : List Hash → Result F Hash
  -- blobs
  pub encode : StateDiff → Result F Bytes
  pub bytes_len : Bytes → ℕ
  pub blob_from_bytes : Bytes → Result F Blob
  pub create_from_blobs : List Blob → Result F Bundle
  -- the broadcast channel
  pub Sender : Type 0
  pub send : Sender → Batch Hash Bundle → Sender × Result F (Unit {0})
