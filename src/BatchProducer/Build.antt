-- ===== src/BatchProducer/Build.antt =====
-- crates/batch-producer/src/batch_producer.rs and utils.rs. Rust's `?` is the bind of `Result`; where
-- a step leaves the producer changed, the producer comes back beside the result. The loop over blocks
-- takes fuel, and `none` means that the fuel ran out.
use mojave.Base.{ℕ, Option, none, some, List, [], ◌∷◌, get_last?, Result, ok, ◌>>=◌, map_err, ok_or}
use mojave.BatchProducer.Chain.{
  Chain, Batch, Error, evm_error, failed_to_encode_account_state_diff, rollup_store_error,
  store_error, failed_to_generate_blobs_bundle, retrieval_error,
  failed_to_get_information_from_storage, privileged_transaction_error, no_header,
  no_header_for_body, no_state_root, missing_batch, empty_batch,
}

pub data Request : Type 0 where
  build_batch_request : Request

module _ (chain : Chain) where
  open chain use {
    F, Hash, Header, Body, AccountUpdate, L1Message, PrivilegedTx, StateDiff, Bundle, default_hash,
    default_bundle, default_diff, Store, header_number, parent_hash, block_hash, get_block_header,
    get_block_body, state_trie_root, Evm, new_evm, execute_block, get_state_transitions, Rollup,
    get_block_numbers_by_batch, get_account_updates_by_block_number, seal_batch,
    compute_privileged_transactions_hash, encode, bytes_len, blob_from_bytes, create_from_blobs,
    Sender, send,
  }

  pub record BlockData : Type 0 where
    pub body : Body
    pub header : Header

  pub record BatchData : Type 0 where
    pub last_block : ℕ
    pub state_root : Hash
    pub message_hashes : List Hash
    pub privileged_tx_hashes : List Hash
    pub blobs_bundle : Bundle

  pub record BatchProducer : Type 0 where
    pub batch_counter : ℕ
    pub store : Store
    pub rollup_store : Rollup
    pub broadcast : Sender

  abbrev pub get_block_l1_messages : List L1Message
  get_block_l1_messages = []

  abbrev pub get_privileged_transactions : List PrivilegedTx
  get_privileged_transactions = []

  -- The parameters that the source does not use are left out.
  abbrev pub prepare_state_diff : Result (Error F) StateDiff
  prepare_state_diff = ok default_diff

  unfoldable pub generate_blobs_bundle : StateDiff → Result (Error F) (Bundle × ℕ)
  generate_blobs_bundle state_diff = do
    blob_data ← map_err failed_to_encode_account_state_diff (encode state_diff)
    blob ← map_err failed_to_generate_blobs_bundle (blob_from_bytes blob_data)
    bundle ← map_err failed_to_generate_blobs_bundle (create_from_blobs (blob ∷ []))
    ok (bundle, bytes_len blob_data)

  -- the state after the parent of the first block, named by the parent's hash
  unfoldable pub create_parent_database : Store → ℕ → Result (Error F) Hash
  create_parent_database store first_block = do
    found ← map_err store_error (get_block_header store first_block)
    header ← ok_or found (failed_to_get_information_from_storage (no_header first_block))
    ok (parent_hash header)

  unfoldable pub get_block_state_root : Store → BlockData → Result (Error F) Hash
  get_block_state_root store data' = do
    found ← map_err store_error (state_trie_root store (block_hash data'.header data'.body))
    ok_or found (failed_to_get_information_from_storage no_state_root)

  abbrev pub batch_of : ℕ → ℕ → BatchData → Hash → Batch Hash Bundle
  batch_of batch_number first_block block_data privileged_transactions_hash = record {
    number = batch_number;
    first_block = first_block;
    last_block = block_data.last_block;
    state_root = block_data.state_root;
    privileged_transactions_hash = privileged_transactions_hash;
    message_hashes = block_data.message_hashes;
    blobs_bundle = block_data.blobs_bundle;
    commit_tx = none;
    verify_tx = none;
  }

  unfoldable pub create_batch : ℕ → ℕ → BatchData → Result (Error F) (Batch Hash Bundle)
  create_batch batch_number first_block block_data = do
    privileged_transactions_hash ←
        map_err privileged_transaction_error
          (compute_privileged_transactions_hash block_data.privileged_tx_hashes)
    ok (batch_of batch_number first_block block_data privileged_transactions_hash)

  unfoldable pub with_header : Store → ℕ → Option Body → Result (Error F) (Option BlockData)
  with_header store block_number none = ok none
  with_header store block_number (some body) = do
    found ← map_err store_error (get_block_header store block_number)
    header ← ok_or found (failed_to_get_information_from_storage (no_header_for_body block_number))
    ok (some (record { body = body; header = header }))

  unfoldable pub get_block_data : Store → ℕ → Result (Error F) (Option BlockData)
  unfolding with_header
  get_block_data store block_number = do
    found ← map_err store_error (get_block_body store block_number)
    with_header store block_number found

  unfoldable pub execute_updates :
      Store → BlockData → Option (List AccountUpdate) → Result (Error F) (List AccountUpdate)
  execute_updates store block_data (some account_updates) = ok account_updates
  execute_updates store block_data none = do
    vm ← map_err evm_error (new_evm store (parent_hash block_data.header))
    vm' ← map_err evm_error (execute_block vm block_data.header block_data.body)
    map_err evm_error (get_state_transitions vm')

  unfoldable pub load_or_execute_updates :
      Store → Rollup → BlockData → ℕ → Result (Error F) (List AccountUpdate)
  unfolding execute_updates
  load_or_execute_updates store rollup_store block_data block_number = do
    found ←
        map_err rollup_store_error (get_account_updates_by_block_number rollup_store block_number)
    execute_updates store block_data found

  unfoldable pub process_block :
      Store
      → Rollup
      → BlockData
      → Result (Error F) (List L1Message × List PrivilegedTx × List AccountUpdate)
  process_block store rollup_store block_data = do
    account_updates ←
        load_or_execute_updates store rollup_store block_data (header_number block_data.header)
    ok (get_block_l1_messages, get_privileged_transactions, account_updates)

  unfoldable pub last_of : ℕ → Option (List ℕ) → Result (Error F) ℕ
  last_of batch_number found = do
    last_committed_blocks ← ok_or found (retrieval_error (missing_batch batch_number))
    ok_or (get_last? last_committed_blocks) (retrieval_error (empty_batch batch_number))

  unfoldable pub get_last_committed_block : Rollup → ℕ → Result (Error F) ℕ
  unfolding last_of
  get_last_committed_block rollup_store batch_number = do
    found ← map_err rollup_store_error (get_block_numbers_by_batch rollup_store batch_number)
    last_of batch_number found
