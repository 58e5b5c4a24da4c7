-- ===== src/BlockProducer/Build.antt =====
-- crates/block-producer/src/block_producer.rs: `build_block`, `create_payload`, `build_payload` and the
-- handler, over the stores, the network and the functions of ethrex, which are the record `Site`. The
-- mempool goes beside the stores: a failed build says nothing of it. The fuel is that of
-- `fill_transactions`. Throughput is measured for the log only.
pub mod Head
pub mod Child
use mojave.Base.{
  ℕ, ◌+◌, ◌-◌, ◌^◌, min, Bool, true, false, Option, none, some, List, [], Result, ok, err, ok_or,
  if◌then◌else◌,
}
use mojave.Base.Programs.{Program, pure, lift, reads, converting, ◌>>=◌}
use mojave.BlockProducer.Diffs.{Ledger, Error, other, storage_data_is_none}
use mojave.BlockProducer.Fill.{Builder, Filling, fill_transactions}

-- why nothing was built: an error, or the model's fuel
pub data Stop (F : Type 0) : Type 0 where
  failed : Error F → Stop F
  out_of_fuel : Stop F

pub record BlockHeader (H Address : Type 0) : Type 0 where
  pub parent_hash : H
  pub ommers_hash : H
  pub coinbase : Address
  pub state_root : H
  pub transactions_root : H
  pub receipts_root : H
  pub logs_bloom : ℕ
  pub difficulty : ℕ
  pub number : ℕ
  pub gas_limit : ℕ
  pub gas_used : ℕ
  pub timestamp : ℕ
  pub extra_data : List ℕ
  pub prev_randao : H
  pub nonce : ℕ
  pub base_fee_per_gas : Option ℕ
  pub withdrawals_root : Option H
  pub blob_gas_used : Option ℕ
  pub excess_blob_gas : Option ℕ
  pub parent_beacon_block_root : Option H
  pub requests_hash : Option H

pub record Block (H Address Tx Withdrawal : Type 0) : Type 0 where
  pub header : BlockHeader H Address
  pub transactions : List Tx
  pub ommers : List (BlockHeader H Address)
  pub withdrawals : Option (List Withdrawal)

pub record BuildPayloadArgs (H Address Withdrawal : Type 0) : Type 0 where
  pub gas_ceil : ℕ
  pub parent : H
  pub timestamp : ℕ
  pub fee_recipient : Address
  pub random : H
  pub withdrawals : Option (List Withdrawal)
  pub beacon_root : Option H
  pub version : ℕ
  pub elasticity_multiplier : ℕ

pub record PayloadBuildResult (B Receipt Updates : Type 0) : Type 0 where
  pub payload : B
  pub receipts : List Receipt
  pub account_updates : Updates

pub record Site (ledger : Ledger) (builder : Builder ledger) : Type 1 where
  pub H : Type 0
  pub Withdrawal : Type 0
  pub Schedule : Type 0
  pub Fork : Type 0
  pub Updates : Type 0
  pub UpdatesList : Type 0
  -- the stores of the node, and its network
  pub Store : Type 0
  pub default_ommers_hash : H
  pub default_requests_hash : H
  pub zero_hash : H
  pub default_bloom : ℕ
  pub default_builder_gas_ceil : ℕ
  pub default_elasticity : ℕ
  pub parent_not_found : ledger.F
  pub hash : BlockHeader H ledger.Address → H
  pub transactions_root : List builder.Tx → H
  pub receipts_root : List builder.Receipt → H
  pub withdrawals_root : List Withdrawal → H
  pub is_shanghai_activated : builder.Config → ℕ → Bool
  pub is_cancun_activated : builder.Config → ℕ → Bool
  pub is_prague_activated : builder.Config → ℕ → Bool
  pub fork : builder.Config → ℕ → Fork
  pub get_fork_blob_schedule : builder.Config → ℕ → Option Schedule
  pub calc_gas_limit : ℕ → ℕ → ℕ
  pub calc_excess_blob_gas : BlockHeader H ledger.Address → Schedule → Fork → ℕ
  pub calculate_base_fee_per_gas : ℕ → ℕ → ℕ → ℕ → ℕ → Option ℕ
  -- the seconds since the epoch
  pub now : Result ledger.F ℕ
  pub get_latest_block_number : Store → Result ledger.F ℕ
  pub get_block_header : ℕ → Store → Result ledger.F (Option (BlockHeader H ledger.Address))
  pub get_block_header_by_hash : H → Store → Result ledger.F (Option (BlockHeader H ledger.Address))
  pub get_chain_config : Store → Result ledger.F builder.Config
  pub new_context :
      Block H ledger.Address builder.Tx Withdrawal → Store → Result ledger.F builder.Context
  pub finalize_payload : builder.Context → Store → Result ledger.F builder.Context
  pub into :
      builder.Context
      → PayloadBuildResult (Block H ledger.Address builder.Tx Withdrawal) builder.Receipt Updates
  pub validate_block :
      Block H ledger.Address builder.Tx Withdrawal
      → BlockHeader H ledger.Address
      → builder.Config
      → ℕ
      → Result ledger.F (Unit {0})
  pub apply_account_updates_batch : H → Updates → Program Store ledger.F (Option UpdatesList)
  pub store_block :
      Block H ledger.Address builder.Tx Withdrawal
      → UpdatesList
      → List builder.Receipt
      → Program Store ledger.F (Unit {0})
  pub store_account_updates_by_block_number : ℕ → Updates → Program Store ledger.F (Unit {0})
  pub apply_fork_choice : H → H → H → Program Store ledger.F (Unit {0})
  pub broadcast : Block H ledger.Address builder.Tx Withdrawal → Program Store ledger.F (Unit {0})

module _ (ledger : Ledger) (builder : Builder ledger) (site : Site ledger builder) where
  open ledger use {F, Address}
  open builder use {Tx, Receipt, Context, Mempool, Config}
  open site use {
    H, Withdrawal, Updates, UpdatesList, Store, default_ommers_hash, default_requests_hash,
    zero_hash, default_bloom, default_builder_gas_ceil, default_elasticity, parent_not_found, hash,
    transactions_root, receipts_root, withdrawals_root, is_shanghai_activated, is_cancun_activated,
    is_prague_activated, fork, get_fork_blob_schedule, calc_gas_limit, calc_excess_blob_gas,
    calculate_base_fee_per_gas, now, get_latest_block_number, get_block_header,
    get_block_header_by_hash, get_chain_config, new_context, finalize_payload, into, validate_block,
    apply_account_updates_batch, store_block, store_account_updates_by_block_number,
    apply_fork_choice, broadcast,
  }

  abbrev pub Header : Type 0
  Header = BlockHeader H Address

  abbrev pub Payload : Type 0
  Payload = Block H Address Tx Withdrawal

  abbrev pub Args : Type 0
  Args = BuildPayloadArgs H Address Withdrawal

  -- `bool::then_some`
  abbrev pub then_some : {A : Type 0} → Bool → A → Option A
  then_some true a = some a
  then_some false a = none

  abbrev pub unwrap_or : {A : Type 0} → Option A → A → A
  unwrap_or none d = d
  unwrap_or (some a) d = a

  excess_blob_gas_of : Config → Args → Header → Option ℕ
  excess_blob_gas_of config args parent = elim (get_fork_blob_schedule config args.timestamp) [
    | none ↦ none
    | some schedule ↦ some (calc_excess_blob_gas parent schedule (fork config args.timestamp))
  ]

  header_of : Config → Args → Header → Header
  unfolding excess_blob_gas_of
  header_of config args parent =
      let limit = calc_gas_limit parent.gas_limit default_builder_gas_ceil in
      record {
        parent_hash = args.parent;
        ommers_hash = default_ommers_hash;
        coinbase = args.fee_recipient;
        state_root = parent.state_root;
        transactions_root = transactions_root [];
        receipts_root = receipts_root [];
        logs_bloom = default_bloom;
        difficulty = 0;
        number = min (parent.number + 1) (2 ^ 64 - 1);
        gas_limit = limit;
        gas_used = 0;
        timestamp = args.timestamp;
        extra_data = [];
        prev_randao = args.random;
        nonce = 0;
        base_fee_per_gas =
            calculate_base_fee_per_gas limit parent.gas_limit parent.gas_used
              (unwrap_or parent.base_fee_per_gas 0) args.elasticity_multiplier;
        withdrawals_root =
            then_some (is_shanghai_activated config args.timestamp)
              (withdrawals_root (unwrap_or args.withdrawals []));
        blob_gas_used = then_some (is_cancun_activated config args.timestamp) 0;
        excess_blob_gas = excess_blob_gas_of config args parent;
        parent_beacon_block_root = args.beacon_root;
        requests_hash = then_some (is_prague_activated config args.timestamp) default_requests_hash;
      }

  unfoldable pub create_payload : Args → Program Store F Payload
  unfolding header_of
  create_payload args = do
    found ← reads (get_block_header_by_hash args.parent)
    parent ← lift (ok_or found parent_not_found)
    config ← reads get_chain_config
    pure (record {
      header = header_of config args parent;
      transactions = [];
      ommers = [];
      withdrawals = args.withdrawals;
    })

  -- what `fill_transactions` leaves, or why it does not
  filled : Option (Result (Error F) (Filling ledger builder)) → Result (Stop F) (Context × Mempool)
  filled none = err out_of_fuel
  filled (some (ok s)) = ok (s.context, s.mempool)
  filled (some (err e)) = err (failed e)

  abbrev pub ethrex : {A : Type 0} → Program Store F A → Program Store (Stop F) A
  ethrex p = converting (λ e. failed (other e)) p

  unfoldable pub build_payload :
      ℕ
      → Payload
      → Mempool
      → Program Store (Stop F) (PayloadBuildResult Payload Receipt Updates × Mempool)
  unfolding filled
  build_payload fuel payload mempool = do
    context ← ethrex (reads (new_context payload))
    done ← lift (filled (fill_transactions ledger builder fuel context mempool))
    complete ← ethrex (reads (finalize_payload done.0))
    pure (into complete, done.1)

  abbrev pub args_of : Address → H → ℕ → Args
  args_of coinbase parent timestamp = record {
    gas_ceil = default_builder_gas_ceil;
    parent = parent;
    timestamp = timestamp;
    fee_recipient = coinbase;
    random = zero_hash;
    withdrawals = none;
    beacon_root = some zero_hash;
    version = 3;
    elasticity_multiplier = default_elasticity;
  }

  -- the end of `build_block`, once the block is built and found valid
  unfoldable pub commit :
      PayloadBuildResult Payload Receipt Updates
      → Mempool
      → Program Store (Stop F) (Payload × Mempool)
  commit built mempool = do
    let block = built.payload
    applied ← ethrex (apply_account_updates_batch block.header.parent_hash built.account_updates)
    updates ← ethrex (lift (ok_or applied parent_not_found))
    _ ← ethrex (store_block block updates built.receipts)
    _ ← ethrex (store_account_updates_by_block_number block.header.number built.account_updates)
    _ ← ethrex (apply_fork_choice (hash block.header) (hash block.header) (hash block.header))
    pure (block, mempool)

  -- the middle of `build_block`, on the header of the head
  unfoldable pub build_on :
      ℕ → Address → Mempool → Header → Program Store (Stop F) (Payload × Mempool)
  build_on fuel coinbase mempool head_header = do
    timestamp ← ethrex (lift now)
    payload ← ethrex (create_payload (args_of coinbase (hash head_header) timestamp))
    built ← build_payload fuel payload mempool
    config ← ethrex (reads get_chain_config)
    _ ← ethrex (lift (validate_block built.0.payload head_header config default_elasticity))
    commit built.0 built.1

  unfoldable pub build_block : ℕ → Address → Mempool → Program Store (Stop F) (Payload × Mempool)
  build_block fuel coinbase mempool = do
    latest ← ethrex (reads get_latest_block_number)
    found ← ethrex (reads (get_block_header latest))
    head_header ← lift (ok_or found (failed storage_data_is_none))
    build_on fuel coinbase mempool head_header

  -- A failed broadcast is logged only.
  announced :
      Result (Stop F) (Payload × Mempool) × Store → Result (Stop F) (Payload × Mempool) × Store
  announced (ok built, s) = (ok built, (broadcast built.0 s).1)
  announced (err e, s) = (err e, s)

  -- `handle_request`, of which `BuildBlock` is the one request
  unfoldable pub handle_request : ℕ → Address → Mempool → Program Store (Stop F) (Payload × Mempool)
  unfolding announced
  handle_request fuel coinbase mempool s = announced (build_block fuel coinbase mempool s)
