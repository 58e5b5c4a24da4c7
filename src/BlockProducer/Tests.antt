-- ===== src/BlockProducer/Tests.antt =====
-- Three transactions, of which two fit a blob, and the theorems on them.
use mojave.Base.{
  ℕ, suc, ◌+◌, ◌-◌, ◌<◌, ◌≡◌, ◌&&◌, refl, subst, eqb, Result, err, Bool, true, false, Option, none,
  some, List, [], ◌∷◌, length, ok, nat_key, arith, sym, ap, ◌∙◌,
}
use mojave.Base.Collections.{get}
use mojave.Base.Programs.{MovesTo, Yields}
use mojave.BlockProducer.Build.{BlockHeader, Site, build_block, handle_request}
use mojave.BlockProducer.Build.Head.{TracksHead, hash_of, handle_request-Moves}
use mojave.BlockProducer.Build.Child.{KeepsPlace, IsChild, build_block-IsChild}
use mojave.BlockProducer.Diffs.{Ledger, AccountStateDiff, merge_diffs}
use mojave.BlockProducer.Diffs.Merge.{Merges, get-merge_diffs}
use mojave.BlockProducer.Fill.{Builder, Filling, filling, fill_loop, fill_transactions}
use mojave.BlockProducer.Fill.Bound.{FitsAll, fill_transactions-Fits}
use mojave.BlockProducer.Fill.Enough.{Shrinks, Returns, fill_loop-Returns}

abbrev toy : Ledger
toy = record {
  F = ℕ;
  Address = ℕ;
  Balance = ℕ;
  Slot = ℕ;
  Word = ℕ;
  Code = ℕ;
  CodeHash = ℕ;
  Bytes = ℕ;
  address_key = nat_key;
  balance_key = nat_key;
  slot_key = nat_key;
  hash_key = nat_key;
  encode = λ diff address. ok 40;
  bytes_len = λ n. n;
  Db = ℕ;
  get_tx_backup = λ account. ok (record {
    original_accounts_info =
        (account, record { balance = 5; nonce = 0; code_hash = 0; slots = [] }) ∷ [];
    original_account_storage_slots = [];
  });
  current_account =
      λ db account. some (record { balance = 6; nonce = 1; code_hash = 0; slots = [] });
  codes = λ db code_hash. none;
}

abbrev head : List ℕ → Option ℕ
head [] = none
head (tx ∷ txs) = some tx

abbrev tail : List ℕ → List ℕ
tail [] = []
tail (tx ∷ txs) = txs

-- A transaction is the account that it changes; a context is the gas left, the account changed
-- last, the transactions in the block, and its number with the hash of its parent.
abbrev chain : Builder toy
chain = record {
  Tx = ℕ;
  Hash = ℕ;
  Receipt = ℕ;
  Context = ℕ × ℕ × List ℕ × (ℕ × ℕ);
  Queue = List ℕ;
  Mempool = ℕ;
  Config = ℕ;
  tx_gas_cost = 21;
  block_header_len = 9;
  simple_tx_state_diff_size = 3;
  safe_bytes_per_blob = 100;
  privileged_tx_log_len = 52;
  l1message_log_len = 84;
  gas_limit = λ tx. 30;
  hash = λ tx. tx;
  protected = λ tx. false;
  nonce = λ tx. 0;
  sender = λ tx. tx;
  is_privileged = λ tx. false;
  is_privileged_l2 = λ tx. false;
  db = λ context. context.1;
  remaining_gas = λ context. context.0;
  get_chain_config = ok 0;
  get_latest_block_number = ok 8;
  is_eip155_activated = λ config context. true;
  get_account_info = λ block account. ok (some 0);
  apply_plain_transaction = λ tx context. ((context.0 - 21, tx, context.2, context.3), ok 0);
  messages = λ receipt. 0;
  undo_last_tx = λ context. ok context;
  push = λ tx receipt context. (context.0, context.1, tx ∷ context.2, context.3);
  peek = head;
  pop = tail;
  shift = λ txs. ok (tail txs);
  remove_transaction_from_pool = λ tx_hash mempool. ok (suc mempool);
  fetch = λ context mempool. ok (7 ∷ 8 ∷ 9 ∷ [], []);
}

fill_transactions-Fits_example :
    FitsAll toy chain (fill_transactions toy chain 9 (1000, 0, [], (9, 8)) 0)
fill_transactions-Fits_example =
    fill_transactions-Fits toy chain 9 (1000, 0, [], (9, 8)) 0 (omega arith) (omega arith)

tail_less : (q : List ℕ) (tx : ℕ) → head q ≡ some tx → length (tail q) < length q
tail_less [] tx h = cc h
tail_less (x ∷ q) tx h = omega arith

abbrev shrinking : Shrinks toy chain
shrinking = record {
  remaining = length;
  pops = tail_less;
  shifts = λ q q' tx h k. subst (λ r. length r < length q) (cc k) (tail_less q tx h);
}

abbrev start : Filling toy chain
start = filling toy chain 0 8 (1000, 0, [], (9, 8)) 0 (7 ∷ 8 ∷ 9 ∷ [])

fill_loop-Returns_example : Returns toy chain shrinking (fill_loop toy chain 4 start)
fill_loop-Returns_example = fill_loop-Returns toy chain shrinking 4 start (omega arith)

abbrev diff : ℕ → AccountStateDiff ℕ ℕ ℕ ℕ ℕ
diff n = record {
  new_balance = some n;
  nonce_diff = n;
  storage = (1, n) ∷ [];
  bytecode = none;
  bytecode_hash = none;
}

get-merge_diffs_example :
    Merges toy
      (get ⦃e = nat_key⦄ 3 ((3, diff 1) ∷ []))
      (diff 5 ∷ [])
      (get ⦃e = nat_key⦄ 3 (merge_diffs toy ((3, diff 1) ∷ []) ((4, diff 2) ∷ (3, diff 5) ∷ [])))
get-merge_diffs_example = get-merge_diffs toy 3 ((3, diff 1) ∷ []) ((4, diff 2) ∷ (3, diff 5) ∷ [])

-- The stores are the headers by number, newest first, and the hash of a header is its number.
abbrev header : ℕ → BlockHeader ℕ ℕ
header n = record {
  parent_hash = n - 1;
  ommers_hash = 0;
  coinbase = 0;
  state_root = 0;
  transactions_root = 0;
  receipts_root = 0;
  logs_bloom = 0;
  difficulty = 0;
  number = n;
  gas_limit = 100;
  gas_used = 0;
  timestamp = 0;
  extra_data = [];
  prev_randao = 0;
  nonce = 0;
  base_fee_per_gas = none;
  withdrawals_root = none;
  blob_gas_used = none;
  excess_blob_gas = none;
  parent_beacon_block_root = none;
  requests_hash = none;
}

abbrev verdict : Bool → Result ℕ (Unit {0})
verdict true = ok tt
verdict false = err 3

abbrev site : Site toy chain
site = record {
  H = ℕ;
  Withdrawal = ℕ;
  Schedule = ℕ;
  Fork = ℕ;
  Updates = ℕ;
  UpdatesList = ℕ;
  Store = ℕ × ℕ;
  default_ommers_hash = 0;
  default_requests_hash = 0;
  zero_hash = 0;
  default_bloom = 0;
  default_builder_gas_ceil = 100;
  default_elasticity = 2;
  parent_not_found = 1;
  hash = λ h. h.number;
  transactions_root = λ txs. 0;
  receipts_root = λ receipts. 0;
  withdrawals_root = λ withdrawals. 0;
  is_shanghai_activated = λ config time. true;
  is_cancun_activated = λ config time. true;
  is_prague_activated = λ config time. true;
  fork = λ config time. 0;
  get_fork_blob_schedule = λ config time. none;
  calc_gas_limit = λ limit ceiling. limit;
  calc_excess_blob_gas = λ parent schedule fork. 0;
  calculate_base_fee_per_gas = λ limit parent_limit used fee elasticity. some fee;
  now = ok 12;
  get_latest_block_number = λ s. ok 8;
  get_block_header = λ n s. ok (some (header n));
  get_block_header_by_hash = λ n s. ok (some (header n));
  get_chain_config = λ s. ok 0;
  new_context = λ block s. ok (1000, 0, [], (block.header.number, block.header.parent_hash));
  finalize_payload = λ context s. ok context;
  into = λ context. record {
    payload = record {
      header = record (header 9) { number = context.3.0; parent_hash = context.3.1 };
      transactions = context.2;
      ommers = [];
      withdrawals = none;
    };
    receipts = [];
    account_updates = 0;
  };
  validate_block = λ block parent config elasticity.
      verdict
        (eqb block.header.number (parent.number + 1) && eqb block.header.parent_hash parent.number);
  apply_account_updates_batch = λ parent updates s. (ok (some 0), s);
  store_block = λ block updates receipts s. (ok tt, (s.0, suc s.1));
  store_account_updates_by_block_number = λ number updates s. (ok tt, s);
  apply_fork_choice = λ tip safe finalized s. (ok tt, (tip, s.1));
  broadcast = λ block s. (err 5, s);
}

abbrev tracking : TracksHead toy chain site
tracking = record {
  head = λ s. s.0;
  applies = λ parent updates s. refl;
  stores = λ block updates receipts s. refl;
  records = λ number updates s. refl;
  chooses = λ tip safe finalized s. refl;
  broadcasts = λ block s. refl;
}

handle_request-Moves_example :
    MovesTo
      (λ (s : ℕ × ℕ). s.0)
      (hash_of toy chain site)
      8
      (handle_request toy chain site 9 0 0 (8, 0)).0
      (handle_request toy chain site 9 0 0 (8, 0)).1.0
handle_request-Moves_example = handle_request-Moves toy chain site tracking 9 0 0 (8, 0)

abbrev keeping : KeepsPlace toy chain site
keeping = record {
  about = λ context. context.3;
  keeps = record {
    applies = λ tx c. refl;
    undoes = λ c c' h. let e : c ≡ c' = cc h in rw e refl;
    pushes = λ tx receipt c. refl;
  };
  starts = λ payload s c h.
      let e : c ≡ (1000, 0, [], (payload.header.number, payload.header.parent_hash)) = cc h in
      rw e refl;
  finalizes = λ c c' s h. let e : c ≡ c' = cc h in rw e refl;
  ends = λ c. refl;
  finds = λ n h p s s' stored found.
      let e : header n ≡ h = cc stored in
      let f : header h.number ≡ p = cc found in sym f ∙ ap (λ m. header m.number) (sym e) ∙ e;
}

build_block-IsChild_example :
    Yields (IsChild toy chain site (header 8)) (build_block toy chain site 9 0 0 (8, 0))
build_block-IsChild_example =
    build_block-IsChild toy chain site keeping 9 0 0 (8, 0) 8 (header 8) refl refl
