-- ===== src/BatchProducer/Loop/Tests.antt =====
-- A chain of numbered blocks, the batches built from it, and the theorems on them.
use mathlib.Core.List.{filter_map}
use mojave.Base.{
  ℕ, suc, ◌+◌, ◌≡◌, refl, ap, sym, ◌∙◌, Option, none, some, List, [], ◌∷◌, ok, err, nat_key, eqb,
  leb, if◌then◌else◌, length, arith,
}
use mojave.Base.Collections.{get, put, get-put}
use mojave.BatchProducer.Chain.{Chain, Batch, u64_add, broadcast_error}
use mojave.BatchProducer.Accumulator.{add_block_data, add_updates, get-add_updates}
use mojave.BatchProducer.Build.{
  BatchProducer, build_batch_request, create_batch, create_parent_database, get_block_state_root,
  generate_blobs_bundle, get_block_data, with_header, load_or_execute_updates, execute_updates,
  process_block, get_last_committed_block, last_of,
}
use mojave.BatchProducer.Loop.{
  build_batch, handle_request, from_last, prepared, created, sealed, over_parent, collected,
  collect, turned, after_data, after_process, after_diff, after_bundle, after_root, round,
  block_loop, prepare_batch_from_block,
}
use mojave.BatchProducer.Loop.Blocks.{Ends}
use mojave.BatchProducer.Loop.Outcome.{Outcome, build_batch-Outcome}
use mojave.BatchProducer.Loop.Enough.{Returns, build_batch-Returns}
use mojave.BatchProducer.Loop.Seams.{Seals, build_batch-skips, handle_request-unannounced}

abbrev up_to : ℕ → ℕ → Option ℕ
up_to top n = if leb n top then some n else none

-- A store is the number of its last block. Updates are pairs of an account and an amount; the channel
-- takes as many batches as its number says.
abbrev toy : Chain
toy = record {
  F = ℕ;
  Hash = ℕ;
  Header = ℕ;
  Body = ℕ;
  Address = ℕ;
  AccountUpdate = ℕ × ℕ;
  L1Message = ℕ;
  PrivilegedTx = ℕ;
  StateDiff = ℕ;
  Bytes = List ℕ;
  Blob = List ℕ;
  Bundle = List (List ℕ);
  default_hash = 0;
  default_bundle = [];
  default_diff = 0;
  header_number = λ h. h;
  parent_hash = λ h. h;
  block_hash = λ h b. suc h;
  Store = ℕ;
  get_block_header = λ top n. ok (up_to top n);
  get_block_body = λ top n. ok (up_to top n);
  state_trie_root = λ top h. ok (some (h + 100));
  Evm = ℕ;
  new_evm = λ top h. ok h;
  execute_block = λ vm h b. ok h;
  get_state_transitions = λ vm. ok ((1, vm) ∷ []);
  Rollup = List (ℕ × List ℕ);
  get_block_numbers_by_batch = λ rollup n. ok (get ⦃e = nat_key⦄ n rollup);
  get_account_updates_by_block_number = λ rollup n. ok none;
  seal_batch =
      λ rollup b. (put ⦃e = nat_key⦄ b.number (b.first_block ∷ b.last_block ∷ []) rollup, ok tt);
  address_eq = nat_key;
  address = λ update. update.0;
  merge = λ old update. (old.0, old.1 + update.1);
  get_l1_message_hash = λ m. m;
  get_privileged_hash = λ t. some t;
  compute_privileged_transactions_hash = λ hashes. ok (length hashes);
  encode = λ diff. ok (diff ∷ []);
  bytes_len = length;
  blob_from_bytes = λ bytes. ok bytes;
  create_from_blobs = λ blobs. ok blobs;
  Sender = ℕ;
  send = λ room b. if eqb room 0 then (0, err 7) else (0, ok tt);
}

abbrev start : BatchProducer toy
start = record { batch_counter = 4; store = 12; rollup_store = (4, 8 ∷ 9 ∷ []) ∷ []; broadcast = 0 }

start_last : get_last_committed_block toy start.rollup_store start.batch_counter ≡ ok 9
unfolding get_last_committed_block get
start_last = refl

abbrev batch : ℕ → ℕ → ℕ → ℕ → Batch ℕ (List (List ℕ))
batch n first last root = record {
  number = n;
  first_block = first;
  last_block = last;
  state_root = root;
  privileged_transactions_hash = 0;
  message_hashes = [];
  blobs_bundle = (0 ∷ []) ∷ [];
  commit_tx = none;
  verify_tx = none;
}

abbrev after : ℕ → BatchProducer toy
after room = record {
  batch_counter = 5;
  store = 12;
  rollup_store = put ⦃e = nat_key⦄ 5 (10 ∷ 13 ∷ []) start.rollup_store;
  broadcast = room;
}

-- Block 13 is the one that the batch ends with, and it is not there yet.
built : build_batch toy 5 start ≡ some (ok (some (batch 5 10 13 113)), after 0)
unfolding build_batch from_last prepared created sealed over_parent collected collect turned
    after_data after_process after_diff after_bundle after_root round block_loop
    prepare_batch_from_block create_batch create_parent_database get_block_state_root
    generate_blobs_bundle get_block_data with_header load_or_execute_updates execute_updates
    process_block get_last_committed_block last_of add_block_data get put filter_map
built = refl

get-add_updates_example :
    get ⦃e = nat_key⦄ 1 (add_updates toy ((1, 5) ∷ (2, 6) ∷ (1, 7) ∷ []) ((1, (1, 3)) ∷ []))
    ≡ some (1, 15)
unfolding get
get-add_updates_example = get-add_updates toy 1 ((1, 5) ∷ (2, 6) ∷ (1, 7) ∷ []) ((1, (1, 3)) ∷ [])

build_batch-Outcome_example : Outcome toy start 9 (build_batch toy 5 start)
build_batch-Outcome_example = build_batch-Outcome toy 5 start 9 start_last (omega arith)

build_batch-Returns_example : Returns toy (build_batch toy 5 start)
build_batch-Returns_example =
    build_batch-Returns toy 5 start 9 13 start_last refl (omega arith) (omega arith) (omega arith)

toy-Seals : Seals toy
toy-Seals rollup rollup' b h = (
  b.first_block ∷ b.last_block ∷ [],
  ap (λ r. ok (get ⦃e = nat_key⦄ b.number r)) (sym (ap (λ r. r.0) h))
      ∙ rw (
        get-put ⦃e = nat_key⦄ b.number b.number (b.first_block ∷ b.last_block ∷ []) rollup,
        (nat_key.same_iff b.number b.number).1 refl,
      ),
  refl,
)

built_twice :
    build_batch toy 5 (record (after 0) { store = 15 })
    ≡ some (
      ok (some (batch 6 14 16 116)),
      record {
        batch_counter = 6;
        store = 15;
        rollup_store = put ⦃e = nat_key⦄ 6 (14 ∷ 16 ∷ []) (after 0).rollup_store;
        broadcast = 0;
      },
    )
unfolding build_batch from_last prepared created sealed over_parent collected collect turned
    after_data after_process after_diff after_bundle after_root round block_loop
    prepare_batch_from_block create_batch create_parent_database get_block_state_root
    generate_blobs_bundle get_block_data with_header load_or_execute_updates execute_updates
    process_block get_last_committed_block last_of add_block_data get put filter_map
built_twice = refl

build_batch-skips_example : Ends toy 12 13 × ◌≡◌ {A = ℕ} 14 14 × ◌≡◌ {A = ℕ} 6 (u64_add 5 1)
build_batch-skips_example =
    build_batch-skips toy 5 5 start (after 0)
      (record {
        batch_counter = 6;
        store = 15;
        rollup_store = put ⦃e = nat_key⦄ 6 (14 ∷ 16 ∷ []) (after 0).rollup_store;
        broadcast = 0;
      })
      15 9 (batch 5 10 13 113) (batch 6 14 16 116) toy-Seals start_last (omega arith) (omega arith)
      built built_twice

handle_request-unannounced_example :
    (later : BatchProducer toy) × (handle_request toy 5 start build_batch_request
      ≡ some (err (broadcast_error 7), later))
    × (later.batch_counter ≡ 5)
    × (toy.seal_batch start.rollup_store (batch 5 10 13 113) ≡ (later.rollup_store, ok tt))
handle_request-unannounced_example =
    handle_request-unannounced toy 5 start (after 0) 9 (batch 5 10 13 113) 0 7 start_last
      (omega arith) built refl
