-- ===== src/BatchSubmitter/Tests.antt =====
-- Scripts as lists of instructions, a wallet as the list of its locked outputs whose signing fails, a
-- committer whose queue and peers are lists, and the theorems on them.
use mojave.Base.{
  ℕ, ◌≡◌, refl, sym, ap, subst, Bool, true, some, List, [], ◌∷◌, ◌++◌, length, drop, Result, ok,
  err, inl, Option, map, ◌∙◌,
}
use mojave.BatchSubmitter.Scripts.{Scripts, build_reveal_script}
use mojave.BatchSubmitter.Scripts.Reading.{
  Instruction, key, op, bytes, Appends, Inscribes, build_reveal_script-Inscribes,
}
use mojave.BatchSubmitter.Inscription.{
  OutPoint, enable_rbf_no_locktime, Transaction, Bitcoin, BuilderContext, create_inscription_tx,
}
use mojave.BatchSubmitter.Inscription.Locks.{Wallet, Settles, create_inscription_tx-Settles}
use mojave.BatchSubmitter.Committer.{Line, service}
use mojave.BatchSubmitter.Committer.Announced.{Journal, IsOrderly, run_until-IsOrderly}
use mojave.Tasks.Runner.{ran, cancelled, running, run_until}

abbrev Instructions : Type 0
Instructions = List (Instruction ℕ)

abbrev toy_scripts : Scripts
toy_scripts = record {
  F = ℕ;
  Key = ℕ;
  Push = List ℕ;
  Builder = Instructions;
  Script = Instructions;
  new = [];
  push_x_only_key = λ k b. b ++ key k ∷ [];
  push_opcode = λ o b. b ++ op o ∷ [];
  push_slice = λ p b. b ++ bytes p ∷ [];
  into_script = λ b. b;
  try_from = λ xs. ok xs;
}

abbrev appending : Appends toy_scripts
appending = record {
  instructions = λ b. b;
  program = λ s. s;
  contents = λ p. p;
  news = refl;
  keys = λ k b. refl;
  ops = λ o b. refl;
  slices = λ p b. refl;
  intos = λ b. refl;
  tries = λ xs h. (xs, refl, refl);
}

build_reveal_script-Inscribes_example :
    Inscribes toy_scripts appending 7
      ((1 ∷ 2 ∷ []) ∷ [] ∷ [])
      (build_reveal_script toy_scripts 7 ((1 ∷ 2 ∷ []) ∷ [] ∷ []))
build_reveal_script-Inscribes_example =
    build_reveal_script-Inscribes toy_scripts appending 7 ((1 ∷ 2 ∷ []) ∷ [] ∷ [])

abbrev funded : Transaction ℕ Instructions
funded = record {
  version = 2;
  input =
      record {
        previous_output = record { txid = 4; vout = 1 };
        script_sig = [];
        sequence = enable_rbf_no_locktime;
        witness = [];
      }
      ∷ [];
  output = record { script_pubkey = []; value = 6 } ∷ [];
  lock_time = 0;
}

abbrev outpoints : List (OutPoint ℕ)
outpoints = record { txid = 4; vout = 1 } ∷ []

abbrev toy : Bitcoin
toy = record {
  scripts = toy_scripts;
  Txid = ℕ;
  Address = ℕ;
  Network = ℕ;
  FeeRate = ℕ;
  KeyPair = ℕ;
  Taproot = ℕ;
  SpendInfo = ℕ;
  ControlBlock = ℕ;
  Signature = ℕ;
  Raw = Transaction ℕ Instructions;
  World = List (OutPoint ℕ);
  schnorr_signature_size = 64;
  txid_zeros = 0;
  fill_bytes = λ w. ([], w);
  from_seckey_slice = λ xs. ok 3;
  public_key = λ pair. 7;
  add_leaf = λ script. ok 0;
  finalize = λ leaf k. some 0;
  control_block = λ info script. some 0;
  p2tr = λ k info network. 0;
  script_pubkey = λ address. [];
  to_bytes = λ script. [];
  serialize_control = λ control. [];
  signature_bytes = λ signature. [];
  vsize = λ tx. 100;
  fee_vb = λ rate vb. some 1;
  compute_txid = λ tx. 9;
  script_eq = λ a b. true;
  sighash = λ tx index prevout script. ok [];
  sign_schnorr = λ digest pair. ok 0;
  encode_version = λ version. ok [];
  encode_input = λ input. ok [];
  encode_output = λ output. ok [];
  encode_lock_time = λ time. ok [];
  fund_raw_transaction = λ raw fee change lock w. (ok funded, outpoints ++ w);
  sign_raw_transaction_with_wallet = λ tx w. (err 8, w);
  transaction = λ raw. ok raw;
  unlock_unspent = λ outs w. (ok tt, drop (length outs) w);
}

drop-append : {A : Type 0} (xs ys : List A) → drop (length xs) (xs ++ ys) ≡ ys
drop-append [] ys = refl
drop-append (x ∷ xs) ys = drop-append xs ys

toy-funds :
    (xs : List ℕ) (fee : Option ℕ) (change : ℕ) (w w' : List (OutPoint ℕ))
    (raw : Transaction ℕ Instructions)
    → ◌≡◌ {A = Result ℕ (Transaction ℕ Instructions) × List (OutPoint ℕ)}
        (ok funded, outpoints ++ w)
        (ok raw, w')
    → w' ≡ map (λ tx_in. tx_in.previous_output) raw.input ++ w
toy-funds xs fee change w w' raw h =
    let inputs : raw ≡ funded = cc h in rw inputs (sym (ap (λ r. r.1) h))

toy-shows :
    (raw tx : Transaction ℕ Instructions)
    → ◌≡◌ {A = Result ℕ (Transaction ℕ Instructions)} (ok raw) (ok tx)
    → map (λ tx_in. tx_in.previous_output) raw.input ≡ map (λ tx_in. tx_in.previous_output) tx.input
toy-shows raw tx h = let e : raw ≡ tx = cc h in rw e refl

abbrev wallet : Wallet toy
wallet = record {
  locked = λ w. w;
  spent = λ raw. map (λ tx_in. tx_in.previous_output) raw.input;
  funds = toy-funds;
  shows = toy-shows;
  funds_not = λ raw fee change lock w w' e h. cc h;
  signs = λ tx w. refl;
  unlocks = λ outs others w w' h u.
      sym (ap (λ r. r.1) u)
      ∙ subst (λ l. drop (length outs) l ≡ others) (sym h) (drop-append outs others);
  unlocks_not = λ outs w w' e u. cc u;
  fills = λ w. refl;
}

abbrev ctx : BuilderContext toy
ctx = record { fee_rate = 10; operator_l1_addr = 0; network = 0; amount = 5 }

create_inscription_tx-Settles_example :
    Settles toy wallet [] (create_inscription_tx toy ctx ((1 ∷ []) ∷ []) [])
create_inscription_tx-Settles_example =
    create_inscription_tx-Settles toy wallet ctx ((1 ∷ []) ∷ []) []

-- A batch is its number, and the queue keeps the numbers.
abbrev Desk : Type 0
Desk = List ℕ × List ℕ × List ℕ

abbrev next_batch : Desk → Result ℕ ℕ × Desk
next_batch ([], out, told) = (err 1, ([], out, told))
next_batch (b ∷ bs, out, told) = (ok b, (bs, out, told))

next_batch-published : (w : Desk) → (next_batch w).1.1 ≡ w.1
next_batch-published ([], out, told) = refl
next_batch-published (b ∷ bs, out, told) = refl

next_batch-announced : (w : Desk) → (next_batch w).1.2 ≡ w.2
next_batch-announced ([], out, told) = refl
next_batch-announced (b ∷ bs, out, told) = refl

abbrev line : Line
line = record {
  F = ℕ;
  Batch = ℕ;
  Bytes = ℕ;
  World = Desk;
  number = λ b. b;
  recv = next_batch;
  compute_keccak = λ xs. xs;
  hex_encode = λ xs. "id";
  serialize = λ message. ok message.body;
  publish = λ d w. (ok tt, (w.0, d ∷ w.1, w.2));
  broadcast_mojave_message = λ b w. (ok tt, (w.0, w.1, b ∷ w.2));
  interrupt = λ w. w;
}

abbrev journal : Journal line
journal = record {
  published = λ w. w.1;
  announced = λ w. w.2;
  recv_published = next_batch-published;
  recv_announced = next_batch-announced;
  publishes = λ d w w' h. ap (λ r. r.1.1) (sym h);
  publishes_not = λ d w w' e h. cc h;
  publish_announced = λ d w. refl;
  announces = λ b w w' h. ap (λ r. r.1.2) (sym h);
  announces_not = λ b w w' e h. cc h;
  broadcast_published = λ b w. refl;
  drops = λ w. (refl, inl refl);
}

run_until-IsOrderly_example : IsOrderly line journal (
    run_until
      (service line)
      (ran ∷ ran ∷ cancelled ∷ [])
      (running (record { service = (4 ∷ 5 ∷ [], [], []); cancel_token = Bool.false })))
run_until-IsOrderly_example =
    run_until-IsOrderly line journal (ran ∷ ran ∷ cancelled ∷ [])
      (running (record { service = (4 ∷ 5 ∷ [], [], []); cancel_token = Bool.false })) tt
