-- ===== src/BatchSubmitter/Inscription.antt =====
-- crates/batch-submitter/src/builder.rs: the commit transaction and the reveal transaction. The types
-- and functions of the bitcoin crate, the wallet of bitcoind and the random bytes are the record
-- `Bitcoin`. An index out of range and an overflow of amounts panic, which unwinds past the unlocking.
pub mod Spends
pub mod Locks
use mojave.Base.{
  ℕ, zero, suc, ◌+◌, ◌^◌, String, Bool, true, false, ◌&&◌, Option, none, some, List, [], ◌∷◌, ◌++◌,
  map, ltb, eqb, if◌then◌else◌, Result, ok, err, map_err, ok_or,
}
use mojave.Base.Programs.{Program, pure, raise, lift, converting, ◌>>=◌}
use mojave.BatchSubmitter.{
  Error, internal, bitcoin_io_error, bitcoin_rpc_error, encode_error, secp256k1_error,
  sighash_taproot_error, taproot_error,
}
use mojave.BatchSubmitter.Scripts.{Scripts, build_reveal_script}

pub data Stop (F : Type 0) : Type 0 where
  failed : Error F → Stop F
  panicked : Stop F

pub record OutPoint (Txid : Type 0) : Type 0 where
  pub txid : Txid
  pub vout : ℕ

pub data Sequence : Type 0 where
  enable_rbf_no_locktime : Sequence
  other_sequence : ℕ → Sequence

pub record TxIn (Txid Script : Type 0) : Type 0 where
  pub previous_output : OutPoint Txid
  pub script_sig : Script
  pub sequence : Sequence
  pub witness : List (List ℕ)

pub record TxOut (Script : Type 0) : Type 0 where
  pub script_pubkey : Script
  pub value : ℕ

pub record Transaction (Txid Script : Type 0) : Type 0 where
  pub version : ℕ
  pub input : List (TxIn Txid Script)
  pub output : List (TxOut Script)
  pub lock_time : ℕ

pub record Bitcoin : Type 1 where
  pub scripts : Scripts
  pub Txid : Type 0
  pub Address : Type 0
  pub Network : Type 0
  pub FeeRate : Type 0
  pub KeyPair : Type 0
  pub Taproot : Type 0
  pub SpendInfo : Type 0
  pub ControlBlock : Type 0
  pub Signature : Type 0
  pub Raw : Type 0
  -- the wallet and its locked outputs, and the source of randomness
  pub World : Type 0
  pub schnorr_signature_size : ℕ
  pub txid_zeros : Txid
  pub fill_bytes : World → List ℕ × World
  pub from_seckey_slice : List ℕ → Result scripts.F KeyPair
  pub public_key : KeyPair → scripts.Key
  -- a tree of the one leaf, with the version of tapscripts
  pub add_leaf : scripts.Script → Result scripts.F Taproot
  pub finalize : Taproot → scripts.Key → Option SpendInfo
  pub control_block : SpendInfo → scripts.Script → Option ControlBlock
  -- `Address::p2tr` of the key and of the root of the tree
  pub p2tr : scripts.Key → SpendInfo → Network → Address
  pub script_pubkey : Address → scripts.Script
  pub to_bytes : scripts.Script → List ℕ
  pub serialize_control : ControlBlock → List ℕ
  pub signature_bytes : Signature → List ℕ
  pub vsize : Transaction Txid scripts.Script → ℕ
  pub fee_vb : FeeRate → ℕ → Option ℕ
  pub compute_txid : Transaction Txid scripts.Script → Txid
  pub script_eq : scripts.Script → scripts.Script → Bool
  pub sighash :
      Transaction Txid scripts.Script
      → ℕ
      → TxOut scripts.Script
      → scripts.Script
      → Result scripts.F (List ℕ)
  -- with `Message::from_digest_slice`
  pub sign_schnorr : List ℕ → KeyPair → Result scripts.F Signature
  -- `consensus_encode` of the parts that `encode_tx_non_segwit` writes
  pub encode_version : ℕ → Result scripts.F (List ℕ)
  pub encode_input : List (TxIn Txid scripts.Script) → Result scripts.F (List ℕ)
  pub encode_output : List (TxOut scripts.Script) → Result scripts.F (List ℕ)
  pub encode_lock_time : ℕ → Result scripts.F (List ℕ)
  pub fund_raw_transaction : List ℕ → Option ℕ → ℕ → Bool → Program World scripts.F Raw
  pub sign_raw_transaction_with_wallet :
      Transaction Txid scripts.Script → Program World scripts.F Raw
  pub transaction : Raw → Result scripts.F (Transaction Txid scripts.Script)
  pub unlock_unspent : List (OutPoint Txid) → Program World scripts.F (Unit {0})

pub record BuilderContext (bitcoin : Bitcoin) : Type 0 where
  pub fee_rate : bitcoin.FeeRate
  pub operator_l1_addr : bitcoin.Address
  pub network : bitcoin.Network
  pub amount : ℕ

module _ (bitcoin : Bitcoin) where
  open bitcoin use {
    scripts, Txid, Address, Network, FeeRate, KeyPair, SpendInfo, ControlBlock, World,
    schnorr_signature_size, txid_zeros, fill_bytes, from_seckey_slice, public_key, add_leaf,
    finalize, control_block, p2tr, script_pubkey, to_bytes, serialize_control, signature_bytes,
    vsize, fee_vb, compute_txid, script_eq, sighash, sign_schnorr, encode_version, encode_input,
    encode_output, encode_lock_time, fund_raw_transaction, sign_raw_transaction_with_wallet,
    transaction, unlock_unspent,
  }
  open scripts use {F, Key, Script, new, into_script}

  abbrev pub Tx : Type 0
  Tx = Transaction Txid Script

  -- a program of this module, and a result with its errors in the source's type
  abbrev pub Build : Type 0 → Type 0
  Build = Program World (Stop F)

  abbrev pub fails : {A : Type 0} → Result (Error F) A → Result (Stop F) A
  fails r = map_err failed r

  generate_key_pair : Build KeyPair
  generate_key_pair world = (
    fails (map_err secp256k1_error (from_seckey_slice (fill_bytes world).0)),
    (fill_bytes world).1,
  )

  joined :
      Result F (List ℕ)
      → Result F (List ℕ)
      → Result F (List ℕ)
      → Result F (List ℕ)
      → Result F (List ℕ)
  joined version input output lock_time = elim version [
    | err e ↦ err e
    | ok a ↦ elim input [
      | err e ↦ err e
      | ok b ↦ elim output [
        | err e ↦ err e
        | ok c ↦ elim lock_time [ err e ↦ err e | ok d ↦ ok (a ++ b ++ c ++ d) ]
      ]
    ]
  ]

  unfoldable pub encode_tx_non_segwit : Tx → Result F (List ℕ)
  unfolding joined
  encode_tx_non_segwit tx =
      joined (encode_version tx.version) (encode_input tx.input) (encode_output tx.output)
        (encode_lock_time tx.lock_time)

  -- The fee rate is given in satoshi for 1000 vbytes, change goes to the second output, and the
  -- outputs spent are locked.
  unfoldable pub fund_tx : BuilderContext bitcoin → Tx → Build Tx
  fund_tx ctx tx = do
    tx_raw ← lift (fails (map_err bitcoin_io_error (encode_tx_non_segwit tx)))
    funded ←
        converting (λ e. failed (bitcoin_rpc_error e))
          (fund_raw_transaction tx_raw (fee_vb ctx.fee_rate 1000) 1 true)
    lift (fails (map_err encode_error (transaction funded)))

  abbrev zeros : ℕ → List ℕ
  zeros zero = []
  zeros (suc n) = 0 ∷ zeros n

  -- The sum of two `Amount`s panics where it overflows.
  amount_add : ℕ → ℕ → Result (Stop F) ℕ
  amount_add a b = if ltb (a + b) (2 ^ 64) then ok (a + b) else err panicked

  reveal_input : OutPoint Txid → List (List ℕ) → TxIn Txid Script
  reveal_input outpoint witness = record {
    previous_output = outpoint;
    script_sig = into_script new;
    sequence = enable_rbf_no_locktime;
    witness = witness;
  }

  reveal_tx : ℕ → Address → TxIn Txid Script → Tx
  reveal_tx amount recipient input = record {
    version = 2;
    input = input ∷ [];
    output = record { script_pubkey = script_pubkey recipient; value = amount } ∷ [];
    lock_time = 0;
  }

  -- the transaction that the estimate of the fee is made on
  abbrev pub estimate_tx : ℕ → Address → Script → ControlBlock → Tx
  unfolding reveal_tx reveal_input
  estimate_tx amount recipient reveal_script control = reveal_tx amount recipient (
      reveal_input (record { txid = txid_zeros; vout = 0 })
        (zeros schnorr_signature_size ∷ to_bytes reveal_script ∷ serialize_control control ∷ []))

  with_fee : ℕ → Option ℕ → Result (Stop F) ℕ
  unfolding amount_add
  with_fee amount none = err (failed (internal "Overflow error"))
  with_fee amount (some fee) = amount_add fee amount

  unfoldable pub calculate_reveal_input_value :
      ℕ → FeeRate → Address → Script → ControlBlock → Result (Stop F) ℕ
  unfolding with_fee estimate_tx
  calculate_reveal_input_value amount fee_rate recipient reveal_script control =
      with_fee amount (fee_vb fee_rate (vsize (estimate_tx amount recipient reveal_script control)))

  unfoldable pub build_unfunded_commit_tx : Address → ℕ → Tx
  build_unfunded_commit_tx recipient output_value = record {
    version = 2;
    input = [];
    output = record { script_pubkey = script_pubkey recipient; value = output_value } ∷ [];
    lock_time = 0;
  }

  -- `witness_mut(0)` with its three pushes
  push_witness : Tx → List (List ℕ) → Result (Stop F) Tx
  push_witness tx items = elim tx.input [
    | [] ↦ err (failed (internal "Unable to get witness"))
    | input ∷ inputs ↦
        ok (record tx { input = record input { witness = input.witness ++ items } ∷ inputs })
  ]

  first_output : Tx → Result (Stop F) (TxOut Script)
  first_output tx = elim tx.output [ [] ↦ err panicked | out ∷ outs ↦ ok out ]

  unfoldable pub build_and_sign_reveal_tx :
      ℕ → Address → Tx → Script → ControlBlock → KeyPair → Build Tx
  unfolding push_witness first_output reveal_tx reveal_input
  build_and_sign_reveal_tx amount recipient unsigned_commit_tx reveal_script control key_pair = do
    let outpoint : OutPoint Txid = record { txid = compute_txid unsigned_commit_tx; vout = 0 }
    let tx = reveal_tx amount recipient (reveal_input outpoint [])
    prevout ← lift (first_output unsigned_commit_tx)
    digest ← lift (fails (map_err sighash_taproot_error (sighash tx 0 prevout reveal_script)))
    signature ← lift (fails (map_err secp256k1_error (sign_schnorr digest key_pair)))
    lift (
        push_witness tx
          (signature_bytes signature ∷ to_bytes reveal_script ∷ serialize_control control ∷ []))

  -- `!=` on outputs
  abbrev pub same_output : TxOut Script → TxOut Script → Bool
  same_output a b = script_eq a.script_pubkey b.script_pubkey && eqb a.value b.value

  -- what the closure of `create_inscription_tx` uses beside the funded transaction
  pub record Reveal : Type 0 where
    pub reveal_script : Script
    pub control : ControlBlock
    pub key_pair : KeyPair
    pub unfunded_commit_tx : Tx

  check_commitment : Bool → Result (Stop F) (Unit {0})
  check_commitment true = ok tt
  check_commitment false = err (failed (internal "Unexpected error"))

  unfoldable pub sign_both : BuilderContext bitcoin → Reveal → Tx → Build (Tx × Tx)
  unfolding check_commitment first_output
  sign_both ctx r unsigned_commit_tx = do
    funded_out ← lift (first_output unsigned_commit_tx)
    commit_out ← lift (first_output r.unfunded_commit_tx)
    _ ← lift (check_commitment (same_output funded_out commit_out))
    signed_reveal_tx ←
        build_and_sign_reveal_tx ctx.amount ctx.operator_l1_addr unsigned_commit_tx r.reveal_script
          r.control r.key_pair
    signed ←
        converting (λ e. failed (bitcoin_rpc_error e))
          (sign_raw_transaction_with_wallet unsigned_commit_tx)
    signed_commit_tx ← lift (fails (map_err encode_error (transaction signed)))
    pure (signed_commit_tx, signed_reveal_tx)

  -- An error of the closure unlocks the outputs; what the unlocking returns is ignored.
  unlock_on_error :
      List (OutPoint Txid) → Result (Stop F) (Tx × Tx) × World → Result (Stop F) (Tx × Tx) × World
  unlock_on_error outpoints (ok txs, world) = (ok txs, world)
  unlock_on_error outpoints (err (failed e), world) =
      (err (failed e), (unlock_unspent outpoints world).1)
  unlock_on_error outpoints (err panicked, world) = (err panicked, world)

  abbrev pub outpoints_of : Tx → List (OutPoint Txid)
  outpoints_of tx = map (λ tx_in. tx_in.previous_output) tx.input

  -- from the funding on
  unfoldable pub fund_and_sign : BuilderContext bitcoin → Reveal → Build (Tx × Tx)
  unfolding unlock_on_error
  fund_and_sign ctx r = do
    unsigned ← fund_tx ctx r.unfunded_commit_tx
    λ world. unlock_on_error (outpoints_of unsigned) (sign_both ctx r unsigned world)

  unfoldable pub create_inscription_tx : BuilderContext bitcoin → List (List ℕ) → Build (Tx × Tx)
  unfolding generate_key_pair
  create_inscription_tx ctx payloads = do
    key_pair ← generate_key_pair
    let key = public_key key_pair
    reveal_script ← lift (fails (build_reveal_script scripts key payloads))
    leaf ← lift (fails (map_err taproot_error (add_leaf reveal_script)))
    info ← lift (fails (ok_or (finalize leaf key) (internal "Unable to create taproot spend info")))
    control ←
        lift (
          fails (ok_or (control_block info reveal_script) (internal "Cannot create control block")))
    commit_value ← lift (
        calculate_reveal_input_value ctx.amount ctx.fee_rate ctx.operator_l1_addr reveal_script
          control)
    let unfunded = build_unfunded_commit_tx (p2tr key info ctx.network) commit_value
    fund_and_sign ctx (record {
      reveal_script = reveal_script;
      control = control;
      key_pair = key_pair;
      unfunded_commit_tx = unfunded;
    })
