-- ===== src/BlockProducer/Diffs.antt =====
-- crates/block-producer/src/block_producer.rs: the diffs of accounts that a transaction makes, their
-- merge into those of the block, and their size. `Ledger` is what is called of ethrex; the fields of
-- its records are those that the code reads.
pub mod Merge
use Prim.Native.String.{◌++◌ as append}
use mojave.Base.{
  ℕ, ◌+◌, ◌-◌, ◌*◌, ◌%◌, ◌^◌, String, Bool, true, false, Option, none, some, List, [], ◌∷◌, length,
  ltb, if◌then◌else◌, KeyEq, ◌==◌, Result, ok, err, ◌>>=◌, map_err, ok_or,
}
use mojave.Base.Collections.{get, put}

abbrev pub u64_add : ℕ → ℕ → ℕ
u64_add a b = (a + b) % 2 ^ 64

-- `a - b` and `a * b` on `u64`, and `a + b` on `u16`, which wrap in a release build
abbrev pub u64_sub : ℕ → ℕ → ℕ
u64_sub a b = (a + 2 ^ 64 - b) % 2 ^ 64

abbrev pub u64_mul : ℕ → ℕ → ℕ
u64_mul a b = (a * b) % 2 ^ 64

abbrev pub u16_add : ℕ → ℕ → ℕ
u16_add a b = (a + b) % 2 ^ 16

pub data Error (F : Type 0) : Type 0 where
  failed_to_get_data_from : String → Error F
  try_into_error storage_data_is_none : Error F
  failed_to_encode_account_state_diff : F → Error F
  other : F → Error F

pub data StateDiffError (F : Type 0) : Type 0 where
  empty_account_diff : StateDiffError F
  failed : F → StateDiffError F

pub record AccountStateDiff (Balance Slot Word Code CodeHash : Type 0) : Type 0 where
  pub new_balance : Option Balance
  pub nonce_diff : ℕ
  pub storage : List (Slot × Word)
  pub bytecode : Option Code
  pub bytecode_hash : Option CodeHash

pub record Account (Balance Slot Word CodeHash : Type 0) : Type 0 where
  pub balance : Balance
  pub nonce : ℕ
  pub code_hash : CodeHash
  pub slots : List (Slot × Word)

pub record Backup (Address Balance Slot Word CodeHash : Type 0) : Type 0 where
  pub original_accounts_info : List (Address × Account Balance Slot Word CodeHash)
  pub original_account_storage_slots : List (Address × List (Slot × Word))

pub record Ledger : Type 1 where
  pub F : Type 0
  pub Address : Type 0
  pub Balance : Type 0
  pub Slot : Type 0
  pub Word : Type 0
  pub Code : Type 0
  pub CodeHash : Type 0
  pub Bytes : Type 0
  pub address_key : KeyEq Address
  pub balance_key : KeyEq Balance
  pub slot_key : KeyEq Slot
  pub hash_key : KeyEq CodeHash
  -- `AccountStateDiff::encode`
  pub encode :
      AccountStateDiff Balance Slot Word Code CodeHash → Address → Result (StateDiffError F) Bytes
  pub bytes_len : Bytes → ℕ
  -- the virtual machine's database: the backup of the last transaction, and the cache
  pub Db : Type 0
  pub get_tx_backup : Db → Result String (Backup Address Balance Slot Word CodeHash)
  pub current_account : Db → Address → Option (Account Balance Slot Word CodeHash)
  pub codes : Db → CodeHash → Option Code

module _ (ledger : Ledger) where
  open ledger use {
    F, Address, Balance, Slot, Word, Code, CodeHash, Bytes, address_key, balance_key, slot_key,
    hash_key, encode, bytes_len, Db, get_tx_backup, current_account, codes,
  }

  abbrev pub Diff : Type 0
  Diff = AccountStateDiff Balance Slot Word Code CodeHash

  abbrev pub Diffs : Type 0
  Diffs = List (Address × Diff)

  abbrev pub or : {A : Type 0} → Option A → Option A → Option A
  or none old = old
  or (some new) old = some new

  -- `BTreeMap::extend`
  unfoldable pub extend : List (Slot × Word) → List (Slot × Word) → List (Slot × Word)
  extend old [] = old
  extend old ((slot, word) ∷ new) = extend (put ⦃e = slot_key⦄ slot word old) new

  unfoldable pub merge_existing : Diff → Diff → Diff
  merge_existing existing_diff diff = record {
    new_balance = or diff.new_balance existing_diff.new_balance;
    nonce_diff = u16_add existing_diff.nonce_diff diff.nonce_diff;
    storage = extend existing_diff.storage diff.storage;
    bytecode = or diff.bytecode existing_diff.bytecode;
    bytecode_hash = or diff.bytecode_hash existing_diff.bytecode_hash;
  }

  abbrev pub merge_one : Option Diff → Diff → Diff
  merge_one none diff = diff
  merge_one (some existing_diff) diff = merge_existing existing_diff diff

  unfoldable pub merge_diffs : Diffs → Diffs → Diffs
  unfolding merge_one
  merge_diffs merged_diffs [] = merged_diffs
  merge_diffs merged_diffs ((address, diff) ∷ tx_diffs) =
      merge_diffs
        (put ⦃e = address_key⦄ address (merge_one (get ⦃e = address_key⦄ address merged_diffs) diff)
          merged_diffs)
        tx_diffs

  unfoldable pub add_size : Result (StateDiffError F) Bytes → ℕ → Result (Error F) ℕ
  add_size (ok encoded) size = ok (u64_add size (bytes_len encoded))
  add_size (err empty_account_diff) size = ok size
  add_size (err (failed e)) size = err (failed_to_encode_account_state_diff e)

  unfoldable pub diffs_size : Diffs → ℕ → Result (Error F) ℕ
  unfolding add_size
  diffs_size [] size = ok size
  diffs_size ((address, diff) ∷ diffs) size =
      add_size (encode diff address) size >>= λ size'. diffs_size diffs size'

  -- `messages` is the number of messages in the receipt.
  unfoldable pub calculate_tx_diff_size : Diffs → Bool → ℕ → ℕ → ℕ → Result (Error F) (ℕ × ℕ)
  calculate_tx_diff_size merged_diffs is_deposit messages deposits_log_len messages_log_len = do
    new_accounts_diff_size ← diffs_size merged_diffs 0
    ok (
      u64_add (if is_deposit then deposits_log_len else 0) (u64_mul messages messages_log_len),
      new_accounts_diff_size,
    )

  -- `u16::try_from`
  try_into_u16 : ℕ → Result (Error F) ℕ
  try_into_u16 n = if ltb n (2 ^ 16) then ok n else err try_into_error

  new_code : Db → Account Balance Slot Word CodeHash → CodeHash → Result (Error F) (Option Code)
  new_code db account original_hash =
      if hash_key.same account.code_hash original_hash then ok none else do
        code ← ok_or (codes db account.code_hash) (failed_to_get_data_from "Code DB Cache")
        ok (some code)

  unfoldable pub account_diff :
      Db → Address → Account Balance Slot Word CodeHash → Result (Error F) Diff
  unfolding try_into_u16 new_code
  account_diff db address original_account = do
    new_account ← ok_or (current_account db address) (failed_to_get_data_from "DB Cache")
    nonce_diff ← try_into_u16 (u64_sub new_account.nonce original_account.nonce)
    bytecode ← new_code db new_account original_account.code_hash
    ok (record {
      new_balance =
          if balance_key.same new_account.balance original_account.balance
          then none
          else some new_account.balance;
      nonce_diff = nonce_diff;
      storage = [];
      bytecode = bytecode;
      bytecode_hash = none;
    })

  unfoldable pub account_diffs :
      Db → List (Address × Account Balance Slot Word CodeHash) → Diffs → Result (Error F) Diffs
  unfolding account_diff
  account_diffs db [] modified_accounts = ok modified_accounts
  account_diffs db ((address, original_account) ∷ rest) modified_accounts =
      account_diff db address original_account >>= λ diff.
      account_diffs db rest (put ⦃e = address_key⦄ address diff modified_accounts)

  unfoldable pub added_storage :
      Account Balance Slot Word CodeHash
      → List (Slot × Word)
      → List (Slot × Word)
      → Result (Error F) (List (Slot × Word))
  added_storage account [] added = ok added
  added_storage account ((key, word) ∷ rest) added =
      ok_or (get ⦃e = slot_key⦄ key account.slots) (failed_to_get_data_from "Account info Storage")
      >>= λ value. added_storage account rest (put ⦃e = slot_key⦄ key value added)

  -- A new diff with no slot would be the default one, which is not inserted.
  with_storage : Option Diff → List (Slot × Word) → Address → Diffs → Diffs
  with_storage (some diff) added address modified_accounts =
      put ⦃e = address_key⦄ address (record diff { storage = added }) modified_accounts
  with_storage none [] address modified_accounts = modified_accounts
  with_storage none (slot ∷ slots) address modified_accounts =
      put ⦃e = address_key⦄ address
        (record {
          new_balance = none;
          nonce_diff = 0;
          storage = slot ∷ slots;
          bytecode = none;
          bytecode_hash = none;
        })
        modified_accounts

  unfoldable pub storage_diffs :
      Db → List (Address × List (Slot × Word)) → Diffs → Result (Error F) Diffs
  unfolding with_storage
  storage_diffs db [] modified_accounts = ok modified_accounts
  storage_diffs db ((address, slots) ∷ rest) modified_accounts =
      ok_or (current_account db address) (failed_to_get_data_from "DB Cache") >>= λ account.
      added_storage account slots [] >>= λ added. storage_diffs db rest (
        with_storage (get ⦃e = address_key⦄ address modified_accounts) added address
          modified_accounts)

  backup_error : String → Error F
  backup_error e = failed_to_get_data_from (append "TransactionBackup: " e)

  unfoldable pub get_account_diffs_in_tx : Db → Result (Error F) Diffs
  unfolding backup_error
  get_account_diffs_in_tx db = do
    backup ← map_err backup_error (get_tx_backup db)
    modified_accounts ← account_diffs db backup.original_accounts_info []
    storage_diffs db backup.original_account_storage_slots modified_accounts
