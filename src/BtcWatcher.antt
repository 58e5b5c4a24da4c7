-- ===== src/BtcWatcher.antt =====
-- crates/btc-watcher/src/sequence.rs, multi.rs and watch/watcher.rs: messages of a Bitcoin node are
-- decoded and broadcast. A message is its frames. The readers of the `bitcoin` crate and the channel
-- are parameters.
pub mod Watch
pub mod Decoding
mod Tests
use mojave.Base.{
  ℕ, suc, ◌<◌, String, Bool, true, false, Option, none, some, List, [], ◌∷◌, length, ltb, eqb,
  if◌then◌else◌, Result, ok, err, ◌>>=◌, map_err, string_key, KeyEq,
}
use mathlib.Core.List.{reverse}

pub data SequenceEvent : Type 0 where
  block_connected block_disconnected tx_added tx_removed : SequenceEvent
  unknown : ℕ → SequenceEvent

pub record Sequence : Type 0 where
  pub hash_bytes : List ℕ
  pub event : SequenceEvent
  pub mempool_seq : Option ℕ

-- `b'C'`, `b'D'`, `b'A'` and `b'R'`
abbrev pub event_of : ℕ → SequenceEvent
event_of kind =
    if eqb kind 67
    then block_connected
    else if eqb kind 68
    then block_disconnected
    else if eqb kind 65
    then tx_added
    else if eqb kind 82
    then tx_removed
    else unknown kind

unfoldable pub is_block : Sequence → Bool
is_block self = elim self.event [
  | block_connected ↦ true
  | block_disconnected ↦ true
  | tx_added ↦ false
  | tx_removed ↦ false
  | unknown x ↦ false
]

unfoldable pub is_reorg_signal : Sequence → Bool
is_reorg_signal self = elim self.event [
  | block_connected ↦ false
  | block_disconnected ↦ true
  | tx_added ↦ false
  | tx_removed ↦ false
  | unknown x ↦ false
]

-- what `txid` and `block_hash` wrap
unfoldable pub internal_bytes : Sequence → List ℕ
internal_bytes self = reverse self.hash_bytes

-- the readers, each with what it leaves to be read
pub record Reading : Type 1 where
  pub E : Type 0
  pub Reader : Type 0
  pub read_exact : ℕ → Reader → Result E (List ℕ × Reader)
  pub read_u8 : Reader → Result E (ℕ × Reader)
  pub read_u64 : Reader → Result E (ℕ × Reader)

module _ (reading : Reading) where
  open reading use {E, Reader, read_exact, read_u8, read_u64}

  some_seq : Result E (ℕ × Reader) → Result E (Option ℕ × Reader)
  some_seq (ok (n, r)) = ok (some n, r)
  some_seq (err e) = err e

  unfoldable pub read_mempool_seq : SequenceEvent → Reader → Result E (Option ℕ × Reader)
  unfolding some_seq
  read_mempool_seq tx_added r = some_seq (read_u64 r)
  read_mempool_seq tx_removed r = some_seq (read_u64 r)
  read_mempool_seq block_connected r = ok (none, r)
  read_mempool_seq block_disconnected r = ok (none, r)
  read_mempool_seq (unknown x) r = ok (none, r)

  after_seq : List ℕ → SequenceEvent → Result E (Option ℕ × Reader) → Result E (Sequence × Reader)
  after_seq hash_bytes event (err e) = err e
  after_seq hash_bytes event (ok (mempool_seq, r)) =
      ok (record { hash_bytes = hash_bytes; event = event; mempool_seq = mempool_seq }, r)

  after_kind : List ℕ → Result E (ℕ × Reader) → Result E (Sequence × Reader)
  unfolding after_seq
  after_kind hash_bytes (err e) = err e
  after_kind hash_bytes (ok (kind, r)) =
      after_seq hash_bytes (event_of kind) (read_mempool_seq (event_of kind) r)

  after_hash : Result E (List ℕ × Reader) → Result E (Sequence × Reader)
  unfolding after_kind
  after_hash (err e) = err e
  after_hash (ok (hash_bytes, r)) = after_kind hash_bytes (read_u8 r)

  unfoldable pub consensus_decode : Reader → Result E (Sequence × Reader)
  unfolding after_hash
  consensus_decode r = after_hash (read_exact 32 r)

pub data Multi (Block Transaction : Type 0) : Type 0 where
  block : Block → Multi Block Transaction
  transaction : Transaction → Multi Block Transaction
  sequence : Sequence → Multi Block Transaction

pub data Error (E : Type 0) : Type 0 where
  deserialization_error : E → Error E
  parse_failed : String → Error E
  send_error : Error E

module _ {E Bytes Block Transaction : Type 0} (block_of : Bytes → Result E Block)
    (transaction_of : Bytes → Result E Transaction) (sequence_of : Bytes → Result E Sequence) where
  unfoldable pub decode : String → Bytes → Result (Error E) (Multi Block Transaction)
  decode topic payload =
      if string_key.same topic "rawblock"
      then map_err deserialization_error (block_of payload) >>= (λ b. ok (block b))
      else if string_key.same topic "rawtx"
      then map_err deserialization_error (transaction_of payload) >>= (λ tx. ok (transaction tx))
      else if string_key.same topic "sequence"
      then map_err deserialization_error (sequence_of payload) >>= (λ seq. ok (sequence seq))
      else err (parse_failed "Unknown topic")

module _ {E Bytes T Sender : Type 0} (from_utf8 : Bytes → Option String)
    (decode_item : String → Bytes → Result (Error E) T) (send : Sender → T → Sender × Bool) where
  -- by whether the channel took the item
  offered : Sender × Bool → Sender × Result (Error E) (Unit {0})
  offered (sender, true) = (sender, ok tt)
  offered (sender, false) = (sender, err send_error)

  received : Sender → Result (Error E) T → Sender × Result (Error E) (Unit {0})
  unfolding offered
  received sender (err e) = (sender, err e)
  received sender (ok item) = offered (send sender item)

  topical : Sender → Option String → Bytes → Sender × Result (Error E) (Unit {0})
  unfolding received
  topical sender none payload = (sender, err (parse_failed "topic frame is not valid UTF-8"))
  topical sender (some topic) payload = received sender (decode_item topic payload)

  -- Messages of fewer than two frames are skipped.
  unfoldable pub process_message : Sender → List Bytes → Sender × Result (Error E) (Unit {0})
  unfolding topical
  process_message sender [] = (sender, ok tt)
  process_message sender (topic ∷ []) = (sender, ok tt)
  process_message sender (topic ∷ payload ∷ rest) = topical sender (from_utf8 topic) payload
