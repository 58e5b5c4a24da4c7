-- ===== src/BtcWatcher/Decoding.antt =====
-- Sequence messages in the layout of bitcoind.
use mojave.Base.{
  ℕ, ◌<◌, ◌^◌, ◌≡◌, ◌≢◌, arith, refl, ap, sym, ◌∙◌, List, [], ◌∷◌, ◌++◌, length, Option, none, some,
  ok,
}
use mojave.BtcWatcher.{
  SequenceEvent, block_connected, block_disconnected, tx_added, tx_removed, unknown, event_of,
  Reading, some_seq, read_mempool_seq, after_seq, after_kind, after_hash, consensus_decode,
}

module _ (reading : Reading) where
  open reading use {E, Reader, read_exact, read_u8, read_u64}

  -- The readers take bytes from the front, and numbers in the order of `le`.
  pub record ReadsBytes : Type 0 where
    pub bytes : List ℕ → Reader
    pub le : ℕ → List ℕ
    pub exact : (h rest : List ℕ) → read_exact (length h) (bytes (h ++ rest)) ≡ ok (h, bytes rest)
    pub u8 : (k : ℕ) (rest : List ℕ) → read_u8 (bytes (k ∷ rest)) ≡ ok (k, bytes rest)
    pub u64 :
        (n : ℕ) (rest : List ℕ) → n < 2 ^ 64 → read_u64 (bytes (le n ++ rest)) ≡ ok (n, bytes rest)

  module _ (reads : ReadsBytes) where
    open reads use {bytes, le}

    -- the end of a message, and what is read of it
    abbrev pub mempool_bytes : SequenceEvent → ℕ → List ℕ
    mempool_bytes tx_added n = le n
    mempool_bytes tx_removed n = le n
    mempool_bytes block_connected n = []
    mempool_bytes block_disconnected n = []
    mempool_bytes (unknown x) n = []

    abbrev pub mempool_of : SequenceEvent → ℕ → Option ℕ
    mempool_of tx_added n = some n
    mempool_of tx_removed n = some n
    mempool_of block_connected n = none
    mempool_of block_disconnected n = none
    mempool_of (unknown x) n = none

    read_mempool_seq-mempool_bytes :
        (event : SequenceEvent) (n : ℕ) (rest : List ℕ)
        → n < 2 ^ 64
        → read_mempool_seq reading event (bytes (mempool_bytes event n ++ rest))
          ≡ ok (mempool_of event n, bytes rest)
    unfolding read_mempool_seq some_seq
    read_mempool_seq-mempool_bytes tx_added n rest h = ap (some_seq reading) (reads.u64 n rest h)
    read_mempool_seq-mempool_bytes tx_removed n rest h = ap (some_seq reading) (reads.u64 n rest h)
    read_mempool_seq-mempool_bytes block_connected n rest h = refl
    read_mempool_seq-mempool_bytes block_disconnected n rest h = refl
    read_mempool_seq-mempool_bytes (unknown x) n rest h = refl

    -- The byte of a kind as bitcoind writes it, from the texts of the protocol: C, D, A and R.
    abbrev pub kind_byte : SequenceEvent → ℕ
    kind_byte block_connected = 67
    kind_byte block_disconnected = 68
    kind_byte tx_added = 65
    kind_byte tx_removed = 82
    kind_byte (unknown x) = x

    -- An unknown kind is none of the four.
    abbrev pub IsKind : SequenceEvent → Type 0
    IsKind (unknown x) = (x ≢ 67) × (x ≢ 68) × (x ≢ 65) × (x ≢ 82)
    IsKind _ = Unit

    event_of-kind_byte : (event : SequenceEvent) → IsKind event → event_of (kind_byte event) ≡ event
    event_of-kind_byte block_connected h = refl
    event_of-kind_byte block_disconnected h = refl
    event_of-kind_byte tx_added h = refl
    event_of-kind_byte tx_removed h = refl
    event_of-kind_byte (unknown x) h = ground (arith, h)

    -- A message of a hash of 32 bytes, the byte of a kind, and, for the transaction kinds only, a
    -- mempool sequence number below 2 ^ 64, is decoded into the hash, the event that was written, and
    -- the number where there is one; any byte that is none of the four kinds is an unknown event. What
    -- follows the message is left unread.
    pub consensus_decode-layout :
        (hash : List ℕ) (event : SequenceEvent) (n : ℕ) (rest : List ℕ)
        → length hash ≡ 32
        → IsKind event
        → n < 2 ^ 64
        → consensus_decode reading
            (bytes (hash ++ kind_byte event ∷ (mempool_bytes event n ++ rest)))
          ≡ ok (
            record { hash_bytes = hash; event = event; mempool_seq = mempool_of event n },
            bytes rest,
          )
    unfolding consensus_decode after_hash after_kind after_seq
    consensus_decode-layout hash event n rest h known small =
        let tail = mempool_bytes event n ++ rest in
        ap (λ l. after_hash reading (read_exact l (bytes (hash ++ kind_byte event ∷ tail)))) (sym h)
        ∙ ap (after_hash reading) (reads.exact hash (kind_byte event ∷ tail))
        ∙ ap (after_kind reading hash) (reads.u8 (kind_byte event) tail)
        ∙ rw (event_of-kind_byte event known)
            (ap (after_seq reading hash event) (read_mempool_seq-mempool_bytes event n rest small))
