-- ===== src/BtcWatcher/Tests.antt =====
-- Readers of lists, where a 64-bit number is one cell, and a message that a transaction was added.
use mojave.Base.{
  ℕ, zero, suc, ◌≡◌, refl, ap, List, [], ◌∷◌, ◌++◌, length, some, Result, ok, err, arith,
}
use mojave.BtcWatcher.{tx_added, Reading, consensus_decode}
use mojave.BtcWatcher.Decoding.{ReadsBytes, consensus_decode-layout}

abbrev before : ℕ → Result ℕ (List ℕ × List ℕ) → Result ℕ (List ℕ × List ℕ)
before b (ok (bs, rest)) = ok (b ∷ bs, rest)
before b (err e) = err e

abbrev grab : ℕ → List ℕ → Result ℕ (List ℕ × List ℕ)
grab zero r = ok ([], r)
grab (suc n) [] = err 0
grab (suc n) (b ∷ r) = before b (grab n r)

abbrev one : List ℕ → Result ℕ (ℕ × List ℕ)
one [] = err 0
one (b ∷ r) = ok (b, r)

abbrev toy : Reading
toy = record { E = ℕ; Reader = List ℕ; read_exact = grab; read_u8 = one; read_u64 = one }

grab-append : (h rest : List ℕ) → grab (length h) (h ++ rest) ≡ ok (h, rest)
grab-append [] rest = refl
grab-append (b ∷ h) rest = ap (before b) (grab-append h rest)

abbrev reads : ReadsBytes toy
reads = record {
  bytes = λ l. l;
  le = λ n. n ∷ [];
  exact = grab-append;
  u8 = λ k rest. refl;
  u64 = λ n rest h. refl;
}

abbrev hash : List ℕ
hash =
    1 ∷ 2 ∷ 3 ∷ 4 ∷ 5 ∷ 6 ∷ 7 ∷ 8 ∷ 1 ∷ 2 ∷ 3 ∷ 4 ∷ 5 ∷ 6 ∷ 7 ∷ 8 ∷ 1 ∷ 2 ∷ 3 ∷ 4 ∷ 5 ∷ 6 ∷ 7 ∷ 8
    ∷ 1 ∷ 2 ∷ 3 ∷ 4 ∷ 5 ∷ 6 ∷ 7 ∷ 8 ∷ []

consensus_decode-layout_example :
    consensus_decode toy (hash ++ 65 ∷ 12345 ∷ [])
    ≡ ok (record { hash_bytes = hash; event = tx_added; mempool_seq = some 12345 }, [])
consensus_decode-layout_example =
    consensus_decode-layout toy reads hash tx_added 12345 [] refl tt (omega arith)
