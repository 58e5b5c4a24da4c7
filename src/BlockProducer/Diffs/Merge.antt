-- ===== src/BlockProducer/Diffs/Merge.antt =====
-- What `merge_diffs` does to each account.
use mojave.Base.{
  ℕ, ◌+◌, ◌%◌, ◌≡◌, refl, ap, ◌∙◌, List, [], ◌∷◌, map, Option, some, none, if◌then◌else◌,
  Bool-cases, inl, inr,
}
use mojave.Base.Collections.{get, put, get-put}
use mojave.BlockProducer.Diffs.{
  Ledger, Diff, Diffs, AccountStateDiff, extend, merge_existing, merge_one, merge_diffs,
}

-- the last value that there is, or the first
abbrev pub last_of : {A : Type 0} → Option A → List (Option A) → Option A
last_of old [] = old
last_of old (none ∷ later) = last_of old later
last_of old (some a ∷ later) = last_of (some a) later

-- a sum on `u16`, which wraps
abbrev pub sum16 : ℕ → List ℕ → ℕ
sum16 n [] = n
sum16 n (m ∷ ms) = sum16 ((n + m) % 65536) ms

module _ (ledger : Ledger) where
  open ledger use {Address, Slot, Word, address_key, slot_key}

  -- the word that the last entry of a slot writes
  abbrev pub written : Slot → Option Word → List (Slot × Word) → Option Word
  written slot old [] = old
  written slot old ((key, word) ∷ rest) =
      written slot (if slot_key.same key slot then some word else old) rest

  abbrev pub written_all : Slot → Option Word → List (Diff ledger) → Option Word
  written_all slot old [] = old
  written_all slot old (d ∷ ds) = written_all slot (written slot old d.storage) ds

  -- A diff and the later ones of one account as one: the last balance, code and hash that there is,
  -- the sum of the nonces, and for each slot the word that was written last.
  pub record IsMerged (first : Diff ledger) (later : List (Diff ledger)) (d : Diff ledger)
      : Type 0 where
    pub balances : d.new_balance ≡ last_of first.new_balance (map (λ l. l.new_balance) later)
    pub nonces : d.nonce_diff ≡ sum16 first.nonce_diff (map (λ l. l.nonce_diff) later)
    pub slots :
        (slot : Slot)
        → get ⦃e = slot_key⦄ slot d.storage
          ≡ written_all slot (get ⦃e = slot_key⦄ slot first.storage) later
    pub codes : d.bytecode ≡ last_of first.bytecode (map (λ l. l.bytecode) later)
    pub hashes : d.bytecode_hash ≡ last_of first.bytecode_hash (map (λ l. l.bytecode_hash) later)

  get-extend :
      (slot : Slot) (old new : List (Slot × Word))
      → get ⦃e = slot_key⦄ slot (extend ledger old new)
        ≡ written slot (get ⦃e = slot_key⦄ slot old) new
  unfolding extend
  get-extend slot old [] = refl
  get-extend slot old ((key, word) ∷ rest) =
      get-extend slot (put ⦃e = slot_key⦄ key word old) rest
      ∙ ap (λ o. written slot o rest) (get-put ⦃e = slot_key⦄ key slot word old)

  merge_existing-IsMerged :
      (first next d : Diff ledger) (later : List (Diff ledger))
      → IsMerged (merge_existing ledger first next) later d
      → IsMerged first (next ∷ later) d
  unfolding merge_existing
  merge_existing-IsMerged first next d later h = record {
    balances = h.balances ∙ or_last first.new_balance next.new_balance _;
    nonces = h.nonces;
    slots = λ slot.
        h.slots slot
        ∙ ap (λ o. written_all slot o later) (get-extend slot first.storage next.storage);
    codes = h.codes ∙ or_last first.bytecode next.bytecode _;
    hashes = h.hashes ∙ or_last first.bytecode_hash next.bytecode_hash _;
  }
    where
      or_last :
          {A : Type 0} (old new : Option A) (rest : List (Option A))
          → last_of (mojave.BlockProducer.Diffs.or ledger new old) rest ≡ last_of old (new ∷ rest)
      or_last old none rest = refl
      or_last old (some a) rest = refl

  -- the diffs of one account, in their order
  abbrev pub diffs_of : Address → Diffs ledger → List (Diff ledger)
  diffs_of a [] = []
  diffs_of a ((address, diff) ∷ diffs) =
      let rest = diffs_of a diffs in if address_key.same address a then diff ∷ rest else rest

  -- What an account has after the merge, by the diff that it had and those of the transaction.
  abbrev pub Merges : Option (Diff ledger) → List (Diff ledger) → Option (Diff ledger) → Type 0
  Merges none [] r = r ≡ none
  Merges none (first ∷ later) r = (d : Diff ledger) × (r ≡ some d) × IsMerged first later d
  Merges (some first) later r = (d : Diff ledger) × (r ≡ some d) × IsMerged first later d

  merge_one-Merges :
      (old : Option (Diff ledger)) (next : Diff ledger) (later : List (Diff ledger))
      (r : Option (Diff ledger))
      → Merges (some (merge_one ledger old next)) later r
      → Merges old (next ∷ later) r
  merge_one-Merges none next later r h = h
  merge_one-Merges (some first) next later r (d, e, h) =
      (d, e, merge_existing-IsMerged first next d later h)

  untouched-Merges : (old : Option (Diff ledger)) → Merges old [] old
  untouched-Merges none = refl
  untouched-Merges (some first) = (
    first,
    refl,
    record { balances = refl; nonces = refl; slots = λ slot. refl; codes = refl; hashes = refl },
  )

  -- After a merge, an account has one diff made of the one that it had, if any, and the transaction's
  -- diffs for it in their order: with the last balance, code and hash that any of them has, the sum of
  -- their nonces on 16 bits, and for each slot the word written last. An account with none has none.
  pub get-merge_diffs :
      (a : Address) (previous tx_diffs : Diffs ledger)
      → Merges
          (get ⦃e = address_key⦄ a previous)
          (diffs_of a tx_diffs)
          (get ⦃e = address_key⦄ a (merge_diffs ledger previous tx_diffs))
  unfolding merge_diffs
  get-merge_diffs a previous [] = untouched-Merges (get ⦃e = address_key⦄ a previous)
  get-merge_diffs a previous ((address, diff) ∷ diffs) =
      let v = merge_one ledger (get ⦃e = address_key⦄ address previous) diff in
      let ih = get-merge_diffs a (put ⦃e = address_key⦄ address v previous) diffs in
      elim (Bool-cases (address_key.same address a)) [
        | inl same ↦
            let e = (address_key.same_iff address a).0 same in
            rw (same, e)
              (merge_one-Merges (get ⦃e = address_key⦄ a previous) diff (diffs_of a diffs) _
                (rw (get-put ⦃e = address_key⦄ address a v previous, same, e) at ih))
        | inr other ↦ rw other (rw (get-put ⦃e = address_key⦄ address a v previous, other) at ih)
      ]
