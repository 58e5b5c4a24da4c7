-- ===== src/BatchProducer/Accumulator.antt =====
-- crates/batch-producer/src/batch_accumulator.rs: messages, privileged transactions and account
-- updates of the blocks of a batch, the updates of one account merged.
use mathlib.Core.List.{filter_map, foldl}
use mathlib.Core.Option.{Option, none, some}
use mojave.Base.{inl, inr, Bool-cases, ◌≡◌, refl, ◌∙◌, List, [], ◌∷◌, ◌++◌, map, if◌then◌else◌}
use mojave.Base.Collections.{get, put, get-put}
use mojave.BatchProducer.Chain.{Chain}

module _ (chain : Chain) where
  open chain use {
    Hash, Address, AccountUpdate, L1Message, PrivilegedTx, address_eq, address, merge,
    get_l1_message_hash, get_privileged_hash,
  }

  pub record BatchAccumulator : Type 0 where
    pub messages : List L1Message
    pub privileged_txs : List PrivilegedTx
    pub account_updates : List (Address × AccountUpdate)
    pub message_hashes : List Hash
    pub privileged_tx_hashes : List Hash

  abbrev pub empty_accumulator : BatchAccumulator
  empty_accumulator = record {
    messages = [];
    privileged_txs = [];
    account_updates = [];
    message_hashes = [];
    privileged_tx_hashes = [];
  }

  -- the new entry of an account, which was occupied or vacant
  abbrev pub merged : Option AccountUpdate → AccountUpdate → AccountUpdate
  merged none update = update
  merged (some old) update = merge old update

  -- `for update in account_updates`
  unfoldable pub add_updates :
      List AccountUpdate → List (Address × AccountUpdate) → List (Address × AccountUpdate)
  add_updates [] m = m
  add_updates (update ∷ updates) m =
      let a = address update in
      add_updates updates (put ⦃e = address_eq⦄ a (merged (get ⦃e = address_eq⦄ a m) update) m)

  unfoldable pub add_block_data :
      BatchAccumulator → List L1Message → List PrivilegedTx → List AccountUpdate → BatchAccumulator
  unfolding add_updates
  add_block_data self messages privileged_txs account_updates = record {
    messages = self.messages ++ messages;
    privileged_txs = self.privileged_txs ++ privileged_txs;
    account_updates = add_updates account_updates self.account_updates;
    message_hashes = self.message_hashes ++ map get_l1_message_hash messages;
    privileged_tx_hashes =
        self.privileged_tx_hashes ++ filter_map get_privileged_hash privileged_txs;
  }

  abbrev pub get_account_updates_vec : BatchAccumulator → List AccountUpdate
  get_account_updates_vec self = map (λ entry. entry.1) self.account_updates

  -- The updates of one account among those of a block, in their order.
  abbrev pub updates_of : Address → List AccountUpdate → List AccountUpdate
  updates_of a [] = []
  updates_of a (update ∷ updates) =
      let rest = updates_of a updates in
      if address_eq.same (address update) a then update ∷ rest else rest

  -- Ethrex's `merge` of all of them into the first, one after another; none where there is none.
  abbrev pub in_order : List AccountUpdate → Option AccountUpdate
  in_order [] = none
  in_order (first ∷ later) = some (foldl merge first later)

  -- The update that is there already comes before those of the block.
  abbrev pub after_old : Option AccountUpdate → List AccountUpdate → List AccountUpdate
  after_old none updates = updates
  after_old (some old) updates = old ∷ updates

  after_old-merged :
      (o : Option AccountUpdate) (update : AccountUpdate) (rest : List AccountUpdate)
      → in_order (after_old (some (merged o update)) rest) ≡ in_order (after_old o (update ∷ rest))
  after_old-merged none update rest = refl
  after_old-merged (some old) update rest = refl

  put-after_old :
      (a : Address) (update : AccountUpdate) (updates : List AccountUpdate)
      (m : List (Address × AccountUpdate))
      → in_order (
          after_old
            (get ⦃e = address_eq⦄ a (
              put ⦃e = address_eq⦄
                (address update)
                (merged (get ⦃e = address_eq⦄ (address update) m) update)
                m))
            (updates_of a updates))
        ≡ in_order (after_old (get ⦃e = address_eq⦄ a m) (updates_of a (update ∷ updates)))
  put-after_old a update updates m =
      let k = address update in
      let v = merged (get ⦃e = address_eq⦄ k m) update in
      elim (Bool-cases (address_eq.same k a)) [
        | inl same ↦
            rw (get-put ⦃e = address_eq⦄ k a v m, same, (address_eq.same_iff k a).0 same)
              (after_old-merged (get ⦃e = address_eq⦄ a m) update (updates_of a updates))
        | inr other ↦ rw (get-put ⦃e = address_eq⦄ k a v m, other) refl
      ]

  -- Adding a block's updates leaves for each account the merge of the update it had, if any, with the
  -- block's updates of that account, each merged into what came before it in the order of the block;
  -- an account without any has none.
  pub get-add_updates :
      (a : Address) (updates : List AccountUpdate) (m : List (Address × AccountUpdate))
      → get ⦃e = address_eq⦄ a (add_updates updates m)
        ≡ in_order (after_old (get ⦃e = address_eq⦄ a m) (updates_of a updates))
  unfolding add_updates
  get-add_updates a [] m = alone (get ⦃e = address_eq⦄ a m)
    where
      alone : (o : Option AccountUpdate) → o ≡ in_order (after_old o [])
      alone none = refl
      alone (some old) = refl
  get-add_updates a (update ∷ updates) m =
      let k = address update in
      let v = merged (get ⦃e = address_eq⦄ k m) update in
      get-add_updates a updates (put ⦃e = address_eq⦄ k v m) ∙ put-after_old a update updates m
