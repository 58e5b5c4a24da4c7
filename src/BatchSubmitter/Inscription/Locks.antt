-- ===== src/BatchSubmitter/Inscription/Locks.antt =====
-- Which outputs of the wallet stay locked, on each way out.
use mojave.Base.{
  ap, ◌⊎◌, inl, inr, err, ◌≡◌, refl, subst, ◌∙◌, Option, List, ◌++◌, Result, ok, ℕ, Bool, true,
  map_err,
}
use mojave.Base.Programs.{
  Yields, lift, converting, ◌>>=◌, and_then, with_error, Keeps, bind-Keeps, lift-Keeps,
  converting-Keeps, pure-Keeps,
}
use mojave.BatchSubmitter.Inscription.Spends.{Spends, sign_both-Spends}
use mojave.BatchSubmitter.{Error, bitcoin_rpc_error, bitcoin_io_error, encode_error}
use mojave.BatchSubmitter.Inscription.{
  Stop, failed, panicked, OutPoint, Bitcoin, BuilderContext, Tx, outpoints_of, fund_tx,
  build_and_sign_reveal_tx, sign_both, Reveal, unlock_on_error, fund_and_sign, Build, fails,
  encode_tx_non_segwit, generate_key_pair, create_inscription_tx,
}

module _ (bitcoin : Bitcoin) where
  open bitcoin use {
    Txid, Raw, World, fund_raw_transaction, sign_raw_transaction_with_wallet, transaction,
    unlock_unspent, fill_bytes,
  }
  open bitcoin.scripts use {F}

  -- Funding, where it is told to lock, locks the outputs that the transaction spends, which decoding it
  -- shows, or none where it fails. Signing and random bytes lock nothing. Unlocking the outputs locked
  -- last leaves those before, or it fails and unlocks none.
  pub record Wallet : Type 0 where
    pub locked : World → List (OutPoint Txid)
    pub spent : Raw → List (OutPoint Txid)
    pub funds :
        (bytes : List ℕ) (fee : Option ℕ) (change : ℕ) (w w' : World) (raw : Raw)
        → fund_raw_transaction bytes fee change true w ≡ (ok raw, w')
        → locked w' ≡ spent raw ++ locked w
    pub shows :
        (raw : Raw) (tx : Tx bitcoin)
        → transaction raw ≡ ok tx
        → spent raw ≡ outpoints_of bitcoin tx
    pub funds_not :
        (bytes : List ℕ) (fee : Option ℕ) (change : ℕ) (lock : Bool) (w w' : World) (e : F)
        → fund_raw_transaction bytes fee change lock w ≡ (err e, w')
        → locked w' ≡ locked w
    pub signs : (tx : Tx bitcoin) → Keeps locked (sign_raw_transaction_with_wallet tx)
    pub unlocks :
        (outpoints others : List (OutPoint Txid)) (w w' : World)
        → locked w ≡ outpoints ++ others
        → unlock_unspent outpoints w ≡ (ok tt, w')
        → locked w' ≡ others
    pub unlocks_not :
        (outpoints : List (OutPoint Txid)) (w w' : World) (e : F)
        → unlock_unspent outpoints w ≡ (err e, w')
        → locked w' ≡ locked w
    pub fills : (w : World) → locked (fill_bytes w).1 ≡ locked w

  module _ (wallet : Wallet) where
    open wallet use {locked, spent, funds, shows, funds_not, signs, unlocks, unlocks_not, fills}

    -- The funded transaction could not be decoded, and its outputs stay locked.
    abbrev pub Undecoded : List (OutPoint Txid) → Error F → World → Type 0
    Undecoded before e w =
        (raw : Raw) × (x : F) × (transaction raw ≡ err x)
        × (e ≡ encode_error x)
        × (locked w ≡ spent raw ++ before)

    -- The unlocking failed too, and the outputs of the funded transaction stay locked.
    abbrev pub Refused : List (OutPoint Txid) → World → Type 0
    Refused before w =
        (unsigned : Tx bitcoin) × (x : F) × (w' : World) × (unlock_unspent
            (outpoints_of bitcoin unsigned) w'
          ≡ (err x, w))
        × (locked w ≡ outpoints_of bitcoin unsigned ++ before)

    abbrev pub Settles :
        List (OutPoint Txid) → Result (Stop F) (Tx bitcoin × Tx bitcoin) × World → Type 0
    Settles before (ok txs, w) =
        (unsigned : Tx bitcoin) × Spends bitcoin unsigned txs
        × (locked w ≡ outpoints_of bitcoin unsigned ++ before)
    Settles before (err (failed e), w) =
        (locked w ≡ before) ⊎ (Undecoded before e w ⊎ Refused before w)
    Settles before (err panicked, w) = Unit

    build_and_sign_reveal_tx-Keeps :
        (amount : ℕ) (recipient : bitcoin.Address) (tx : Tx bitcoin)
        (script : bitcoin.scripts.Script) (control : bitcoin.ControlBlock) (pair : bitcoin.KeyPair)
        → Keeps locked (build_and_sign_reveal_tx bitcoin amount recipient tx script control pair)
    unfolding build_and_sign_reveal_tx
    build_and_sign_reveal_tx-Keeps amount recipient tx script control pair =
        bind-Keeps locked _ _ (lift-Keeps locked _) (λ prevout.
          bind-Keeps locked _ _ (lift-Keeps locked _) (λ digest.
            bind-Keeps locked _ _ (lift-Keeps locked _) (λ signature. lift-Keeps locked _)))

    sign_both-Keeps :
        (ctx : BuilderContext bitcoin) (r : Reveal bitcoin) (tx : Tx bitcoin)
        → Keeps locked (sign_both bitcoin ctx r tx)
    unfolding sign_both
    sign_both-Keeps ctx r tx = bind-Keeps locked _ _ (lift-Keeps locked _) (λ funded.
        bind-Keeps locked _ _ (lift-Keeps locked _) (λ commit.
          bind-Keeps locked _ _ (lift-Keeps locked _) (λ _.
            bind-Keeps locked _ _ (build_and_sign_reveal_tx-Keeps _ _ _ _ _ _) (λ reveal.
              bind-Keeps locked _ _ (converting-Keeps locked _ _ (signs tx)) (λ signed.
                bind-Keeps locked _ _ (lift-Keeps locked _) (λ both. pure-Keeps locked _ _))))))

    unlocked-Settles :
        (before : List (OutPoint Txid)) (tx : Tx bitcoin) (e : Error F) (w : World)
        (r : Result F (Unit {0}) × World)
        → locked w ≡ outpoints_of bitcoin tx ++ before
        → unlock_unspent (outpoints_of bitcoin tx) w ≡ r
        → Settles before (err (failed e), r.1)
    unlocked-Settles before tx e w (ok tt, w') h u = inl (unlocks _ before w w' h u)
    unlocked-Settles before tx e w (err x, w') h u =
        inr (inr (tx, x, w, u, unlocks_not _ w w' x u ∙ h))

    unlock_on_error-Settles :
        (before : List (OutPoint Txid)) (tx : Tx bitcoin)
        (r : Result (Stop F) (Tx bitcoin × Tx bitcoin) × World)
        → Yields (Spends bitcoin tx) r
        → locked r.1 ≡ outpoints_of bitcoin tx ++ before
        → Settles before (unlock_on_error bitcoin (outpoints_of bitcoin tx) r)
    unfolding unlock_on_error
    unlock_on_error-Settles before tx (ok txs, w) spends h = (tx, spends, h)
    unlock_on_error-Settles before tx (err (failed e), w) _ h =
        unlocked-Settles before tx e w (unlock_unspent (outpoints_of bitcoin tx) w) h refl
    unlock_on_error-Settles before tx (err panicked, w) _ h = tt

    module _ {A : Type 0} (next : A → Build bitcoin (Tx bitcoin × Tx bitcoin))
        (before : List (OutPoint Txid)) where
      and_then-Settles :
          (r : Result (Stop F) A × World)
          → locked r.1 ≡ before
          → ((a : A) (w : World) → locked w ≡ before → Settles before (next a w))
          → Settles before (and_then r next)
      unfolding and_then
      and_then-Settles (ok a, w) same h = h a w same
      and_then-Settles (err (failed e), w) same h = inl same
      and_then-Settles (err panicked, w) same h = tt

      bind-Settles :
          (p : Build bitcoin A) (w : World)
          → Keeps locked p
          → locked w ≡ before
          → ((a : A) (w' : World) → locked w' ≡ before → Settles before (next a w'))
          → Settles before ((p >>= next) w)
      unfolding ◌>>=◌
      bind-Settles p w keeps same h = and_then-Settles (p w) (keeps w ∙ same) h

    decoded-Settles :
        (next : Tx bitcoin → Build bitcoin (Tx bitcoin × Tx bitcoin))
        (before : List (OutPoint Txid)) (w : World) (raw : Raw) (r : Result F (Tx bitcoin))
        → transaction raw ≡ r
        → locked w ≡ spent raw ++ before
        → ((tx : Tx bitcoin)
            → locked w ≡ outpoints_of bitcoin tx ++ before
            → Settles before (next tx w))
        → Settles before (and_then (lift (fails bitcoin (map_err encode_error r)) w) next)
    unfolding and_then lift
    decoded-Settles next before w raw (ok tx) e locks h =
        h tx (locks ∙ ap (λ outs. outs ++ before) (shows raw tx e))
    decoded-Settles next before w raw (err x) e locks h = inr (inl (raw, x, e, refl, locks))

    -- what the wallet answers to the request for funds
    funded-Settles :
        (next : Tx bitcoin → Build bitcoin (Tx bitcoin × Tx bitcoin)) (bytes : List ℕ)
        (fee : Option ℕ) (w : World) (r : Result F Raw × World)
        → fund_raw_transaction bytes fee 1 true w ≡ r
        → ((tx : Tx bitcoin) (w' : World)
            → locked w' ≡ outpoints_of bitcoin tx ++ locked w
            → Settles (locked w) (next tx w'))
        → Settles (locked w) (
            and_then
              (and_then
                (with_error (λ e. failed (bitcoin_rpc_error e)) r)
                (λ raw. lift (fails bitcoin (map_err encode_error (transaction raw)))))
              next)
    unfolding and_then with_error
    funded-Settles next bytes fee w (ok raw, w') e h =
        decoded-Settles next (locked w) w' raw (transaction raw) refl (funds bytes fee 1 w w' raw e)
          (λ tx locks. h tx w' locks)
    funded-Settles next bytes fee w (err e', w') e h = inl (funds_not bytes fee 1 true w w' e' e)

    fund_and_sign-Settles :
        (ctx : BuilderContext bitcoin) (r : Reveal bitcoin) (w : World)
        → Settles (locked w) (fund_and_sign bitcoin ctx r w)
    unfolding fund_and_sign fund_tx ◌>>=◌ and_then lift converting with_error
    fund_and_sign-Settles ctx r w = encoded (encode_tx_non_segwit bitcoin r.unfunded_commit_tx)
      where
        encoded :
            (bytes : Result F (List ℕ))
            → Settles (locked w) (
                and_then
                  (and_then (lift (fails bitcoin (map_err bitcoin_io_error bytes)) w) (λ tx_raw.
                    converting
                      (λ e. failed (bitcoin_rpc_error e))
                      (fund_raw_transaction tx_raw (bitcoin.fee_vb ctx.fee_rate 1000) 1 true)
                    >>= λ raw. lift (fails bitcoin (map_err encode_error (transaction raw)))))
                  (λ unsigned world.
                    unlock_on_error bitcoin
                      (outpoints_of bitcoin unsigned)
                      (sign_both bitcoin ctx r unsigned world)))
        encoded (ok bytes) =
            funded-Settles _ bytes (bitcoin.fee_vb ctx.fee_rate 1000) w
              (fund_raw_transaction bytes (bitcoin.fee_vb ctx.fee_rate 1000) 1 true w) refl
              (λ tx w' locks.
                unlock_on_error-Settles (locked w) tx (sign_both bitcoin ctx r tx w')
                  (sign_both-Spends bitcoin ctx r tx w') (sign_both-Keeps ctx r tx w' ∙ locks))
        encoded (err e) = inl refl

    fund_and_sign-Settles_from :
        (ctx : BuilderContext bitcoin) (r : Reveal bitcoin) (w : World)
        (before : List (OutPoint Txid))
        → locked w ≡ before
        → Settles before (fund_and_sign bitcoin ctx r w)
    fund_and_sign-Settles_from ctx r w before e =
        subst (λ b. Settles b (fund_and_sign bitcoin ctx r w)) e (fund_and_sign-Settles ctx r w)

    generate_key_pair-Keeps : Keeps locked (generate_key_pair bitcoin)
    unfolding generate_key_pair
    generate_key_pair-Keeps w = fills w

    -- Over such a wallet. A pair of transactions that is returned is the funded transaction as the
    -- wallet has signed it, and a transaction whose one input is the first output of the funded one, and
    -- just the outputs that the funded one spends are locked beside those before. After an error, just
    -- the outputs are locked that were locked before, but for two cases, in which those of the funded
    -- transaction stay locked too: what the wallet returned for it could not be decoded, and this is the
    -- error, or the wallet refused to unlock them. A panic is left out.
    pub create_inscription_tx-Settles :
        (ctx : BuilderContext bitcoin) (payloads : List (List ℕ)) (w : World)
        → Settles (locked w) (create_inscription_tx bitcoin ctx payloads w)
    unfolding create_inscription_tx
    create_inscription_tx-Settles ctx payloads w =
        bind-Settles _ (locked w) _ w generate_key_pair-Keeps refl (λ pair w1 e1.
          bind-Settles _ (locked w) _ w1 (lift-Keeps locked _) e1 (λ script w2 e2.
            bind-Settles _ (locked w) _ w2 (lift-Keeps locked _) e2 (λ leaf w3 e3.
              bind-Settles _ (locked w) _ w3 (lift-Keeps locked _) e3 (λ info w4 e4.
                bind-Settles _ (locked w) _ w4 (lift-Keeps locked _) e4 (λ control w5 e5.
                  bind-Settles _ (locked w) _ w5 (lift-Keeps locked _) e5
                    (λ value w6 e6. fund_and_sign-Settles_from ctx _ w6 (locked w) e6))))))
