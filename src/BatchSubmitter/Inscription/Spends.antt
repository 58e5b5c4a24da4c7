-- ===== src/BatchSubmitter/Inscription/Spends.antt =====
-- What the two signed transactions are.
use mojave.Base.{◌≡◌, refl, [], ◌∷◌, Result, ok, err, map_err, ℕ}
use mojave.Base.Programs.{
  Yields, lift, pure, ◌>>=◌, bind-Yields, bind-Yields_from, converting-Yields, and_then,
}
use mojave.BatchSubmitter.{encode_error}
use mojave.BatchSubmitter.Inscription.{
  Bitcoin, BuilderContext, Tx, outpoints_of, build_and_sign_reveal_tx, push_witness, reveal_tx,
  reveal_input, sign_both, Reveal, fails,
}

module _ (bitcoin : Bitcoin) where
  open bitcoin use {Txid, Raw, World, compute_txid, sign_raw_transaction_with_wallet, transaction}
  open bitcoin.scripts use {F}

  -- one input, the first output of that transaction
  abbrev pub SpendsFirst : Tx bitcoin → Tx bitcoin → Type 0
  SpendsFirst commit reveal =
      outpoints_of bitcoin reveal ≡ record { txid = compute_txid commit; vout = 0 } ∷ []

  -- what the wallet returned when it was asked to sign that transaction
  abbrev pub IsSigned : Tx bitcoin → Tx bitcoin → Type 0
  IsSigned unsigned signed =
      (w w' : World) × (raw : Raw) × (sign_raw_transaction_with_wallet unsigned w ≡ (ok raw, w'))
      × (transaction raw ≡ ok signed)

  abbrev pub Spends : Tx bitcoin → Tx bitcoin × Tx bitcoin → Type 0
  Spends unsigned (commit, reveal) = IsSigned unsigned commit × SpendsFirst unsigned reveal

  build_and_sign_reveal_tx-SpendsFirst :
      (amount : ℕ) (recipient : bitcoin.Address) (tx : Tx bitcoin) (script : bitcoin.scripts.Script)
      (control : bitcoin.ControlBlock) (pair : bitcoin.KeyPair) (w : World)
      → Yields
          (SpendsFirst tx)
          (build_and_sign_reveal_tx bitcoin amount recipient tx script control pair w)
  unfolding build_and_sign_reveal_tx push_witness reveal_tx reveal_input lift
  build_and_sign_reveal_tx-SpendsFirst amount recipient tx script control pair w =
      bind-Yields (SpendsFirst tx) _ _ w (λ prevout w1.
        bind-Yields (SpendsFirst tx) _ _ w1
          (λ digest w2. bind-Yields (SpendsFirst tx) _ _ w2 (λ signature w3. refl)))

  decoded-Spends :
      (unsigned reveal : Tx bitcoin) (w w' : World) (raw : Raw) (r : Result F (Tx bitcoin))
      → SpendsFirst unsigned reveal
      → sign_raw_transaction_with_wallet unsigned w ≡ (ok raw, w')
      → transaction raw ≡ r
      → Yields
          (Spends unsigned)
          ((lift (fails bitcoin (map_err encode_error r)) >>= λ commit. pure (commit, reveal)) w')
  unfolding ◌>>=◌ lift pure and_then
  decoded-Spends unsigned reveal w w' raw (ok commit) spends signs e =
      ((w, w', raw, signs, e), spends)
  decoded-Spends unsigned reveal w w' raw (err x) spends signs e = tt

  pub sign_both-Spends :
      (ctx : BuilderContext bitcoin) (r : Reveal bitcoin) (unsigned : Tx bitcoin) (w : World)
      → Yields (Spends unsigned) (sign_both bitcoin ctx r unsigned w)
  unfolding sign_both
  sign_both-Spends ctx r unsigned w = bind-Yields (Spends unsigned) _ _ w (λ funded w1.
      bind-Yields (Spends unsigned) _ _ w1 (λ commit w2.
        bind-Yields (Spends unsigned) _ _ w2 (λ _ w3.
          bind-Yields_from (Spends unsigned) _ (SpendsFirst unsigned) _ w3
            (build_and_sign_reveal_tx-SpendsFirst _ _ unsigned _ _ _ w3)
            (λ reveal w4 spends.
              converting-Yields (Spends unsigned) _ _ (sign_raw_transaction_with_wallet unsigned) w4
                (λ raw w5 signs.
                  decoded-Spends unsigned reveal w4 w5 raw (transaction raw) spends signs refl)))))
