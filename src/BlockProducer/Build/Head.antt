-- ===== src/BlockProducer/Build/Head.antt =====
-- When the head of the chain moves.
use mojave.Base.{ℕ, ◌∙◌, List, Result, ok, err}
use mojave.Base.Programs.{
  Program, Keeps, Moves, MovesTo, bind-Keeps, bind-Moves, converting-Keeps, last-Moves, reads-Keeps,
  lift-Keeps, pure-Keeps,
}
use mojave.BlockProducer.Diffs.{Ledger}
use mojave.BlockProducer.Fill.{Builder}
use mojave.BlockProducer.Build.{
  Stop, PayloadBuildResult, Site, Args, Header, Payload, create_payload, build_payload, commit,
  build_on, build_block, handle_request, ethrex, announced,
}

module _ (ledger : Ledger) (builder : Builder ledger) (site : Site ledger builder) where
  open builder use {Mempool, Receipt}
  open site use {
    H, Updates, UpdatesList, Store, hash, apply_account_updates_batch, store_block,
    store_account_updates_by_block_number, apply_fork_choice, broadcast, validate_block,
    get_latest_block_number, get_block_header,
  }

  -- Of the calls that write, the choice of the fork alone moves the head, to the hash it is given.
  pub record TracksHead : Type 0 where
    pub head : Store → H
    pub applies :
        (parent : H) (updates : Updates) → Keeps head (apply_account_updates_batch parent updates)
    pub stores :
        (block : Payload ledger builder site) (updates : UpdatesList) (receipts : List Receipt)
        → Keeps head (store_block block updates receipts)
    pub records :
        (number : ℕ) (updates : Updates)
        → Keeps head (store_account_updates_by_block_number number updates)
    pub chooses :
        (tip safe finalized : H) → Moves head (λ _. tip) (apply_fork_choice tip safe finalized)
    pub broadcasts : (block : Payload ledger builder site) → Keeps head (broadcast block)

  abbrev pub Built : Type 0
  Built = Payload ledger builder site × Mempool

  abbrev pub hash_of : Built → H
  hash_of built = hash built.0.header

  module _ (tracks : TracksHead) where
    open tracks use {head, applies, stores, records, chooses, broadcasts}

    ethrex-Keeps :
        {A : Type 0} (p : Program Store ledger.F A)
        → Keeps head p
        → Keeps head (ethrex ledger builder site p)
    ethrex-Keeps p h = converting-Keeps head _ p h

    commit-Moves :
        (built : PayloadBuildResult (Payload ledger builder site) Receipt Updates) (pool : Mempool)
        → Moves head hash_of (commit ledger builder site built pool)
    unfolding commit
    commit-Moves built pool = bind-Moves head _ hash_of _ (ethrex-Keeps _ (applies _ _)) (λ applied.
        bind-Moves head _ hash_of _ (ethrex-Keeps _ (lift-Keeps head _)) (λ updates.
          bind-Moves head _ hash_of _ (ethrex-Keeps _ (stores _ _ _)) (λ _.
            bind-Moves head _ hash_of _ (ethrex-Keeps _ (records _ _))
              (λ _. last-Moves head _ hash_of (built.payload, pool) _ (chooses _ _ _)))))

    create_payload-Keeps :
        (args : Args ledger builder site) → Keeps head (create_payload ledger builder site args)
    unfolding create_payload
    create_payload-Keeps args = bind-Keeps head _ _ (reads-Keeps head _) (λ found.
        bind-Keeps head _ _ (lift-Keeps head _)
          (λ parent. bind-Keeps head _ _ (reads-Keeps head _) (λ config. pure-Keeps head _ _)))

    build_payload-Keeps :
        (fuel : ℕ) (payload : Payload ledger builder site) (pool : Mempool)
        → Keeps head (build_payload ledger builder site fuel payload pool)
    unfolding build_payload
    build_payload-Keeps fuel payload pool =
        bind-Keeps head _ _ (ethrex-Keeps _ (reads-Keeps head _)) (λ context.
          bind-Keeps head _ _ (lift-Keeps head _) (λ done.
            bind-Keeps head _ _ (ethrex-Keeps _ (reads-Keeps head _))
              (λ complete. pure-Keeps head _ _)))

    build_on-Moves :
        (fuel : ℕ) (coinbase : ledger.Address) (pool : Mempool) (h : Header ledger builder site)
        → Moves head hash_of (build_on ledger builder site fuel coinbase pool h)
    unfolding build_on
    build_on-Moves fuel coinbase pool h =
        bind-Moves head _ hash_of _ (ethrex-Keeps _ (lift-Keeps head _)) (λ timestamp.
          bind-Moves head _ hash_of _ (ethrex-Keeps _ (create_payload-Keeps _)) (λ payload.
            bind-Moves head _ hash_of _ (build_payload-Keeps fuel payload pool) (λ built.
              bind-Moves head _ hash_of _ (ethrex-Keeps _ (reads-Keeps head _)) (λ config.
                bind-Moves head _ hash_of _ (ethrex-Keeps _ (lift-Keeps head _))
                  (λ _. commit-Moves built.0 built.1)))))

    build_block-Moves :
        (fuel : ℕ) (coinbase : ledger.Address) (pool : Mempool)
        → Moves head hash_of (build_block ledger builder site fuel coinbase pool)
    unfolding build_block
    build_block-Moves fuel coinbase pool =
        bind-Moves head _ hash_of _ (ethrex-Keeps _ (reads-Keeps head _)) (λ latest.
          bind-Moves head _ hash_of _ (ethrex-Keeps _ (reads-Keeps head _)) (λ found.
            bind-Moves head _ hash_of _ (lift-Keeps head _)
              (λ h. build_on-Moves fuel coinbase pool h)))

    announced-MovesTo :
        (before : H) (r : Result (Stop ledger.F) Built × Store)
        → MovesTo head hash_of before r.0 (head r.1)
        → MovesTo head hash_of before
            (announced ledger builder site r).0
            (head (announced ledger builder site r).1)
    unfolding announced
    announced-MovesTo before (ok built, s) h = broadcasts built.0 s ∙ h
    announced-MovesTo before (err e, s) h = h

    -- Where only the choice of the fork moves the head of the chain: a request to build a block that
    -- returns a block leaves that block as the head, whether it could be broadcast or not, and one
    -- that returns an error, at whichever call, leaves the head where it was.
    pub handle_request-Moves :
        (fuel : ℕ) (coinbase : ledger.Address) (pool : Mempool)
        → Moves head hash_of (handle_request ledger builder site fuel coinbase pool)
    unfolding handle_request
    handle_request-Moves fuel coinbase pool s =
        announced-MovesTo (head s) _ (build_block-Moves fuel coinbase pool s)
