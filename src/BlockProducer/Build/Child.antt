-- ===== src/BlockProducer/Build/Child.antt =====
-- The place of a built block in the chain.
use mojave.Base.{ℕ, ◌+◌, ◌-◌, ◌^◌, min, ◌≡◌, ap, ◌∙◌, Option, some, none, Result, ok, err, ok_or}
use mojave.Base.Programs.{
  pure, lift, reads, converting, Yields, bind-Yields, bind-Yields_from, bind-Yields_eq,
  converting-Yields, converting-Yields_same, and_then, with_error, ◌>>=◌,
}
use mojave.BlockProducer.Diffs.{Ledger, Error}
use mojave.BlockProducer.Fill.{Builder, Filling, fill_transactions}
use mojave.BlockProducer.Fill.Contexts.{KeepsPart, HoldsAll, fill_transactions-HoldsAll}
use mojave.BlockProducer.Build.{
  Stop, PayloadBuildResult, Site, Header, Payload, header_of, create_payload, args_of, filled,
  build_payload, commit, build_on, build_block,
}

module _ (ledger : Ledger) (builder : Builder ledger) (site : Site ledger builder) where
  open builder use {Mempool, Receipt, Context}
  open site use {
    H, Updates, Store, hash, new_context, finalize_payload, into, get_latest_block_number,
    get_block_header, get_block_header_by_hash,
  }

  abbrev pub Place : Type 0
  Place = ℕ × H

  abbrev pub place : Header ledger builder site → Place
  place header = (header.number, header.parent_hash)

  -- A context knows the place of the block that it fills. Its start takes it from the payload, no call
  -- on it moves the block, and the result has it. A header that is stored under a number is the one that
  -- is found by its hash.
  pub record KeepsPlace : Type 0 where
    pub about : Context → Place
    pub keeps : KeepsPart ledger builder about
    pub starts :
        (payload : Payload ledger builder site) (s : Store) (c : Context)
        → new_context payload s ≡ ok c
        → about c ≡ place payload.header
    pub finalizes : (c c' : Context) (s : Store) → finalize_payload c s ≡ ok c' → about c' ≡ about c
    pub ends : (c : Context) → place (into c).payload.header ≡ about c
    pub finds :
        (n : ℕ) (h p : Header ledger builder site) (s s' : Store)
        → get_block_header n s ≡ ok (some h)
        → get_block_header_by_hash (hash h) s' ≡ ok (some p)
        → p ≡ h

  -- the next number, which stays at the greatest one on 64 bits, and the hash of the parent
  abbrev pub below : Header ledger builder site → Place
  below parent = (min (parent.number + 1) (2 ^ 64 - 1), hash parent)

  abbrev pub IsChild : Header ledger builder site → Payload ledger builder site × Mempool → Type 0
  IsChild parent built = place built.0.header ≡ below parent

  module _ (law : KeepsPlace) where
    open law use {about, keeps, starts, finalizes, ends, finds}

    abbrev Stored : Header ledger builder site → Type 0
    Stored h = (n : ℕ) × (s : Store) × (get_block_header n s ≡ ok (some h))

    ok_or-some :
        {A : Type 0} {E : Type 0} (o : Option A) (e : E) (a : A) (s s' : Store)
        → ◌≡◌ {A = Result E A × Store} (ok_or o e, s) (ok a, s')
        → (o ≡ some a) × (s ≡ s')
    ok_or-some none e a s s' h = cc h
    ok_or-some (some b) e a s s' h = (cc h, ap (λ r. r.1) h)

    create_payload-Yields :
        (coinbase : ledger.Address) (timestamp : ℕ) (h : Header ledger builder site) (s : Store)
        → Stored h
        → Yields
            (λ payload. place payload.header ≡ below h)
            (create_payload ledger builder site
              (args_of ledger builder site coinbase (hash h) timestamp)
              s)
    unfolding create_payload header_of reads lift pure
    create_payload-Yields coinbase timestamp h s (n, s', stored) =
        bind-Yields_eq _ _ _ s (λ found s1 e1. bind-Yields_eq _ _ _ s1 (λ parent s2 e2.
          bind-Yields _ _ _ s2 (λ config s3.
            let (there, _) = ok_or-some found _ parent s1 s2 e2 in
            let same = finds n h parent s' s stored (ap (λ r. r.0) e1 ∙ ap ok there) in
            ap (λ (p : Header ledger builder site). (min (p.number + 1) (2 ^ 64 - 1), hash h))
              same)))

    filled-about :
        (o : Place) (m : Option (Result (Error ledger.F) (Filling ledger builder)))
        (done : Context × Mempool) (s s' : Store)
        → HoldsAll ledger builder about keeps o m
        → ◌≡◌ {A = Result (Stop ledger.F) (Context × Mempool) × Store}
            (filled ledger builder site m, s)
            (ok done, s')
        → about done.0 ≡ o
    unfolding filled
    filled-about o none done s s' h e = cc e
    filled-about o (some (err x)) done s s' h e = cc e
    filled-about o (some (ok f)) done s s' h e =
        let same : done ≡ (f.context, f.mempool) = cc e in rw same h

    build_payload-Yields :
        (fuel : ℕ) (o : Place) (payload : Payload ledger builder site) (pool : Mempool) (s : Store)
        → place payload.header ≡ o
        → Yields
            (λ (built : PayloadBuildResult (Payload ledger builder site) Receipt Updates × Mempool).
              place built.0.payload.header ≡ o)
            (build_payload ledger builder site fuel payload pool s)
    unfolding build_payload reads lift pure
    build_payload-Yields fuel o payload pool s at_o = converting-Yields _ _ _ _ s (λ context s1 e1.
        bind-Yields_eq _ _ _ s1 (λ done s2 e2. converting-Yields _ _ _ _ s2 (λ complete s3 e3.
          ends complete
          ∙ finalizes done.0 complete s2 (ap (λ r. r.0) e3)
          ∙ filled-about o (fill_transactions ledger builder fuel context pool) done s1 s2
              (fill_transactions-HoldsAll ledger builder about keeps o fuel context pool
                (starts payload s context (ap (λ r. r.0) e1) ∙ at_o))
              e2)))

    commit-Yields :
        (Q : Payload ledger builder site × Mempool → Type 0)
        (built : PayloadBuildResult (Payload ledger builder site) Receipt Updates) (pool : Mempool)
        (s : Store)
        → Q (built.payload, pool)
        → Yields Q (commit ledger builder site built pool s)
    unfolding commit pure
    commit-Yields Q built pool s q = bind-Yields Q _ _ _ (λ applied s1.
        bind-Yields Q _ _ _ (λ updates s2.
          bind-Yields Q _ _ _
            (λ _ s3. bind-Yields Q _ _ _ (λ _ s4. bind-Yields Q _ _ _ (λ _ s5. q)))))

    build_on-Yields :
        (fuel : ℕ) (coinbase : ledger.Address) (pool : Mempool) (h : Header ledger builder site)
        (s : Store)
        → Stored h
        → Yields (IsChild h) (build_on ledger builder site fuel coinbase pool h s)
    unfolding build_on
    build_on-Yields fuel coinbase pool h s stored = bind-Yields (IsChild h) _ _ s (λ timestamp s1.
        bind-Yields_from (IsChild h) _ (λ payload. place payload.header ≡ below h) _ s1
          (converting-Yields_same _ _ _ s1 (create_payload-Yields coinbase timestamp h s1 stored))
          (λ payload s2 at_child.
            bind-Yields_from (IsChild h) _ (λ built. place built.0.payload.header ≡ below h) _ s2
              (build_payload-Yields fuel (below h) payload pool s2 at_child)
              (λ built s3 built_child. bind-Yields (IsChild h) _ _ s3 (λ config s4.
                bind-Yields (IsChild h) _ _ s4
                  (λ _ s5. commit-Yields (IsChild h) built.0 built.1 s5 built_child)))))

    -- Where ethrex does not move a block while filling and finalizing it, and finds a stored
    -- header by its hash: a block that is built is the child of the block at the latest number, with its hash as the
    -- hash of the parent and the number after its, which stays at 2 ^ 64 - 1.
    pub build_block-IsChild :
        (fuel : ℕ) (coinbase : ledger.Address) (pool : Mempool) (s : Store) (latest : ℕ)
        (parent : Header ledger builder site)
        → get_latest_block_number s ≡ ok latest
        → get_block_header latest s ≡ ok (some parent)
        → Yields (IsChild parent) (build_block ledger builder site fuel coinbase pool s)
    unfolding build_block ◌>>=◌ converting reads lift and_then with_error
    build_block-IsChild fuel coinbase pool s latest parent e k =
        rw (e, k) (build_on-Yields fuel coinbase pool parent s (latest, s, k))
