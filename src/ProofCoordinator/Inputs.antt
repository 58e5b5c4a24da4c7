-- ===== src/ProofCoordinator/Inputs.antt =====
-- Which blocks the input of a proof holds.
use mathlib.Core.List.{append-nil, append_assoc}
use mojave.Base.{
  ℕ, ◌≡◌, refl, sym, ap, subst, ◌∙◌, List, [], ◌∷◌, ◌++◌, some, get_last?, Result, ok, err, map_err,
  ok_or, ◌>>=◌, IfOk, bind-IfOk, map_err-ok, ok_or-ok,
}
use mojave.Prover.Jobs.{ProverData}
use mojave.ProofCoordinator.{
  Error, failed_accessing_rollup_store, item_not_found_in_store, missing_blob, blobs_bundle_error,
  failed_to_create_execution_witness, Block, Stores, Input, fetch_block, fetch_loop, fetch_blocks,
  last_of, create_prover_input,
}

module _ (stores : Stores) where
  open stores use {
    F, Header, Body, Commitment, BlobProof, get_block_numbers_by_batch, generate_witness_for_blocks,
    not_found, get_blobs_by_batch, create_from_blobs,
  }

  -- the blocks that the numbers stand for, one by one
  abbrev pub Fetches : List ℕ → List (Block Header Body) → Type 0
  Fetches [] [] = Unit
  Fetches (n ∷ ns) (b ∷ bs) = (fetch_block stores n ≡ ok b) × Fetches ns bs
  Fetches _ _ = ⊥

  -- What `fetch_blocks` may return: all blocks in order, or the error of the first that is not found.
  abbrev pub Fetched : List ℕ → Result (Error F) (List (Block Header Body)) → Type 0
  Fetched numbers (ok blocks) = Fetches numbers blocks
  Fetched numbers (err e) =
      (found : List ℕ) × (missing : ℕ) × (rest : List ℕ) × (numbers ≡ found ++ missing ∷ rest)
      × ((blocks : List (Block Header Body)) × Fetches found blocks)
      × (fetch_block stores missing ≡ err e)

  Fetches-snoc :
      (ns : List ℕ) (bs : List (Block Header Body)) (n : ℕ) (b : Block Header Body)
      → Fetches ns bs
      → fetch_block stores n ≡ ok b
      → Fetches (ns ++ n ∷ []) (bs ++ b ∷ [])
  Fetches-snoc [] [] n b h k = (k, tt)
  Fetches-snoc [] (c ∷ bs) n b h k = elim h [ ]
  Fetches-snoc (m ∷ ns) [] n b h k = elim h [ ]
  Fetches-snoc (m ∷ ns) (c ∷ bs) n b (first, h) k = (first, Fetches-snoc ns bs n b h k)

  fetch_loop-Fetched :
      (ns done : List ℕ) (bs : List (Block Header Body))
      → Fetches done bs
      → Fetched (done ++ ns) (fetch_loop stores ns bs)
  unfolding fetch_loop
  fetch_loop-Fetched [] done bs h = subst (λ l. Fetches l bs) (sym (append-nil done)) h
  fetch_loop-Fetched (n ∷ ns) done bs h = next (fetch_block stores n) refl (λ b k.
      subst (λ l. Fetched l (fetch_loop stores ns (bs ++ b ∷ []))) (append_assoc done (n ∷ []) ns)
        (fetch_loop-Fetched ns (done ++ n ∷ []) (bs ++ b ∷ []) (Fetches-snoc done bs n b h k)))
    where
      next :
          (r : Result (Error F) (Block Header Body))
          → fetch_block stores n ≡ r
          → ((b : Block Header Body)
              → fetch_block stores n ≡ ok b
              → Fetched (done ++ n ∷ ns) (fetch_loop stores ns (bs ++ b ∷ [])))
          → Fetched (done ++ n ∷ ns) (r >>= λ b. fetch_loop stores ns (bs ++ b ∷ []))
      next (ok b) e later = later b e
      next (err e') e later = (done, n, ns, refl, (bs, h), e)

  -- All blocks are fetched in the order of their numbers, or the error is that of the first block
  -- that cannot be fetched.
  pub fetch_blocks-Fetched : (numbers : List ℕ) → Fetched numbers (fetch_blocks stores numbers)
  unfolding fetch_blocks
  fetch_blocks-Fetched numbers = fetch_loop-Fetched numbers [] [] tt

  abbrev pub IsInput : ℕ → ℕ → ProverData (Input stores) → Type 0
  IsInput elasticity batch_number d =
      (d.batch_number ≡ batch_number)
      × (d.input.elasticity_multiplier ≡ elasticity)
      × (generate_witness_for_blocks d.input.blocks ≡ ok d.input.execution_witness)
      × ((numbers : List ℕ) × (get_block_numbers_by_batch batch_number ≡ ok (some numbers))
          × Fetches numbers d.input.blocks)

  -- An input that is built for a batch has the blocks of that batch, all of them in their order, the
  -- witness of just these blocks, and the number of the batch.
  pub create_prover_input-IsInput :
      (elasticity batch_number : ℕ)
      → IfOk (IsInput elasticity batch_number) (create_prover_input stores elasticity batch_number)
  unfolding create_prover_input
  create_prover_input-IsInput elasticity batch_number =
      let Q = IsInput elasticity batch_number in
      bind-IfOk Q (map_err failed_accessing_rollup_store (get_block_numbers_by_batch batch_number))
        _
        (λ numbers? e1.
          bind-IfOk Q (ok_or numbers? (item_not_found_in_store (not_found batch_number))) _
            (λ numbers e2. bind-IfOk Q (fetch_blocks stores numbers) _ (λ blocks e3.
              bind-IfOk Q
                (map_err failed_to_create_execution_witness (generate_witness_for_blocks blocks)) _
                (λ witness e4.
                  bind-IfOk Q
                    (map_err failed_accessing_rollup_store (get_blobs_by_batch batch_number)) _
                    (λ blob? e5. bind-IfOk Q (ok_or blob? (missing_blob batch_number)) _ (λ blob e6.
                      bind-IfOk Q (map_err blobs_bundle_error (create_from_blobs blob)) _
                        (λ bundle e7.
                          bind-IfOk Q
                            (last_of stores batch_number (get_last? bundle.commitments)
                              (get_last? bundle.proofs))
                            _
                            (λ last e8. (
                              refl,
                              refl,
                              map_err-ok _ _ e4,
                              (
                                numbers,
                                map_err-ok _ _ e1 ∙ ap ok (ok_or-ok _ _ e2),
                                subst (Fetched numbers) e3 (fetch_blocks-Fetched numbers),
                              ),
                            )))))))))
