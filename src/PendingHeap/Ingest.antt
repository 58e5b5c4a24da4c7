-- ===== src/PendingHeap/Ingest.antt =====
-- Which blocks enter the pending heap.
use mojave.Base.{ℕ, ◌≡◌, refl, inl, inr, String, All, Result, ok, err, is_ok, nat_key}
use mojave.UniqueHeap.Invariant.{push-Pushes}
use mojave.PendingHeap.{
  OrderedBlock, ordered_item, PendingHeap, SignedBlock, push_signed, ingest_checked,
  ingest_signed_block,
}

module _ {Block Hash Signature Key E : Type 0} (hash : Block → Hash)
    (verify : Key → Hash → Signature → Result E (Unit {0})) where
  -- a key and a signature with which the block was handed in
  abbrev pub Verified : OrderedBlock Block → Type 0
  Verified b = (k : Key) × (s : Signature) × (verify k (hash b.block) s ≡ ok tt)

module _ {Block N Hash Signature Key E : Type 0} (number : Block → ℕ) (hash : Block → Hash)
    (verify : Key → Hash → Signature → Result E (Unit {0})) (to_string : E → String) where
  push_signed-Verified :
      (notify_one : N → N) (pending : PendingHeap Block N) (b : OrderedBlock Block)
      → Verified hash verify b
      → All (Verified hash verify) pending.inner.inner.heap
      → All (Verified hash verify) (push_signed number notify_one pending b).0.inner.inner.heap
  unfolding push_signed
  push_signed-Verified notify_one pending b v h =
      elim (push-Pushes (ordered_item number) notify_one pending.inner b) [
        | inl (_, same) ↦ rw same h
        | inr (_, grown) ↦ rw grown (v, h)
      ]

  ingest_checked-Verified :
      (notify_one : N → N) (pending : PendingHeap Block N) (block : Block) (c : Result E (Unit {0}))
      → (c ≡ ok tt → Verified hash verify (record { block = block }))
      → All (Verified hash verify) pending.inner.inner.heap
      → All
          (Verified hash verify)
          (ingest_checked number to_string notify_one pending block c).0.inner.inner.heap
  unfolding ingest_checked
  ingest_checked-Verified notify_one pending block (ok tt) v h =
      push_signed-Verified notify_one pending _ (v refl) h
  ingest_checked-Verified notify_one pending block (err e) v h = h

  is_ok-ingest_checked :
      (notify_one : N → N) (pending : PendingHeap Block N) (block : Block) (c : Result E (Unit {0}))
      → is_ok (ingest_checked number to_string notify_one pending block c).1 ≡ is_ok c
  unfolding ingest_checked
  is_ok-ingest_checked notify_one pending block (ok _) = refl
  is_ok-ingest_checked notify_one pending block (err e) = refl

  -- Ingesting a signed block keeps every waiting block verified: for each there are a key and a
  -- signature that the check accepts for the block's hash. The answer is ok exactly if the check
  -- accepts the block that is handed in.
  pub ingest-Verified :
      (notify_one : N → N) (pending : PendingHeap Block N)
      (signed : SignedBlock Block Signature Key)
      → All (Verified hash verify) pending.inner.inner.heap
      → let r = ingest_signed_block number to_string hash verify notify_one pending signed in
        All (Verified hash verify) r.0.inner.inner.heap
        × (is_ok r.1 ≡ is_ok (verify signed.verifying_key (hash signed.block) signed.signature))
  unfolding ingest_signed_block
  ingest-Verified notify_one pending signed h = (
    ingest_checked-Verified notify_one pending signed.block _
        (λ e. (signed.verifying_key, signed.signature, e)) h,
    is_ok-ingest_checked notify_one pending signed.block _,
  )
