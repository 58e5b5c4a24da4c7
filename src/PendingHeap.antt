-- ===== src/PendingHeap.antt =====
-- crates/utils/src/ordered_block.rs, crates/node/src/pending_heap.rs and
-- crates/node/src/services/block.rs: signed blocks wait in a unique heap, the lowest number first.
-- A block is a type with the number of its header; blocks, hashes, keys and signatures are ethrex's
-- and `mojave_signature`'s, and come as parameters.
pub mod Ascending
pub mod Ingest
pub mod Tests
use Prim.Native.Nat.{compare, Ordering}
use mojave.Base.{
  ℕ, String, ◌≡◌, Bool, true, false, Option, none, some, arith, nat_key, Result, ok, err, ◌>>=◌,
  map_err,
}
use mojave.Rpc.{RpcErr, internal}
use mojave.UniqueHeap
use mojave.UniqueHeap.{HeapItem, AsyncUniqueHeap}

pub record OrderedBlock (Block : Type 0) : Type 0 where
  pub block : Block

module _ {Block : Type 0} (number : Block → ℕ) where
  -- `Ord::cmp`, with the two sides exchanged
  abbrev pub cmp : OrderedBlock Block → OrderedBlock Block → Ordering
  cmp self other = compare (number other.block) (number self.block)

  unfoldable pub partial_cmp : OrderedBlock Block → OrderedBlock Block → Option Ordering
  partial_cmp self other = some (cmp self other)

  unfoldable pub eq : OrderedBlock Block → OrderedBlock Block → Bool
  eq self other = elim (compare (number self.block) (number other.block)) [
    | Ordering.eq ↦ true
    | _ ↦ false
  ]

  abbrev pub key : OrderedBlock Block → ℕ
  key self = number self.block

  pub cmp_total : (a b : OrderedBlock Block) → cmp a b ≡ Ordering.gt → (cmp b a ≡ Ordering.gt → ⊥)
  cmp_total a b h k = ground arith

  pub cmp_trans :
      (a b c : OrderedBlock Block)
      → (cmp a b ≡ Ordering.gt → ⊥)
      → (cmp b c ≡ Ordering.gt → ⊥)
      → (cmp a c ≡ Ordering.gt → ⊥)
  cmp_trans a b c p q r = ground arith

  abbrev pub ordered_item : HeapItem (OrderedBlock Block) ℕ
  ordered_item = record { key = key; cmp = cmp; total = cmp_total; trans = cmp_trans }

pub record PendingHeap (Block N : Type 0) : Type 0 where
  pub inner : AsyncUniqueHeap (OrderedBlock Block) ℕ N

module _ {Block N : Type 0} (number : Block → ℕ) where
  unfoldable pub new : N → PendingHeap Block N
  new notify = record { inner = UniqueHeap.new notify }

  unfoldable pub push_signed :
      (N → N) → PendingHeap Block N → OrderedBlock Block → PendingHeap Block N × Bool
  push_signed notify_one self block =
      let (inner, fresh) = UniqueHeap.push (ordered_item number) notify_one self.inner block in
      (record { inner = inner }, fresh)

  unfoldable pub pop : PendingHeap Block N → PendingHeap Block N × Option (OrderedBlock Block)
  pop self =
      let (inner, block) = UniqueHeap.pop (ordered_item number) self.inner in
      (record { inner = inner }, block)

  unfoldable pub peek : PendingHeap Block N → Option (OrderedBlock Block)
  peek self = UniqueHeap.peek (ordered_item number) self.inner

pub record SignedBlock (Block Signature Key : Type 0) : Type 0 where
  pub block : Block
  pub signature : Signature
  pub verifying_key : Key

module _ {Block N : Type 0} (number : Block → ℕ) {E : Type 0} (to_string : E → String) where
  -- The rest of `ingest_signed_block`, by what the signature check returned; the answer of
  -- `push_signed` is dropped.
  ingest_checked :
      (N → N)
      → PendingHeap Block N
      → Block
      → Result E (Unit {0})
      → PendingHeap Block N × Result RpcErr (Unit {0})
  ingest_checked notify_one pending block (ok _) =
      ((push_signed number notify_one pending (record { block = block })).0, ok tt)
  ingest_checked notify_one pending block (err e) = (pending, err (internal (to_string e)))

  -- The state comes back beside the result.
  unfoldable pub ingest_signed_block :
      {Hash Signature Key : Type 0} (hash : Block → Hash)
      (verify : Key → Hash → Signature → Result E (Unit {0}))
      → (N → N)
      → PendingHeap Block N
      → SignedBlock Block Signature Key
      → PendingHeap Block N × Result RpcErr (Unit {0})
  unfolding ingest_checked
  ingest_signed_block hash verify notify_one pending signed =
      ingest_checked notify_one pending signed.block
        (verify signed.verifying_key (hash signed.block) signed.signature)
