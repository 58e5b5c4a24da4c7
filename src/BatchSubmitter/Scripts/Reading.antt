-- ===== src/BatchSubmitter/Scripts/Reading.antt =====
-- What a reader of the chain gets back of the payloads.
use mathlib.Core.List.{append_assoc, append-nil}
use mojave.Base.{
  ℕ, zero, suc, ◌≤◌, ◌<◌, ◌≡◌, refl, sym, ap, ◌∙◌, arith, Option, none, some, List, [], ◌∷◌, ◌++◌,
  length, take, drop, length-take, length-drop, take-append-drop, All, Result, ok, err,
}
use mojave.BatchSubmitter.{Error, internal}
use mojave.BatchSubmitter.Scripts.{
  Opcode, op_checksig, op_false, op_if, op_endif, Scripts, max_push_size, chunks_within, chunks,
  push_chunks, push_payload, push_payloads, finish, build_reveal_script,
}

-- the instructions of a script
pub data Instruction (Key : Type 0) : Type 0 where
  key : Key → Instruction Key
  op : Opcode → Instruction Key
  bytes : List ℕ → Instruction Key

more : List ℕ → Option (List (List ℕ)) → Option (List (List ℕ))
more xs none = none
more xs (some payloads) = some (xs ∷ payloads)

module _ {Key : Type 0} where
  -- A reader of the instructions after the check of the signature: outside of a payload, or within
  -- one of which these bytes are read. It returns the payloads, and none for any other script.
  unfoldable pub read : Option (List ℕ) → List (Instruction Key) → Option (List (List ℕ))
  unfolding more
  read none [] = some []
  read none (op op_false ∷ op op_if ∷ rest) = read (some []) rest
  read (some xs) (bytes ys ∷ rest) = read (some (xs ++ ys)) rest
  read (some xs) (op op_endif ∷ rest) = more xs (read none rest)
  read _ _ = none

  unfoldable pub read_payloads : List (Instruction Key) → Option (List (List ℕ))
  read_payloads (key k ∷ op op_checksig ∷ rest) = read none rest
  read_payloads _ = none

  -- a push that the network relays
  abbrev pub IsShort : Instruction Key → Type 0
  IsShort (bytes xs) = length xs ≤ max_push_size
  IsShort _ = Unit

abbrev pub concat : List (List ℕ) → List ℕ
concat [] = []
concat (xs ∷ xss) = xs ++ concat xss

chunks_within-concat :
    (fuel n : ℕ) (xs : List ℕ) → length xs ≤ fuel → 0 < n → concat (chunks_within fuel n xs) ≡ xs
unfolding chunks_within
chunks_within-concat zero n [] h k = refl
chunks_within-concat zero n (x ∷ xs) h k = absurd (omega arith)
chunks_within-concat (suc fuel) n [] h k = refl
chunks_within-concat (suc fuel) n (x ∷ xs) h k =
    ap (λ ys. take n (x ∷ xs) ++ ys)
      (chunks_within-concat fuel n (drop n (x ∷ xs)) (omega (arith, length-drop n (x ∷ xs))) k)
    ∙ take-append-drop n (x ∷ xs)

chunks_within-short :
    (fuel n : ℕ) (xs : List ℕ) → All (λ chunk. length chunk ≤ n) (chunks_within fuel n xs)
unfolding chunks_within
chunks_within-short zero n xs = tt
chunks_within-short (suc fuel) n [] = tt
chunks_within-short (suc fuel) n (x ∷ xs) =
    (omega (arith, length-take n (x ∷ xs)), chunks_within-short fuel n (drop n (x ∷ xs)))

module _ (Key : Type 0) where
  -- what `rest` follows on: the chunks of a payload, a payload, and all payloads
  abbrev written_chunks : List (List ℕ) → List (Instruction Key) → List (Instruction Key)
  written_chunks [] rest = rest
  written_chunks (chunk ∷ chunks_) rest = bytes chunk ∷ written_chunks chunks_ rest

  abbrev written : List (List ℕ) → List (Instruction Key)
  written [] = []
  written (payload ∷ payloads) =
      op op_false
      ∷ op op_if
      ∷ written_chunks (chunks max_push_size payload) (op op_endif ∷ written payloads)

  read-written_chunks :
      (xs : List ℕ) (chunks_ : List (List ℕ)) (rest : List (Instruction Key))
      → read (some xs) (written_chunks chunks_ rest) ≡ read (some (xs ++ concat chunks_)) rest
  unfolding read
  read-written_chunks xs [] rest = ap (λ ys. read (some ys) rest) (sym (append-nil xs))
  read-written_chunks xs (chunk ∷ chunks_) rest =
      read-written_chunks (xs ++ chunk) chunks_ rest
      ∙ ap (λ ys. read (some ys) rest) (append_assoc xs chunk (concat chunks_))

  read-written : (payloads : List (List ℕ)) → read none (written payloads) ≡ some payloads
  unfolding read more
  read-written [] = refl
  read-written (payload ∷ payloads) =
      read-written_chunks [] (chunks max_push_size payload) (op op_endif ∷ written payloads)
      ∙ rw
          (
            read-written payloads,
            chunks_within-concat (length payload) max_push_size payload (omega arith) (omega arith),
          )
          refl

  written_chunks-IsShort :
      (chunks_ : List (List ℕ)) (rest : List (Instruction Key))
      → All (λ chunk. length chunk ≤ max_push_size) chunks_
      → All IsShort rest
      → All IsShort (written_chunks chunks_ rest)
  written_chunks-IsShort [] rest h k = k
  written_chunks-IsShort (chunk ∷ chunks_) rest (first, h) k =
      (first, written_chunks-IsShort chunks_ rest h k)

  written-IsShort : (payloads : List (List ℕ)) → All IsShort (written payloads)
  written-IsShort [] = tt
  written-IsShort (payload ∷ payloads) = (
    tt,
    (
      tt,
      written_chunks-IsShort (chunks max_push_size payload) (op op_endif ∷ written payloads)
          (chunks_within-short (length payload) max_push_size payload)
          (tt, written-IsShort payloads),
    ),
  )

-- The script builder appends, and a text of bytes that is short enough can be pushed.
pub record Appends (scripts : Scripts) : Type 0 where
  pub instructions : scripts.Builder → List (Instruction scripts.Key)
  pub program : scripts.Script → List (Instruction scripts.Key)
  pub contents : scripts.Push → List ℕ
  pub news : instructions scripts.new ≡ []
  pub keys :
      (k : scripts.Key) (b : scripts.Builder)
      → instructions (scripts.push_x_only_key k b) ≡ instructions b ++ key k ∷ []
  pub ops :
      (o : Opcode) (b : scripts.Builder)
      → instructions (scripts.push_opcode o b) ≡ instructions b ++ op o ∷ []
  pub slices :
      (p : scripts.Push) (b : scripts.Builder)
      → instructions (scripts.push_slice p b) ≡ instructions b ++ bytes (contents p) ∷ []
  pub intos : (b : scripts.Builder) → program (scripts.into_script b) ≡ instructions b
  pub tries :
      (xs : List ℕ)
      → length xs ≤ max_push_size
      → (p : scripts.Push) × (scripts.try_from xs ≡ ok p) × (contents p ≡ xs)

module _ (scripts : Scripts) (appends : Appends scripts) where
  open scripts use {F, Key, Push, Builder, Script, new, push_x_only_key, push_opcode, push_slice}
  open appends use {instructions, program, contents, news, keys, ops, slices, intos, tries}

  -- a builder that holds so much more
  abbrev Adds : Builder → List (Instruction Key) → Result (Error F) Builder → Type 0
  Adds b added r = (b' : Builder) × (r ≡ ok b') × (instructions b' ≡ instructions b ++ added)

  push_chunks-Adds :
      (chunks_ : List (List ℕ)) (b : Builder)
      → All (λ chunk. length chunk ≤ max_push_size) chunks_
      → Adds b (written_chunks Key chunks_ []) (push_chunks scripts chunks_ b)
  unfolding push_chunks
  push_chunks-Adds [] b h = (b, refl, sym (append-nil (instructions b)))
  push_chunks-Adds (chunk ∷ chunks_) b (short, h) =
      let (p, e, same) = tries chunk short in
      let (b', done, adds) = push_chunks-Adds chunks_ (push_slice p b) h in
      (
        b',
        rw e done,
        adds ∙ rw (slices p b, same) (append_assoc (instructions b) (bytes chunk ∷ []) _),
      )

  written_chunks-append :
      (chunks_ : List (List ℕ)) (xs ys : List (Instruction Key))
      → written_chunks Key chunks_ xs ++ ys ≡ written_chunks Key chunks_ (xs ++ ys)
  written_chunks-append [] xs ys = refl
  written_chunks-append (chunk ∷ chunks_) xs ys =
      ap (◌∷◌ (bytes chunk)) (written_chunks-append chunks_ xs ys)

  push_payloads-Adds :
      (payloads : List (List ℕ)) (b : Builder)
      → Adds b (written Key payloads) (push_payloads scripts payloads b)
  unfolding push_payloads push_payload
  push_payloads-Adds [] b = (b, refl, sym (append-nil (instructions b)))
  push_payloads-Adds (payload ∷ payloads) b =
      let cs = chunks max_push_size payload in
      let opened = push_opcode op_if (push_opcode op_false b) in
      let (b1, e1, adds1) =
        push_chunks-Adds cs opened (chunks_within-short (length payload) max_push_size payload) in
      let (b2, e2, adds2) = push_payloads-Adds payloads (push_opcode op_endif b1) in
      let grown : instructions (push_opcode op_endif b1)
          ≡ instructions b ++ op op_false ∷ op op_if ∷ written_chunks Key cs (op op_endif ∷ []) =
        ops op_endif b1
        ∙ rw (adds1, ops op_if (push_opcode op_false b), ops op_false b)
            (rw
              (
                append_assoc (instructions b) (op op_false ∷ []) (op op_if ∷ []),
                append_assoc (instructions b) (op op_false ∷ op op_if ∷ [])
                    (written_chunks Key cs []),
                append_assoc (instructions b) (op op_false ∷ op op_if ∷ written_chunks Key cs [])
                    (op op_endif ∷ []),
                written_chunks-append cs [] (op op_endif ∷ []),
              )
              refl) in
      (
        b2,
        rw e1 e2,
        adds2
            ∙ rw
                (
                  grown,
                  append_assoc (instructions b)
                      (op op_false ∷ op op_if ∷ written_chunks Key cs (op op_endif ∷ []))
                      (written Key payloads),
                  written_chunks-append cs (op op_endif ∷ []) (written Key payloads),
                )
                refl,
      )

  -- What `build_reveal_script` may return.
  abbrev pub Inscribes : Key → List (List ℕ) → Result (Error F) Script → Type 0
  Inscribes public_key [] r = r ≡ err (internal "Payloads cannot be empty")
  Inscribes public_key (payload ∷ payloads) r =
      (script : Script) × (r ≡ ok script)
      × (read_payloads (program script) ≡ some (payload ∷ payloads))
      × All IsShort (program script)

  -- Without payloads the reveal script is an error. With any, of whatever lengths, a script is built
  -- from which a reader gets back exactly the payloads in their order, and no push in it is longer
  -- than 520 bytes.
  pub build_reveal_script-Inscribes :
      (public_key : Key) (payloads : List (List ℕ))
      → Inscribes public_key payloads (build_reveal_script scripts public_key payloads)
  unfolding build_reveal_script finish read_payloads
  build_reveal_script-Inscribes public_key [] = refl
  build_reveal_script-Inscribes public_key (payload ∷ payloads) =
      let ps = payload ∷ payloads in
      let start = push_opcode op_checksig (push_x_only_key public_key new) in
      let (b, e, adds) = push_payloads-Adds ps start in
      let whole : program (scripts.into_script b)
          ≡ key public_key ∷ op op_checksig ∷ written Key ps =
        intos b
        ∙ adds
        ∙ rw (ops op_checksig (push_x_only_key public_key new), keys public_key new, news) refl in
      (
        scripts.into_script b,
        rw e refl,
        rw whole (read-written Key ps),
        rw whole (tt, (tt, written-IsShort Key ps)),
      )
