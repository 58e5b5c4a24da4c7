-- ===== src/Signature/Tests.antt =====
-- Curves whose signatures are the message with the key, and the theorems on them.
use mojave.Base.{ℕ, ◌+◌, ◌≡◌, refl, List, [], ◌∷◌, ok, err, eqb, eqb_iff, if◌then◌else◌, IfOk}
use mojave.Signature.Ecdsa
use mojave.Signature.Eddsa

abbrev first : List ℕ → ℕ
first [] = 0
first (x ∷ xs) = x

abbrev secp : Ecdsa.Curve
secp = record {
  F = ℕ;
  PrivateKey = ℕ;
  PublicKey = ℕ;
  Message = ℕ;
  EcdsaSignature = ℕ;
  private_from_str = λ s. err 1;
  private_from_slice = λ xs. ok (first xs);
  public_from_str = λ s. err 1;
  public_from_slice = λ xs. ok (first xs);
  public_to_string = λ key. "key";
  from_secret_key = λ key. key;
  serialize_uncompressed = λ key. key ∷ [];
  hex_decode = λ s. err 2;
  hex_encode = λ xs. "hex";
  sha256 = λ xs. xs;
  compute_keccak = λ xs. xs;
  from_digest_slice = λ xs. ok (first xs);
  sign_ecdsa = λ msg key. msg + key;
  serialize_compact = λ sig. sig ∷ [];
  from_compact = λ xs. ok (first xs);
  verify_ecdsa = λ msg sig key. if eqb sig (msg + key) then ok tt else err 3;
}

abbrev signs : Ecdsa.Signs secp
signs = record {
  verifies = λ msg key. rw ((eqb_iff (msg + key) (msg + key)).1 refl) refl;
  compacts = λ sig. refl;
}

verify_message-sign_message_example :
    IfOk
      (λ signature. Ecdsa.verify_message secp (λ n. ok (n ∷ [])) 5 7 signature ≡ ok tt)
      (Ecdsa.sign_message secp (λ n. ok (n ∷ [])) 5 7)
unfolding Ecdsa.verifying_key
verify_message-sign_message_example =
    Ecdsa.verify_message-sign_message secp (λ n. ok (n ∷ [])) signs 5 7

abbrev ed : Eddsa.Curve
ed = record {
  F = ℕ;
  PrivateKey = ℕ;
  PublicKey = ℕ;
  EddsaSignature = ℕ;
  private_try_from = λ xs. ok (first xs);
  public_try_from = λ xs. ok (first xs);
  public_bytes = λ key. key ∷ [];
  public_from = λ key. key;
  hex_decode = λ s. err 2;
  hex_encode = λ xs. "hex";
  sign = λ xs key. first xs + key;
  to_vec = λ sig. sig ∷ [];
  from_slice = λ xs. ok (first xs);
  verify = λ xs sig key. if eqb sig (first xs + key) then ok tt else err 3;
}
