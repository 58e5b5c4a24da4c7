-- ===== src/Signature/Ecdsa.antt =====
-- crates/signature/src/ecdsa.rs over the crate secp256k1, which is the record `Curve`.
use mojave.Base.{
  ℕ, String, true, false, List, drop, take, Result, ok, err, map_err, ◌>>=◌, ◌≡◌, refl, IfOk,
}
use mojave.Signature.{
  Signature, secp256k1, same_scheme, Error, ecdsa, secp256k1_error, create_signing_key, sign,
  create_verifying_key, verify, invalid_signature_scheme, of_secp256k1, bincode, invalid_hex,
  without_0x,
}

pub record Curve : Type 1 where
  pub F : Type 0
  pub PrivateKey : Type 0
  pub PublicKey : Type 0
  pub Message : Type 0
  pub EcdsaSignature : Type 0
  pub private_from_str : String → Result F PrivateKey
  pub private_from_slice : List ℕ → Result F PrivateKey
  pub public_from_str : String → Result F PublicKey
  pub public_from_slice : List ℕ → Result F PublicKey
  pub public_to_string : PublicKey → String
  pub from_secret_key : PrivateKey → PublicKey
  pub serialize_uncompressed : PublicKey → List ℕ
  pub hex_decode : String → Result F (List ℕ)
  pub hex_encode : List ℕ → String
  pub sha256 : List ℕ → List ℕ
  pub compute_keccak : List ℕ → List ℕ
  pub from_digest_slice : List ℕ → Result F Message
  pub sign_ecdsa : Message → PrivateKey → EcdsaSignature
  pub serialize_compact : EcdsaSignature → List ℕ
  pub from_compact : List ℕ → Result F EcdsaSignature
  pub verify_ecdsa : Message → EcdsaSignature → PublicKey → Result F (Unit {0})

-- `SigningKey(PrivateKey)` and `VerifyingKey(PublicKey)` are their one field.
module _ (curve : Curve) where
  open curve use {
    F, PrivateKey, PublicKey, Message, EcdsaSignature, private_from_str, private_from_slice,
    public_from_str, public_from_slice, public_to_string, from_secret_key, serialize_uncompressed,
    hex_decode, hex_encode, sha256, compute_keccak, from_digest_slice, sign_ecdsa,
    serialize_compact, from_compact, verify_ecdsa,
  }

  signing_key_of_hex : String → Result (Error F) PrivateKey
  signing_key_of_hex s = do
    bytes ← map_err (λ e. ecdsa (create_signing_key (invalid_hex e))) (hex_decode (without_0x s))
    map_err (λ e. ecdsa (create_signing_key (of_secp256k1 e))) (private_from_slice bytes)

  or_hex : String → Result F PrivateKey → Result (Error F) PrivateKey
  unfolding signing_key_of_hex
  or_hex s (ok key) = ok key
  or_hex s (err e) = signing_key_of_hex s

  unfoldable pub signing_key_from_str : String → Result (Error F) PrivateKey
  unfolding or_hex
  signing_key_from_str s = or_hex s (private_from_str s)

  unfoldable pub signing_key_from_slice : List ℕ → Result (Error F) PrivateKey
  signing_key_from_slice slice =
      map_err (λ e. ecdsa (create_signing_key (of_secp256k1 e))) (private_from_slice slice)

  unfoldable pub verifying_key : PrivateKey → PublicKey
  verifying_key key = from_secret_key key

  -- `FromStr`, and so `TryFrom<String>`
  unfoldable pub verifying_key_from_str : String → Result (Error F) PublicKey
  verifying_key_from_str s =
      map_err (λ e. ecdsa (create_verifying_key (of_secp256k1 e))) (public_from_str s)

  unfoldable pub verifying_key_to_string : PublicKey → String
  verifying_key_to_string key = public_to_string key

  unfoldable pub verifying_key_from_slice : List ℕ → Result (Error F) PublicKey
  verifying_key_from_slice slice =
      map_err (λ e. ecdsa (create_verifying_key (of_secp256k1 e))) (public_from_slice slice)

  unfoldable pub to_address : PublicKey → String
  to_address key =
      hex_encode (take 20 (drop 12 (compute_keccak (drop 1 (serialize_uncompressed key)))))

  module _ {T : Type 0} (serialize : T → Result F (List ℕ)) where
    unfoldable pub sign_message : PrivateKey → T → Result (Error F) Signature
    sign_message key message = do
      message_bytes ← map_err (λ e. ecdsa (sign (bincode e))) (serialize message)
      msg ← map_err (λ e. ecdsa (sign (of_secp256k1 e))) (from_digest_slice (sha256 message_bytes))
      ok (record { bytes = serialize_compact (sign_ecdsa msg key); scheme = secp256k1 })

    checked : PublicKey → T → Signature → Result (Error F) (Unit {0})
    checked key message signature = do
      message_bytes ← map_err (λ e. ecdsa (verify (bincode e))) (serialize message)
      msg ←
          map_err (λ e. ecdsa (verify (of_secp256k1 e))) (from_digest_slice (sha256 message_bytes))
      sig ← map_err (λ e. ecdsa (verify (of_secp256k1 e))) (from_compact signature.bytes)
      map_err secp256k1_error (verify_ecdsa msg sig key)

    unfoldable pub verify_message : PublicKey → T → Signature → Result (Error F) (Unit {0})
    unfolding checked
    verify_message key message signature = elim (same_scheme signature.scheme secp256k1) [
      | false ↦ err (ecdsa invalid_signature_scheme)
      | true ↦ checked key message signature
    ]

  -- What the crate promises of signatures and of their compact form.
  pub record Signs : Type 0 where
    pub verifies :
        (msg : Message) (key : PrivateKey)
        → verify_ecdsa msg (sign_ecdsa msg key) (from_secret_key key) ≡ ok tt
    pub compacts : (sig : EcdsaSignature) → from_compact (serialize_compact sig) ≡ ok sig

  -- Over such a curve, a message that is signed verifies under the verifying key of the signing key.
  pub verify_message-sign_message :
      {T : Type 0} (serialize : T → Result F (List ℕ)) (signs : Signs) (key : PrivateKey)
      (message : T)
      → IfOk
          (λ signature. verify_message serialize (verifying_key key) message signature ≡ ok tt)
          (sign_message serialize key message)
  unfolding verify_message sign_message checked verifying_key
  verify_message-sign_message serialize signs key message = by_bytes (serialize message) refl
    where
      by_digest :
          (bytes : List ℕ) (r : Result F Message)
          → serialize message ≡ ok bytes
          → from_digest_slice (sha256 bytes) ≡ r
          → IfOk
              (λ signature. verify_message serialize (verifying_key key) message signature ≡ ok tt)
              (map_err (λ e. ecdsa (sign (of_secp256k1 e))) r >>= λ msg.
                ok (record { bytes = serialize_compact (sign_ecdsa msg key); scheme = secp256k1 }))
      by_digest bytes (ok msg) e k =
          rw (e, k, signs.compacts (sign_ecdsa msg key), signs.verifies msg key) refl
      by_digest bytes (err e') e k = tt

      by_bytes :
          (r : Result F (List ℕ))
          → serialize message ≡ r
          → IfOk
              (λ signature. verify_message serialize (verifying_key key) message signature ≡ ok tt)
              (map_err (λ e. ecdsa (sign (bincode e))) r >>= λ message_bytes.
                map_err
                  (λ e. ecdsa (sign (of_secp256k1 e)))
                  (from_digest_slice (sha256 message_bytes))
                >>= λ msg.
                    ok (record {
                      bytes = serialize_compact (sign_ecdsa msg key);
                      scheme = secp256k1;
                    }))
      by_bytes (ok bytes) e = by_digest bytes (from_digest_slice (sha256 bytes)) e refl
      by_bytes (err e') e = tt
