-- ===== src/Signature/Eddsa.antt =====
-- crates/signature/src/eddsa.rs over the crate ed25519_dalek, which is the record `Curve`.
use mojave.Base.{ℕ, String, true, false, List, Result, ok, err, map_err, ◌>>=◌}
use mojave.Signature.{
  Signature, ed25519, same_scheme, Error, eddsa, create_signing_key_error, sign_error,
  create_verifying_key_error, verify_error, invalid_scheme, of_ed25519, hex, bincode_error,
  without_0x,
}

pub record Curve : Type 1 where
  pub F : Type 0
  pub PrivateKey : Type 0
  pub PublicKey : Type 0
  pub EddsaSignature : Type 0
  pub private_try_from : List ℕ → Result F PrivateKey
  pub public_try_from : List ℕ → Result F PublicKey
  pub public_bytes : PublicKey → List ℕ
  pub public_from : PrivateKey → PublicKey
  pub hex_decode : String → Result F (List ℕ)
  pub hex_encode : List ℕ → String
  pub sign : List ℕ → PrivateKey → EddsaSignature
  pub to_vec : EddsaSignature → List ℕ
  pub from_slice : List ℕ → Result F EddsaSignature
  pub verify : List ℕ → EddsaSignature → PublicKey → Result F (Unit {0})

module _ (curve : Curve) where
  open curve use {
    F, PrivateKey, PublicKey, EddsaSignature, private_try_from, public_try_from, public_bytes,
    public_from, hex_decode, hex_encode, sign, to_vec, from_slice, verify,
  }

  unfoldable pub signing_key_from_str : String → Result (Error F) PrivateKey
  signing_key_from_str s = do
    bytes ← map_err (λ e. eddsa (create_signing_key_error (hex e))) (hex_decode (without_0x s))
    map_err (λ e. eddsa (create_signing_key_error (of_ed25519 e))) (private_try_from bytes)

  unfoldable pub signing_key_from_slice : List ℕ → Result (Error F) PrivateKey
  signing_key_from_slice slice =
      map_err (λ e. eddsa (create_signing_key_error (of_ed25519 e))) (private_try_from slice)

  unfoldable pub verifying_key : PrivateKey → PublicKey
  verifying_key key = public_from key

  unfoldable pub verifying_key_to_string : PublicKey → String
  verifying_key_to_string key = hex_encode (public_bytes key)

  -- `FromStr`, and so `TryFrom<String>`
  unfoldable pub verifying_key_from_str : String → Result (Error F) PublicKey
  verifying_key_from_str s = do
    bytes ← map_err (λ e. eddsa (create_verifying_key_error (hex e))) (hex_decode s)
    map_err (λ e. eddsa (create_verifying_key_error (of_ed25519 e))) (public_try_from bytes)

  unfoldable pub verifying_key_from_slice : List ℕ → Result (Error F) PublicKey
  verifying_key_from_slice slice =
      map_err (λ e. eddsa (create_verifying_key_error (of_ed25519 e))) (public_try_from slice)

  unfoldable pub to_address : PublicKey → String
  unfolding verifying_key_to_string
  to_address key = verifying_key_to_string key

  module _ {T : Type 0} (serialize : T → Result F (List ℕ)) where
    unfoldable pub sign_message : PrivateKey → T → Result (Error F) Signature
    sign_message key message = do
      message_bytes ← map_err (λ e. eddsa (sign_error (bincode_error e))) (serialize message)
      ok (record { bytes = to_vec (sign message_bytes key); scheme = ed25519 })

    checked : PublicKey → T → Signature → Result (Error F) (Unit {0})
    checked key message signature = do
      message_bytes ← map_err (λ e. eddsa (verify_error (bincode_error e))) (serialize message)
      sig ← map_err (λ e. eddsa (verify_error (of_ed25519 e))) (from_slice signature.bytes)
      map_err (λ e. eddsa (verify_error (of_ed25519 e))) (verify message_bytes sig key)

    unfoldable pub verify_message : PublicKey → T → Signature → Result (Error F) (Unit {0})
    unfolding checked
    verify_message key message signature = elim (same_scheme signature.scheme ed25519) [
      | false ↦ err (eddsa invalid_scheme)
      | true ↦ checked key message signature
    ]
