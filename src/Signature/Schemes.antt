-- ===== src/Signature/Schemes.antt =====
-- Signatures under the keys of the other scheme.
use mojave.Base.{ℕ, ◌≡◌, refl, List, Result, err, map_err, IfOk, bind-IfOk}
use mojave.Signature.{
  ecdsa, eddsa, invalid_signature_scheme, invalid_scheme, sign, bincode, of_secp256k1, sign_error,
  bincode_error,
}
use mojave.Signature.Ecdsa
use mojave.Signature.Eddsa

module _ (secp : Ecdsa.Curve) (ed : Eddsa.Curve) {T : Type 0}
    (serialize : T → Result secp.F (List ℕ)) (serialize_ed : T → Result ed.F (List ℕ)) where
  -- Whatever the message and the keys: a signature made over secp256k1 is refused for its scheme by
  -- every ed25519 key, and one made over ed25519 by every secp256k1 key.
  pub verify_message-refuses :
      (key : secp.PrivateKey) (key_ed : ed.PrivateKey) (public : secp.PublicKey)
      (public_ed : ed.PublicKey) (message other : T)
      → IfOk
          (λ signature.
            Eddsa.verify_message ed serialize_ed public_ed other signature
            ≡ err (eddsa invalid_scheme))
          (Ecdsa.sign_message secp serialize key message)
        × IfOk
            (λ signature.
              Ecdsa.verify_message secp serialize public other signature
              ≡ err (ecdsa invalid_signature_scheme))
            (Eddsa.sign_message ed serialize_ed key_ed message)
  unfolding Ecdsa.sign_message Ecdsa.verify_message Eddsa.sign_message Eddsa.verify_message
  verify_message-refuses key key_ed public public_ed message other = (
    bind-IfOk _ (map_err (λ e. ecdsa (sign (bincode e))) (serialize message)) _ (λ bytes e.
        bind-IfOk _
          (map_err (λ e. ecdsa (sign (of_secp256k1 e)))
            (secp.from_digest_slice (secp.sha256 bytes)))
          _ (λ msg e'. refl)),
    bind-IfOk _ (map_err (λ e. eddsa (sign_error (bincode_error e))) (serialize_ed message)) _
        (λ bytes e. refl),
  )
