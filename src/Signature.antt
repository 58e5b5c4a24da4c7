-- ===== src/Signature.antt =====
-- crates/signature/src/: signing and verifying keys over secp256k1 (ecdsa.rs) and over ed25519
-- (eddsa.rs). The curves, the hash, hex and bincode are parameters; what is serialized is the type `T`
-- of messages.
pub mod Ecdsa
pub mod Eddsa
pub mod Schemes
mod Tests
use Prim.Native.Char.{code}
use Prim.Native.String.{[] as empty, ◌∷◌ as and_then}
use mojave.Base.{ℕ, String, Bool, true, false, List, eqb, ◌&&◌, if◌then◌else◌}

pub data SignatureScheme : Type 0 where
  ed25519 secp256k1 : SignatureScheme

pub record Signature : Type 0 where
  pub bytes : List ℕ
  pub scheme : SignatureScheme

-- `PartialEq` of the schemes
abbrev pub same_scheme : SignatureScheme → SignatureScheme → Bool
same_scheme ed25519 ed25519 = true
same_scheme secp256k1 secp256k1 = true
same_scheme _ _ = false

-- `F` stands for the errors of the crates of the curves, of hex and of bincode.
pub data EcdsaErrorKind (F : Type 0) : Type 0 where
  of_secp256k1 bincode invalid_hex : F → EcdsaErrorKind F

pub data EcdsaError (F : Type 0) : Type 0 where
  create_signing_key sign create_verifying_key verify : EcdsaErrorKind F → EcdsaError F
  invalid_signature_scheme : EcdsaError F

pub data EddsaErrorKind (F : Type 0) : Type 0 where
  of_ed25519 hex bincode_error : F → EddsaErrorKind F

pub data EddsaError (F : Type 0) : Type 0 where
  create_signing_key_error sign_error create_verifying_key_error verify_error :
      EddsaErrorKind F → EddsaError F
  invalid_scheme : EddsaError F

pub data Error (F : Type 0) : Type 0 where
  ecdsa : EcdsaError F → Error F
  secp256k1_error : F → Error F
  eddsa : EddsaError F → Error F
  ed25519_error : F → Error F

-- `s.strip_prefix("0x").unwrap_or(s)`
unfoldable pub without_0x : String → String
without_0x (and_then a (and_then b s)) =
    if eqb (code a) 48 && eqb (code b) 120 then s else and_then a (and_then b s)
without_0x s = s
