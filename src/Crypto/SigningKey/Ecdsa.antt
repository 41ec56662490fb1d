-- ===== src/Crypto/SigningKey/Ecdsa.antt =====
-- src/crypto/signing_key/ecdsa/mod.rs: an ECDSA key pair of either curve.
use sigstore_rs.Prelude.{String, Bytes, Option, none, some, ok, err, map_ok, ◌>>=◌}
use sigstore_rs.Errors.{Outcome, key_parse_error}
use sigstore_rs.Crypto.Libs.{Libs}
use sigstore_rs.Crypto.Scheme.{SigningScheme}
use sigstore_rs.Crypto.Kdf.{KdfLibs}
use sigstore_rs.Crypto.VerificationKey.{CosignVerificationKey}
use sigstore_rs.Crypto.SigningKey.{EllipticCurve, p256, p384, Source, SigningLibs}
use sigstore_rs.Crypto.SigningKey.Ec
use sigstore_rs.Crypto.SigningKey.Ec.{EcdsaKeys}
use sigstore_rs.Crypto.SigningKey.Signer.{
  SigStoreSigner, ecdsa_p256_sha256_asn1, ecdsa_p384_sha384_asn1,
}

pub data WrappedEcdsaKeys {L : Libs} (S : SigningLibs L) : Type 0 where
  on_p256 : EcdsaKeys S p256 → WrappedEcdsaKeys S
  on_p384 : EcdsaKeys S p384 → WrappedEcdsaKeys S

unfoldable pub to_string : {L : Libs} {S : SigningLibs L} → WrappedEcdsaKeys S → String
to_string (on_p256 keys) = "ECDSA P256"
to_string (on_p384 keys) = "ECDSA P384"

-- `if let Ok(keys) = first { Ok(f(keys)) } else { next }`
abbrev pub or_try : {A B : Type 0} → Outcome A → (A → B) → Outcome B → Outcome B
or_try (ok keys) f next = ok (f keys)
or_try (err e) f next = next

-- the same, where the first may panic
abbrev pub or_try_panicking :
    {A B : Type 0} → Option (Outcome A) → (A → B) → Option (Outcome B) → Option (Outcome B)
or_try_panicking none f next = none
or_try_panicking (some (ok keys)) f next = some (ok (f keys))
or_try_panicking (some (err e)) f next = next

module _ {L : Libs} (S : SigningLibs L) where
  unfoldable pub new : Source → EllipticCurve → Outcome (WrappedEcdsaKeys S)
  new source p256 = map_ok on_p256 (Ec.new S p256 source)
  new source p384 = map_ok on_p384 (Ec.new S p384 source)

  unfoldable pub from_encrypted_pem :
      KdfLibs → Bytes → Bytes → Option (Outcome (WrappedEcdsaKeys S))
  from_encrypted_pem K private_key password =
      or_try_panicking (Ec.from_encrypted_pem S p256 K private_key password) on_p256 (
        or_try_panicking (Ec.from_encrypted_pem S p384 K private_key password) on_p384
          (some (err (key_parse_error "Ecdsa keys from encrypted PEM private key"))))

  unfoldable pub from_pem : Bytes → Outcome (WrappedEcdsaKeys S)
  from_pem pem_data = or_try (Ec.from_pem S p256 pem_data) on_p256 (
      or_try (Ec.from_pem S p384 pem_data) on_p384
        (err (key_parse_error "Ecdsa keys from PEM private key")))

  unfoldable pub from_der : Bytes → Outcome (WrappedEcdsaKeys S)
  from_der private_key = or_try (Ec.from_der S p256 private_key) on_p256 (
      or_try (Ec.from_der S p384 private_key) on_p384
        (err (key_parse_error "Ecdsa keys from DER private key")))

  unfoldable pub to_sigstore_signer : WrappedEcdsaKeys S → Outcome (SigStoreSigner S)
  to_sigstore_signer (on_p256 inner) =
      map_ok ecdsa_p256_sha256_asn1 (Ec.from_ecdsa_keys S p256 inner)
  to_sigstore_signer (on_p384 inner) =
      map_ok ecdsa_p384_sha384_asn1 (Ec.from_ecdsa_keys S p384 inner)

  -- src/crypto/signing_key/ecdsa/ec.rs: `EcdsaKeys::to_wrapped_ecdsa_keys`
  unfoldable pub to_wrapped_ecdsa_keys :
      (c : EllipticCurve) → EcdsaKeys S c → Outcome (WrappedEcdsaKeys S)
  to_wrapped_ecdsa_keys c self = do priv_key ← Ec.private_key_to_der S c self; from_der priv_key

  -- `as_inner()` with the methods of `KeyPair`
  unfoldable pub public_key_to_pem : WrappedEcdsaKeys S → Outcome String
  public_key_to_pem (on_p256 inner) = Ec.public_key_to_pem S p256 inner
  public_key_to_pem (on_p384 inner) = Ec.public_key_to_pem S p384 inner

  unfoldable pub public_key_to_der : WrappedEcdsaKeys S → Outcome Bytes
  public_key_to_der (on_p256 inner) = Ec.public_key_to_der S p256 inner
  public_key_to_der (on_p384 inner) = Ec.public_key_to_der S p384 inner

  unfoldable pub private_key_to_pem : WrappedEcdsaKeys S → Outcome String
  private_key_to_pem (on_p256 inner) = Ec.private_key_to_pem S p256 inner
  private_key_to_pem (on_p384 inner) = Ec.private_key_to_pem S p384 inner

  unfoldable pub private_key_to_der : WrappedEcdsaKeys S → Outcome Bytes
  private_key_to_der (on_p256 inner) = Ec.private_key_to_der S p256 inner
  private_key_to_der (on_p384 inner) = Ec.private_key_to_der S p384 inner

  unfoldable pub private_key_to_encrypted_pem :
      KdfLibs → Source → WrappedEcdsaKeys S → Bytes → Option (Outcome String)
  private_key_to_encrypted_pem K source (on_p256 inner) password =
      Ec.private_key_to_encrypted_pem S p256 K source inner password
  private_key_to_encrypted_pem K source (on_p384 inner) password =
      Ec.private_key_to_encrypted_pem S p384 K source inner password

  unfoldable pub to_verification_key :
      WrappedEcdsaKeys S → SigningScheme → Outcome (CosignVerificationKey L)
  to_verification_key (on_p256 inner) scheme = Ec.to_verification_key S p256 inner scheme
  to_verification_key (on_p384 inner) scheme = Ec.to_verification_key S p384 inner scheme
