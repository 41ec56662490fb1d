-- ===== src/Crypto/SigningKey/KeyPair.antt =====
-- src/crypto/signing_key/mod.rs: `SigStoreKeyPair`, a key pair of any kind, and the signers made from
-- it (with those of src/crypto/signing_key/rsa/keypair.rs and ed25519.rs).
use sigstore_rs.Prelude.{String, Bytes, Option, some, ok, err, map_ok}
use sigstore_rs.Errors.{Outcome, key_parse_error, unmatched_key_and_signing_scheme}
use sigstore_rs.Crypto.Libs.{Libs}
use sigstore_rs.Crypto.Scheme
use sigstore_rs.Crypto.Kdf.{KdfLibs}
use sigstore_rs.Crypto.VerificationKey.{CosignVerificationKey}
use sigstore_rs.Crypto.SigningKey.{p256, p384, Source, SigningLibs}
use sigstore_rs.Crypto.SigningKey.Ec
use sigstore_rs.Crypto.SigningKey.Ed25519
use sigstore_rs.Crypto.SigningKey.Ed25519.{Ed25519Keys}
use sigstore_rs.Crypto.SigningKey.Rsa
use sigstore_rs.Crypto.SigningKey.Rsa.{
  RsaKeys, DigestAlgorithm, PaddingScheme, sha256, sha384, sha512, pss, pkcs1v15,
}
use sigstore_rs.Crypto.SigningKey.Ecdsa
use sigstore_rs.Crypto.SigningKey.Ecdsa.{
  WrappedEcdsaKeys, on_p256, on_p384, or_try, or_try_panicking,
}
use sigstore_rs.Crypto.SigningKey.Signer
use sigstore_rs.Crypto.SigningKey.Signer.{SigStoreSigner}

pub data SigStoreKeyPair {L : Libs} (S : SigningLibs L) : Type 0 where
  ecdsa : WrappedEcdsaKeys S → SigStoreKeyPair S
  ed25519 : Ed25519Keys S → SigStoreKeyPair S
  rsa : RsaKeys S → SigStoreKeyPair S

unfoldable pub to_string : {L : Libs} {S : SigningLibs L} → SigStoreKeyPair S → String
to_string (ecdsa keys) = "EC Key"
to_string (ed25519 keys) = "Ed25519 Key"
to_string (rsa keys) = "RSA Key"

module _ {L : Libs} (S : SigningLibs L) where
  -- the macro `sigstore_keypair_from!`
  abbrev unsupported : Outcome (SigStoreKeyPair S)
  unsupported = err (key_parse_error "Unsupported key type")

  unfoldable pub from_pem : Bytes → Outcome (SigStoreKeyPair S)
  from_pem pem_data = or_try (Ecdsa.from_pem S pem_data) ecdsa (
      or_try (Ed25519.from_pem S pem_data) ed25519
        (or_try (Rsa.from_pem S pem_data) rsa unsupported))

  unfoldable pub from_der : Bytes → Outcome (SigStoreKeyPair S)
  from_der private_key = or_try (Ecdsa.from_der S private_key) ecdsa (
      or_try (Ed25519.from_der S private_key) ed25519
        (or_try (Rsa.from_der S private_key) rsa unsupported))

  unfoldable pub from_encrypted_pem : KdfLibs → Bytes → Bytes → Option (Outcome (SigStoreKeyPair S))
  from_encrypted_pem K pem_data password =
      or_try_panicking (Ecdsa.from_encrypted_pem S K pem_data password) ecdsa (
        or_try_panicking (Ed25519.from_encrypted_pem S K pem_data password) ed25519
          (or_try_panicking (Rsa.from_encrypted_pem S K pem_data password) rsa (some unsupported)))

  unfoldable pub public_key_to_pem : SigStoreKeyPair S → Outcome String
  public_key_to_pem (ecdsa keys) = Ecdsa.public_key_to_pem S keys
  public_key_to_pem (ed25519 keys) = Ed25519.public_key_to_pem S keys
  public_key_to_pem (rsa keys) = Rsa.public_key_to_pem S keys

  unfoldable pub public_key_to_der : SigStoreKeyPair S → Outcome Bytes
  public_key_to_der (ecdsa keys) = Ecdsa.public_key_to_der S keys
  public_key_to_der (ed25519 keys) = Ed25519.public_key_to_der S keys
  public_key_to_der (rsa keys) = Rsa.public_key_to_der S keys

  unfoldable pub private_key_to_encrypted_pem :
      KdfLibs → Source → SigStoreKeyPair S → Bytes → Option (Outcome String)
  private_key_to_encrypted_pem K source (ecdsa keys) password =
      Ecdsa.private_key_to_encrypted_pem S K source keys password
  private_key_to_encrypted_pem K source (ed25519 keys) password =
      Ed25519.private_key_to_encrypted_pem S K source keys password
  private_key_to_encrypted_pem K source (rsa keys) password =
      Rsa.private_key_to_encrypted_pem S K source keys password

  unfoldable pub private_key_to_pem : SigStoreKeyPair S → Outcome String
  private_key_to_pem (ecdsa keys) = Ecdsa.private_key_to_pem S keys
  private_key_to_pem (ed25519 keys) = Ed25519.private_key_to_pem S keys
  private_key_to_pem (rsa keys) = Rsa.private_key_to_pem S keys

  unfoldable pub private_key_to_der : SigStoreKeyPair S → Outcome Bytes
  private_key_to_der (ecdsa keys) = Ecdsa.private_key_to_der S keys
  private_key_to_der (ed25519 keys) = Ed25519.private_key_to_der S keys
  private_key_to_der (rsa keys) = Rsa.private_key_to_der S keys

  unfoldable pub to_verification_key :
      SigStoreKeyPair S → Scheme.SigningScheme → Outcome (CosignVerificationKey L)
  to_verification_key (ecdsa keys) signing_scheme = Ecdsa.to_verification_key S keys signing_scheme
  to_verification_key (ed25519 keys) signing_scheme =
      Ed25519.to_verification_key S keys signing_scheme
  to_verification_key (rsa keys) signing_scheme = Rsa.to_verification_key S keys signing_scheme

  -- src/crypto/signing_key/rsa/keypair.rs: `RSAKeys::to_sigstore_signer`; the inner signer is built
  -- there as `RSASigner::from_rsa_keys` builds it
  unfoldable pub rsa_signer : RsaKeys S → DigestAlgorithm → PaddingScheme → SigStoreSigner S
  rsa_signer keys sha256 pss = Signer.rsa_pss_sha256 (Rsa.from_rsa_keys S keys sha256 pss)
  rsa_signer keys sha384 pss = Signer.rsa_pss_sha384 (Rsa.from_rsa_keys S keys sha384 pss)
  rsa_signer keys sha512 pss = Signer.rsa_pss_sha512 (Rsa.from_rsa_keys S keys sha512 pss)
  rsa_signer keys sha256 pkcs1v15 =
      Signer.rsa_pkcs1_sha256 (Rsa.from_rsa_keys S keys sha256 pkcs1v15)
  rsa_signer keys sha384 pkcs1v15 =
      Signer.rsa_pkcs1_sha384 (Rsa.from_rsa_keys S keys sha384 pkcs1v15)
  rsa_signer keys sha512 pkcs1v15 =
      Signer.rsa_pkcs1_sha512 (Rsa.from_rsa_keys S keys sha512 pkcs1v15)

  -- src/crypto/signing_key/ed25519.rs: `Ed25519Keys::to_sigstore_signer`
  unfoldable pub ed25519_signer : Ed25519Keys S → Outcome (SigStoreSigner S)
  ed25519_signer keys = map_ok Signer.ed25519 (Ed25519.from_ed25519_keys S keys)

  -- the key type that an error names, and the scheme
  unfoldable pub unmatched : String → Scheme.SigningScheme → Outcome (SigStoreSigner S)
  unmatched key_typ signing_scheme =
      err (unmatched_key_and_signing_scheme key_typ (Scheme.to_string signing_scheme))

  unfoldable pub ecdsa_signer :
      WrappedEcdsaKeys S → Scheme.SigningScheme → Outcome (SigStoreSigner S)
  unfolding unmatched
  ecdsa_signer (on_p256 key) Scheme.ecdsa_p256_sha256_asn1 =
      map_ok Signer.ecdsa_p256_sha256_asn1 (Ec.from_ecdsa_keys S p256 key)
  ecdsa_signer (on_p384 key) Scheme.ecdsa_p256_sha256_asn1 =
      unmatched (Ecdsa.to_string (on_p384 key)) Scheme.ecdsa_p256_sha256_asn1
  ecdsa_signer (on_p384 key) Scheme.ecdsa_p384_sha384_asn1 =
      map_ok Signer.ecdsa_p384_sha384_asn1 (Ec.from_ecdsa_keys S p384 key)
  ecdsa_signer (on_p256 key) Scheme.ecdsa_p384_sha384_asn1 =
      unmatched (Ecdsa.to_string (on_p256 key)) Scheme.ecdsa_p384_sha384_asn1
  ecdsa_signer keys other = unmatched (to_string (ecdsa keys)) other

  unfoldable pub to_sigstore_signer :
      SigStoreKeyPair S → Scheme.SigningScheme → Outcome (SigStoreSigner S)
  unfolding unmatched ecdsa_signer
  to_sigstore_signer (ecdsa keys) scheme = ecdsa_signer keys scheme
  to_sigstore_signer (ed25519 keys) Scheme.ed25519 = ed25519_signer keys
  to_sigstore_signer (ed25519 keys) scheme = unmatched (to_string (ed25519 keys)) scheme
  to_sigstore_signer (rsa keys) (Scheme.rsa_pss_sha256 _) = ok (rsa_signer keys sha256 pss)
  to_sigstore_signer (rsa keys) (Scheme.rsa_pss_sha384 _) = ok (rsa_signer keys sha384 pss)
  to_sigstore_signer (rsa keys) (Scheme.rsa_pss_sha512 _) = ok (rsa_signer keys sha512 pss)
  to_sigstore_signer (rsa keys) (Scheme.rsa_pkcs1_sha256 _) = ok (rsa_signer keys sha256 pkcs1v15)
  to_sigstore_signer (rsa keys) (Scheme.rsa_pkcs1_sha384 _) = ok (rsa_signer keys sha384 pkcs1v15)
  to_sigstore_signer (rsa keys) (Scheme.rsa_pkcs1_sha512 _) = ok (rsa_signer keys sha512 pkcs1v15)
  to_sigstore_signer (rsa keys) scheme = unmatched (to_string (rsa keys)) scheme

  -- `SigStoreSigner::to_sigstore_keypair`
  unfoldable pub to_sigstore_keypair : SigStoreSigner S → Outcome (SigStoreKeyPair S)
  to_sigstore_keypair (Signer.ecdsa_p256_sha256_asn1 inner) =
      map_ok ecdsa (Ecdsa.to_wrapped_ecdsa_keys S p256 inner.ecdsa_keys)
  to_sigstore_keypair (Signer.ecdsa_p384_sha384_asn1 inner) =
      map_ok ecdsa (Ecdsa.to_wrapped_ecdsa_keys S p384 inner.ecdsa_keys)
  to_sigstore_keypair (Signer.ed25519 inner) =
      map_ok ed25519 (Ed25519.from_ed25519key S inner.key_pair)
  to_sigstore_keypair (Signer.rsa_pss_sha256 inner) = ok (rsa (Rsa.rsa_keys S inner))
  to_sigstore_keypair (Signer.rsa_pss_sha384 inner) = ok (rsa (Rsa.rsa_keys S inner))
  to_sigstore_keypair (Signer.rsa_pss_sha512 inner) = ok (rsa (Rsa.rsa_keys S inner))
  to_sigstore_keypair (Signer.rsa_pkcs1_sha256 inner) = ok (rsa (Rsa.rsa_keys S inner))
  to_sigstore_keypair (Signer.rsa_pkcs1_sha384 inner) = ok (rsa (Rsa.rsa_keys S inner))
  to_sigstore_keypair (Signer.rsa_pkcs1_sha512 inner) = ok (rsa (Rsa.rsa_keys S inner))
