-- ===== src/Crypto/SigningKey/Signer.antt =====
-- src/crypto/signing_key/mod.rs: `SigStoreSigner`, a signer of any scheme.
use sigstore_rs.Prelude.{Bytes}
use sigstore_rs.Errors.{Outcome}
use sigstore_rs.Crypto.Libs.{Libs}
use sigstore_rs.Crypto.Scheme
use sigstore_rs.Crypto.VerificationKey.{CosignVerificationKey}
use sigstore_rs.Crypto.SigningKey.{p256, p384, Source, SigningLibs}
use sigstore_rs.Crypto.SigningKey.Ec
use sigstore_rs.Crypto.SigningKey.Ec.{EcdsaSigner}
use sigstore_rs.Crypto.SigningKey.Ed25519
use sigstore_rs.Crypto.SigningKey.Ed25519.{Ed25519Signer}
use sigstore_rs.Crypto.SigningKey.Rsa
use sigstore_rs.Crypto.SigningKey.Rsa.{RsaSigner}

pub data SigStoreSigner {L : Libs} (S : SigningLibs L) : Type 0 where
  rsa_pss_sha256 rsa_pss_sha384 rsa_pss_sha512 : RsaSigner S → SigStoreSigner S
  rsa_pkcs1_sha256 rsa_pkcs1_sha384 rsa_pkcs1_sha512 : RsaSigner S → SigStoreSigner S
  ecdsa_p256_sha256_asn1 : EcdsaSigner S p256 → SigStoreSigner S
  ecdsa_p384_sha384_asn1 : EcdsaSigner S p384 → SigStoreSigner S
  ed25519 : Ed25519Signer S → SigStoreSigner S

module _ {L : Libs} {S : SigningLibs L} where
  -- `self.as_inner().sign(msg)`
  unfoldable pub sign : SigStoreSigner S → Source → Bytes → Outcome Bytes
  sign (ecdsa_p256_sha256_asn1 inner) rng msg = Ec.sign S p256 inner msg
  sign (ecdsa_p384_sha384_asn1 inner) rng msg = Ec.sign S p384 inner msg
  sign (ed25519 inner) rng msg = Ed25519.sign S inner msg
  sign (rsa_pss_sha256 inner) rng msg = Rsa.sign S inner rng msg
  sign (rsa_pss_sha384 inner) rng msg = Rsa.sign S inner rng msg
  sign (rsa_pss_sha512 inner) rng msg = Rsa.sign S inner rng msg
  sign (rsa_pkcs1_sha256 inner) rng msg = Rsa.sign S inner rng msg
  sign (rsa_pkcs1_sha384 inner) rng msg = Rsa.sign S inner rng msg
  sign (rsa_pkcs1_sha512 inner) rng msg = Rsa.sign S inner rng msg

  -- the `signing_scheme` of `to_verification_key`
  unfoldable pub signing_scheme : SigStoreSigner S → Scheme.SigningScheme
  signing_scheme (ecdsa_p256_sha256_asn1 inner) = Scheme.ecdsa_p256_sha256_asn1
  signing_scheme (ecdsa_p384_sha384_asn1 inner) = Scheme.ecdsa_p384_sha384_asn1
  signing_scheme (ed25519 inner) = Scheme.ed25519
  signing_scheme (rsa_pss_sha256 inner) = Scheme.rsa_pss_sha256 0
  signing_scheme (rsa_pss_sha384 inner) = Scheme.rsa_pss_sha384 0
  signing_scheme (rsa_pss_sha512 inner) = Scheme.rsa_pss_sha512 0
  signing_scheme (rsa_pkcs1_sha256 inner) = Scheme.rsa_pkcs1_sha256 0
  signing_scheme (rsa_pkcs1_sha384 inner) = Scheme.rsa_pkcs1_sha384 0
  signing_scheme (rsa_pkcs1_sha512 inner) = Scheme.rsa_pkcs1_sha512 0

  -- `self.as_inner().key_pair().to_verification_key(scheme)`
  unfoldable pub inner_verification_key :
      SigStoreSigner S → Scheme.SigningScheme → Outcome (CosignVerificationKey L)
  inner_verification_key (ecdsa_p256_sha256_asn1 inner) scheme =
      Ec.to_verification_key S p256 inner.ecdsa_keys scheme
  inner_verification_key (ecdsa_p384_sha384_asn1 inner) scheme =
      Ec.to_verification_key S p384 inner.ecdsa_keys scheme
  inner_verification_key (ed25519 inner) scheme =
      Ed25519.to_verification_key S inner.key_pair scheme
  inner_verification_key (rsa_pss_sha256 inner) scheme =
      Rsa.to_verification_key S (Rsa.rsa_keys S inner) scheme
  inner_verification_key (rsa_pss_sha384 inner) scheme =
      Rsa.to_verification_key S (Rsa.rsa_keys S inner) scheme
  inner_verification_key (rsa_pss_sha512 inner) scheme =
      Rsa.to_verification_key S (Rsa.rsa_keys S inner) scheme
  inner_verification_key (rsa_pkcs1_sha256 inner) scheme =
      Rsa.to_verification_key S (Rsa.rsa_keys S inner) scheme
  inner_verification_key (rsa_pkcs1_sha384 inner) scheme =
      Rsa.to_verification_key S (Rsa.rsa_keys S inner) scheme
  inner_verification_key (rsa_pkcs1_sha512 inner) scheme =
      Rsa.to_verification_key S (Rsa.rsa_keys S inner) scheme

  unfoldable pub to_verification_key : SigStoreSigner S → Outcome (CosignVerificationKey L)
  to_verification_key self = inner_verification_key self (signing_scheme self)

  -- src/crypto/verification_key.rs: `CosignVerificationKey::from_sigstore_signer`
  unfoldable pub from_sigstore_signer : SigStoreSigner S → Outcome (CosignVerificationKey L)
  from_sigstore_signer signer = to_verification_key signer
