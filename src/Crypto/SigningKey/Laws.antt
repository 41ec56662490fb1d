-- ===== src/Crypto/SigningKey/Laws.antt =====
-- src/crypto/signing_key: when the halves of a key pair belong together, when a signer belongs to its
-- key pair, and what the crates document of signing and verifying.
use sigstore_rs.Prelude.{Bytes, ◌≡◌, ok, as_bytes}
use sigstore_rs.Crypto.Libs.{Libs, Pem, Digest}
use sigstore_rs.Crypto.SigningKey.{EllipticCurve, p256, p384, Source, SigningLibs}
use sigstore_rs.Crypto.SigningKey.Ec.{EcdsaKeys, EcdsaSigner}
use sigstore_rs.Crypto.SigningKey.Ed25519.{Ed25519Keys}
use sigstore_rs.Crypto.SigningKey.Rsa
use sigstore_rs.Crypto.SigningKey.Rsa.{
  RsaKeys, RsaSigner, DigestAlgorithm, PaddingScheme, sha256, sha384, sha512, pss, pkcs1v15,
}
use sigstore_rs.Crypto.SigningKey.Ecdsa.{WrappedEcdsaKeys, on_p256, on_p384}
use sigstore_rs.Crypto.SigningKey.Signer
use sigstore_rs.Crypto.SigningKey.Signer.{SigStoreSigner}
use sigstore_rs.Crypto.SigningKey.KeyPair
use sigstore_rs.Crypto.SigningKey.KeyPair.{SigStoreKeyPair}

module _ {L : Libs} (S : SigningLibs L) where
  -- the public half is that of the private half
  abbrev pub IsEcPair : (c : EllipticCurve) → EcdsaKeys S c → Type 0
  IsEcPair c keys = keys.public_key ≡ S.secret_public c keys.ec_seckey

  abbrev pub IsEdPair : Ed25519Keys S → Type 0
  IsEdPair keys = keys.verifying_key ≡ S.ed_verifying_key keys.signing_key

  abbrev pub IsRsaPair : RsaKeys S → Type 0
  IsRsaPair keys = keys.public_key ≡ S.rsa_public keys.private_key

  abbrev pub IsWrappedPair : WrappedEcdsaKeys S → Type 0
  IsWrappedPair (on_p256 keys) = IsEcPair p256 keys
  IsWrappedPair (on_p384 keys) = IsEcPair p384 keys

  abbrev pub IsPair : SigStoreKeyPair S → Type 0
  IsPair (KeyPair.ecdsa keys) = IsWrappedPair keys
  IsPair (KeyPair.ed25519 keys) = IsEdPair keys
  IsPair (KeyPair.rsa keys) = IsRsaPair keys

  -- the signing key is what the secret key's PKCS#8 form reads as
  pub record IsEcSigner (c : EllipticCurve) (signer : EcdsaSigner S c) : Type 0 where
    pub pair : IsEcPair c signer.ecdsa_keys
    pub der : Bytes
    pub exported : S.secret_to_pkcs8_der c signer.ecdsa_keys.ec_seckey ≡ ok der
    pub imported : S.ec_signing_from_pkcs8_der c der ≡ ok signer.signing_key

  -- the signer is the one of its keys for this digest and padding
  pub record IsRsaSigner (digest : DigestAlgorithm) (padding : PaddingScheme) (signer : RsaSigner S)
      : Type 0 where
    pub keys : RsaKeys S
    pub pair : IsRsaPair keys
    pub same : signer ≡ Rsa.from_rsa_keys S keys digest padding

  abbrev pub IsSigner : SigStoreSigner S → Type 0
  IsSigner (Signer.ecdsa_p256_sha256_asn1 inner) = IsEcSigner p256 inner
  IsSigner (Signer.ecdsa_p384_sha384_asn1 inner) = IsEcSigner p384 inner
  IsSigner (Signer.ed25519 inner) = IsEdPair inner.key_pair
  IsSigner (Signer.rsa_pss_sha256 inner) = IsRsaSigner sha256 pss inner
  IsSigner (Signer.rsa_pss_sha384 inner) = IsRsaSigner sha384 pss inner
  IsSigner (Signer.rsa_pss_sha512 inner) = IsRsaSigner sha512 pss inner
  IsSigner (Signer.rsa_pkcs1_sha256 inner) = IsRsaSigner sha256 pkcs1v15 inner
  IsSigner (Signer.rsa_pkcs1_sha384 inner) = IsRsaSigner sha384 pkcs1v15 inner
  IsSigner (Signer.rsa_pkcs1_sha512 inner) = IsRsaSigner sha512 pkcs1v15 inner

  -- What is signed with a private key, its public key verifies, once it went through its encoding.
  pub record SignVerifies : Type 0 where
    pub on_p256 :
        (secret : S.SecretKey p256) (der : Bytes) (signing : S.EcSigningKey p256) (pem : _)
        (parsed : Pem) (key : L.P256Key) (digest sig : Bytes)
        → S.secret_to_pkcs8_der p256 secret ≡ ok der
        → S.ec_signing_from_pkcs8_der p256 der ≡ ok signing
        → S.ec_public_to_pem p256 (S.secret_public p256 secret) ≡ ok pem
        → L.pem_parse (as_bytes pem) ≡ ok parsed
        → L.p256_from_der parsed.contents ≡ ok key
        → S.try_sign_digest p256 signing digest ≡ ok sig
        → (s : L.P256Signature) × (L.p256_signature_from_der sig ≡ ok s)
          × (L.p256_verify_digest key digest s ≡ ok tt)
    pub on_p384 :
        (secret : S.SecretKey p384) (der : Bytes) (signing : S.EcSigningKey p384) (pem : _)
        (parsed : Pem) (key : L.P384Key) (digest sig : Bytes)
        → S.secret_to_pkcs8_der p384 secret ≡ ok der
        → S.ec_signing_from_pkcs8_der p384 der ≡ ok signing
        → S.ec_public_to_pem p384 (S.secret_public p384 secret) ≡ ok pem
        → L.pem_parse (as_bytes pem) ≡ ok parsed
        → L.p384_from_der parsed.contents ≡ ok key
        → S.try_sign_digest p384 signing digest ≡ ok sig
        → (s : L.P384Signature) × (L.p384_signature_from_der sig ≡ ok s)
          × (L.p384_verify_digest key digest s ≡ ok tt)
    pub on_ed25519 :
        (signing : S.EdSigningKey) (der : Bytes) (key : L.Ed25519Key) (msg sig : Bytes)
        → S.ed_public_to_der (S.ed_verifying_key signing) ≡ ok der
        → L.ed25519_from_der der ≡ ok key
        → S.ed_try_sign signing msg ≡ ok sig
        → (s : L.Ed25519Signature) × (L.ed25519_signature_from_slice sig ≡ ok s)
          × (L.ed25519_verify key msg s ≡ ok tt)
    pub on_pss :
        (d : Digest) (private_key : S.RsaPrivateKey) (der : Bytes) (key : L.RsaPublicKey)
        (rng : Source) (msg : Bytes)
        → S.rsa_public_to_der (S.rsa_public private_key) ≡ ok der
        → L.rsa_from_der der ≡ ok key
        → (s : L.PssSignature) × (L.pss_signature
              (S.pss_sign d (S.pss_signing_new d private_key) rng msg)
            ≡ ok s)
          × (L.pss_verify d (L.pss_new d key) msg s ≡ ok tt)
    pub on_pkcs1 :
        (d : Digest) (private_key : S.RsaPrivateKey) (der : Bytes) (key : L.RsaPublicKey)
        (rng : Source) (msg : Bytes)
        → S.rsa_public_to_der (S.rsa_public private_key) ≡ ok der
        → L.rsa_from_der der ≡ ok key
        → (s : L.Pkcs1Signature) × (L.pkcs1_signature
              (S.pkcs1_sign d (S.pkcs1_signing_new d private_key) rng msg)
            ≡ ok s)
          × (L.pkcs1_verify d (L.pkcs1_new_with_prefix d key) msg s ≡ ok tt)
