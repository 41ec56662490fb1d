-- ===== src/Crypto/SigningKey/Rsa.antt =====
-- src/crypto/signing_key/rsa: RSA key pairs (keypair.rs), and signing with them by a padding scheme and
-- a digest (mod.rs).
use sigstore_rs.Prelude.{
  ℕ, String, Bytes, Option, ok, map_err, ◌>>=◌, ◌==◌, [], ◌∷◌, concat, if◌then◌else◌,
}
use sigstore_rs.Errors.{Outcome, pkcs8_error, pkcs8_spki_error, rsa_error, pkcs1_error}
use sigstore_rs.Crypto.Libs.{Libs}
use sigstore_rs.Crypto.Libs
use sigstore_rs.Crypto.Scheme.{SigningScheme}
use sigstore_rs.Crypto.Kdf.{KdfLibs, when_ok}
use sigstore_rs.Crypto.VerificationKey
use sigstore_rs.Crypto.VerificationKey.{CosignVerificationKey}
use sigstore_rs.Crypto.SigningKey.{
  Source, SigningLibs, private_key_pem_label, rsa_private_key_pem_label, unsupported_tag, then_try,
  decrypted_der, read_info, read_document, encrypted_pem,
}

pub record RsaKeys {L : Libs} (S : SigningLibs L) : Type 0 where
  pub private_key : S.RsaPrivateKey
  pub public_key : L.RsaPublicKey

pub data DigestAlgorithm : Type 0 where
  sha256 sha384 sha512 : DigestAlgorithm

pub data PaddingScheme : Type 0 where
  pss pkcs1v15 : PaddingScheme

pub data RsaSigner {L : Libs} (S : SigningLibs L) : Type 0 where
  rsa_pss_sha256 : S.PssSigningKey Libs.sha256 → RsaKeys S → RsaSigner S
  rsa_pss_sha384 : S.PssSigningKey Libs.sha384 → RsaKeys S → RsaSigner S
  rsa_pss_sha512 : S.PssSigningKey Libs.sha512 → RsaKeys S → RsaSigner S
  rsa_pkcs1_sha256 : S.Pkcs1SigningKey Libs.sha256 → RsaKeys S → RsaSigner S
  rsa_pkcs1_sha384 : S.Pkcs1SigningKey Libs.sha384 → RsaKeys S → RsaSigner S
  rsa_pkcs1_sha512 : S.Pkcs1SigningKey Libs.sha512 → RsaKeys S → RsaSigner S

module _ {L : Libs} (S : SigningLibs L) where
  -- `From<RsaPrivateKey>`
  unfoldable pub from_private_key : S.RsaPrivateKey → RsaKeys S
  from_private_key private_key = record {
    private_key = private_key;
    public_key = S.rsa_public private_key;
  }

  unfoldable pub new : Source → ℕ → Outcome (RsaKeys S)
  new source bit_size = do
    private_key ← map_err rsa_error (S.rsa_new source bit_size)
    ok (record { private_key = private_key; public_key = S.rsa_public private_key })

  -- a PKCS#8 document, as a PEM file or a decrypted one holds it
  unfoldable pub read_pkcs8 : Bytes → Outcome (RsaKeys S)
  read_pkcs8 document = do
    pkcs8 ← read_info S document
    private_key ←
        map_err
          (λ e.
            pkcs8_error (concat ("Convert from pkcs8 pem to rsa private key failed: " ∷ e ∷ [])))
          (S.rsa_from_info pkcs8)
    ok (from_private_key private_key)

  unfoldable pub from_encrypted_pem : KdfLibs → Bytes → Bytes → Option (Outcome (RsaKeys S))
  unfolding read_pkcs8
  from_encrypted_pem K encrypted_pem password =
      then_try (decrypted_der L K encrypted_pem password) read_pkcs8

  unfoldable pub read_pkcs1 : Bytes → Outcome (RsaKeys S)
  read_pkcs1 document = do
    private_key ← map_err pkcs1_error (S.rsa_from_pkcs1_der document)
    ok (from_private_key private_key)

  unfoldable pub labelled : String × Bytes → Outcome (RsaKeys S)
  unfolding read_pkcs8 read_pkcs1
  labelled (label, document) =
      if label == private_key_pem_label
      then read_pkcs8 document
      else if label == rsa_private_key_pem_label
      then read_pkcs1 document
      else unsupported_tag label

  unfoldable pub from_pem : Bytes → Outcome (RsaKeys S)
  unfolding labelled
  from_pem pem = do found ← read_document S pem; labelled found

  unfoldable pub from_der : Bytes → Outcome (RsaKeys S)
  from_der der_bytes = do
    private_key ←
        map_err
          (λ e.
            pkcs8_error (concat ("Convert from pkcs8 der to rsa private key failed: " ∷ e ∷ [])))
          (S.rsa_from_pkcs8_der der_bytes)
    ok (from_private_key private_key)

  -- `impl KeyPair for RSAKeys`
  unfoldable pub public_key_to_pem : RsaKeys S → Outcome String
  public_key_to_pem self = map_err pkcs8_spki_error (S.rsa_public_to_pem self.public_key)

  unfoldable pub public_key_to_der : RsaKeys S → Outcome Bytes
  public_key_to_der self = map_err pkcs8_spki_error (S.rsa_public_to_der self.public_key)

  unfoldable pub private_key_to_pem : RsaKeys S → Outcome String
  private_key_to_pem self = map_err pkcs8_spki_error (S.rsa_to_pkcs8_pem self.private_key)

  unfoldable pub private_key_to_der : RsaKeys S → Outcome Bytes
  private_key_to_der self = map_err pkcs8_error (S.rsa_to_pkcs8_der self.private_key)

  unfoldable pub private_key_to_encrypted_pem :
      KdfLibs → Source → RsaKeys S → Bytes → Option (Outcome String)
  private_key_to_encrypted_pem K source self password =
      when_ok (private_key_to_der self) (λ der. encrypted_pem S K source (ok der) der password)

  unfoldable pub to_verification_key : RsaKeys S → SigningScheme → Outcome (CosignVerificationKey L)
  to_verification_key self signing_scheme = do
    der ← public_key_to_der self
    VerificationKey.from_der L der signing_scheme

  unfoldable pub from_rsa_privatekey_key : RsaKeys S → Outcome (RsaKeys S)
  from_rsa_privatekey_key key = do priv_key ← private_key_to_der key; from_der priv_key

  -- `RSASigner`
  unfoldable pub from_rsa_keys : RsaKeys S → DigestAlgorithm → PaddingScheme → RsaSigner S
  from_rsa_keys rsa_keys sha256 pss =
      rsa_pss_sha256 (S.pss_signing_new Libs.sha256 rsa_keys.private_key) rsa_keys
  from_rsa_keys rsa_keys sha384 pss =
      rsa_pss_sha384 (S.pss_signing_new Libs.sha384 rsa_keys.private_key) rsa_keys
  from_rsa_keys rsa_keys sha512 pss =
      rsa_pss_sha512 (S.pss_signing_new Libs.sha512 rsa_keys.private_key) rsa_keys
  from_rsa_keys rsa_keys sha256 pkcs1v15 =
      rsa_pkcs1_sha256 (S.pkcs1_signing_new Libs.sha256 rsa_keys.private_key) rsa_keys
  from_rsa_keys rsa_keys sha384 pkcs1v15 =
      rsa_pkcs1_sha384 (S.pkcs1_signing_new Libs.sha384 rsa_keys.private_key) rsa_keys
  from_rsa_keys rsa_keys sha512 pkcs1v15 =
      rsa_pkcs1_sha512 (S.pkcs1_signing_new Libs.sha512 rsa_keys.private_key) rsa_keys

  unfoldable pub rsa_keys : RsaSigner S → RsaKeys S
  rsa_keys (rsa_pss_sha256 signer key) = key
  rsa_keys (rsa_pss_sha384 signer key) = key
  rsa_keys (rsa_pss_sha512 signer key) = key
  rsa_keys (rsa_pkcs1_sha256 signer key) = key
  rsa_keys (rsa_pkcs1_sha384 signer key) = key
  rsa_keys (rsa_pkcs1_sha512 signer key) = key

  unfoldable pub verification_key : RsaSigner S → Outcome (CosignVerificationKey L)
  verification_key (rsa_pss_sha256 signer key) =
      ok (VerificationKey.rsa_pss_sha256 (S.pss_verifying_key Libs.sha256 signer))
  verification_key (rsa_pss_sha384 signer key) =
      ok (VerificationKey.rsa_pss_sha384 (S.pss_verifying_key Libs.sha384 signer))
  verification_key (rsa_pss_sha512 signer key) =
      ok (VerificationKey.rsa_pss_sha512 (S.pss_verifying_key Libs.sha512 signer))
  verification_key (rsa_pkcs1_sha256 signer key) =
      ok (VerificationKey.rsa_pkcs1_sha256 (S.pkcs1_verifying_key Libs.sha256 signer))
  verification_key (rsa_pkcs1_sha384 signer key) =
      ok (VerificationKey.rsa_pkcs1_sha384 (S.pkcs1_verifying_key Libs.sha384 signer))
  verification_key (rsa_pkcs1_sha512 signer key) =
      ok (VerificationKey.rsa_pkcs1_sha512 (S.pkcs1_verifying_key Libs.sha512 signer))

  unfoldable pub sign : RsaSigner S → Source → Bytes → Outcome Bytes
  sign (rsa_pss_sha256 signer key) rng msg = ok (S.pss_sign Libs.sha256 signer rng msg)
  sign (rsa_pss_sha384 signer key) rng msg = ok (S.pss_sign Libs.sha384 signer rng msg)
  sign (rsa_pss_sha512 signer key) rng msg = ok (S.pss_sign Libs.sha512 signer rng msg)
  sign (rsa_pkcs1_sha256 signer key) rng msg = ok (S.pkcs1_sign Libs.sha256 signer rng msg)
  sign (rsa_pkcs1_sha384 signer key) rng msg = ok (S.pkcs1_sign Libs.sha384 signer rng msg)
  sign (rsa_pkcs1_sha512 signer key) rng msg = ok (S.pkcs1_sign Libs.sha512 signer rng msg)
