-- ===== src/Crypto/SigningKey/Ed25519.antt =====
-- src/crypto/signing_key/ed25519.rs: key pairs of Ed25519, and signing with them.
use sigstore_rs.Prelude.{
  String, Bytes, Option, ok, map_err, ok_or, ◌>>=◌, ◌==◌, [], ◌∷◌, concat, if◌then◌else◌,
}
use sigstore_rs.Errors.{Outcome, pkcs8_error, pkcs8_spki_error, ecdsa_error}
use sigstore_rs.Crypto.Libs.{Libs}
use sigstore_rs.Crypto.Scheme
use sigstore_rs.Crypto.Kdf.{KdfLibs, when_ok}
use sigstore_rs.Crypto.VerificationKey
use sigstore_rs.Crypto.VerificationKey.{CosignVerificationKey}
use sigstore_rs.Crypto.SigningKey.{
  Source, SigningLibs, private_key_pem_label, unsupported_tag, then_try, decrypted_der, read_info,
  read_document, encrypted_pem,
}

pub record Ed25519Keys {L : Libs} (S : SigningLibs L) : Type 0 where
  pub signing_key : S.EdSigningKey
  pub verifying_key : L.Ed25519Key

pub record Ed25519Signer {L : Libs} (S : SigningLibs L) : Type 0 where
  pub key_pair : Ed25519Keys S

module _ {L : Libs} (S : SigningLibs L) where
  -- the pair of a signing key and its `verifying_key()`
  unfoldable pub of_signing_key : S.EdSigningKey → Ed25519Keys S
  of_signing_key signing_key = record {
    signing_key = signing_key;
    verifying_key = S.ed_verifying_key signing_key;
  }

  unfoldable pub new : Source → Outcome (Ed25519Keys S)
  unfolding of_signing_key
  new source = ok (of_signing_key (S.ed_generate source))

  unfoldable pub from_key_pair_bytes : S.KeypairBytes → Outcome (Ed25519Keys S)
  unfolding of_signing_key
  from_key_pair_bytes key_pair_bytes = do
    bytes ←
        ok_or (pkcs8_spki_error "No public key info in given key_pair_bytes.")
          (S.keypair_to_bytes key_pair_bytes)
    signing_key ← map_err ecdsa_error (S.ed_from_keypair_bytes bytes)
    ok (of_signing_key signing_key)

  -- a PKCS#8 document, as a PEM file or a decrypted one holds it
  unfoldable pub read_pkcs8 : Bytes → Outcome (Ed25519Keys S)
  read_pkcs8 document = do
    pkcs8 ← read_info S document
    key_pair_bytes ←
        map_err
          (λ e.
            pkcs8_error
              (concat ("Convert from pkcs8 pem to ed25519 private key failed: " ∷ e ∷ [])))
          (S.keypair_from_info pkcs8)
    from_key_pair_bytes key_pair_bytes

  unfoldable pub from_encrypted_pem : KdfLibs → Bytes → Bytes → Option (Outcome (Ed25519Keys S))
  unfolding read_pkcs8
  from_encrypted_pem K encrypted_pem password =
      then_try (decrypted_der L K encrypted_pem password) read_pkcs8

  unfoldable pub labelled : String × Bytes → Outcome (Ed25519Keys S)
  unfolding read_pkcs8
  labelled (label, document) =
      if label == private_key_pem_label then read_pkcs8 document else unsupported_tag label

  unfoldable pub from_pem : Bytes → Outcome (Ed25519Keys S)
  unfolding labelled
  from_pem pem = do found ← read_document S pem; labelled found

  unfoldable pub from_der : Bytes → Outcome (Ed25519Keys S)
  from_der der_bytes = do
    key_pair_bytes ←
        map_err
          (λ e.
            pkcs8_error
              (concat ("Convert from pkcs8 der to ed25519 private key failed: " ∷ e ∷ [])))
          (S.keypair_from_pkcs8_der der_bytes)
    from_key_pair_bytes key_pair_bytes

  -- `impl KeyPair for Ed25519Keys`
  unfoldable pub public_key_to_pem : Ed25519Keys S → Outcome String
  public_key_to_pem self = map_err pkcs8_spki_error (S.ed_public_to_pem self.verifying_key)

  unfoldable pub public_key_to_der : Ed25519Keys S → Outcome Bytes
  public_key_to_der self = map_err pkcs8_spki_error (S.ed_public_to_der self.verifying_key)

  unfoldable pub private_key_to_pem : Ed25519Keys S → Outcome String
  private_key_to_pem self = map_err pkcs8_spki_error (S.ed_to_pkcs8_pem self.signing_key)

  unfoldable pub private_key_to_der : Ed25519Keys S → Outcome Bytes
  private_key_to_der self = map_err pkcs8_error (S.ed_to_pkcs8_der self.signing_key)

  unfoldable pub private_key_to_encrypted_pem :
      KdfLibs → Source → Ed25519Keys S → Bytes → Option (Outcome String)
  private_key_to_encrypted_pem K source self password =
      when_ok (private_key_to_der self) (λ der. encrypted_pem S K source (ok der) der password)

  -- the scheme given is not read
  unfoldable pub to_verification_key :
      Ed25519Keys S → Scheme.SigningScheme → Outcome (CosignVerificationKey L)
  to_verification_key self signing_scheme = do
    der ← public_key_to_der self
    VerificationKey.from_der L der Scheme.ed25519

  unfoldable pub from_ed25519key : Ed25519Keys S → Outcome (Ed25519Keys S)
  from_ed25519key key = do priv_key ← private_key_to_der key; from_der priv_key

  unfoldable pub from_ed25519_keys : Ed25519Keys S → Outcome (Ed25519Signer S)
  from_ed25519_keys ed25519_keys = ok (record { key_pair = ed25519_keys })

  unfoldable pub sign : Ed25519Signer S → Bytes → Outcome Bytes
  sign self msg = map_err ecdsa_error (S.ed_try_sign self.key_pair.signing_key msg)
