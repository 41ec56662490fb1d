-- ===== src/Crypto/SigningKey/Ec.antt =====
-- src/crypto/signing_key/ecdsa/ec.rs: the key pairs of one curve, and signing with them.
use sigstore_rs.Prelude.{
  String, Bytes, Option, ok, map_err, ◌>>=◌, ◌==◌, [], ◌∷◌, concat, as_bytes, if◌then◌else◌,
}
use sigstore_rs.Errors.{
  SigstoreError, Outcome, pkcs8_error, pkcs8_spki_error, pkcs8_der_error, ecdsa_error, ec_error,
}
use sigstore_rs.Crypto.Libs.{Libs}
use sigstore_rs.Crypto.Scheme.{SigningScheme}
use sigstore_rs.Crypto.Kdf.{KdfLibs, when_ok}
use sigstore_rs.Crypto.VerificationKey
use sigstore_rs.Crypto.VerificationKey.{CosignVerificationKey}
use sigstore_rs.Crypto.SigningKey.{
  EllipticCurve, p256, p384, Source, SigningLibs, private_key_pem_label, unsupported_tag, then_try,
  decrypted_der, read_info, read_document, encrypted_pem,
}

pub record EcdsaKeys {L : Libs} (S : SigningLibs L) (c : EllipticCurve) : Type 0 where
  pub ec_seckey : S.SecretKey c
  pub public_key : S.PublicKey c

-- the digest that the two signing schemes pair with a curve
abbrev pub hash : Libs → EllipticCurve → Bytes → Bytes
hash L p256 = L.sha256_digest
hash L p384 = L.sha384_digest

-- `EcdsaSigner<C, D>` with that digest
pub record EcdsaSigner {L : Libs} (S : SigningLibs L) (c : EllipticCurve) : Type 0 where
  pub signing_key : S.EcSigningKey c
  pub ecdsa_keys : EcdsaKeys S c

abbrev conversion_failed : String → String → SigstoreError
conversion_failed what e = pkcs8_error (concat (what ∷ e ∷ []))

module _ {L : Libs} (S : SigningLibs L) (c : EllipticCurve) where
  unfoldable pub from_private_key : S.SecretKey c → Outcome (EcdsaKeys S c)
  from_private_key ec_seckey =
      ok (record { ec_seckey = ec_seckey; public_key = S.secret_public c ec_seckey })

  unfoldable pub new : Source → Outcome (EcdsaKeys S c)
  new source =
      let ec_seckey = S.secret_random c source in
      ok (record { ec_seckey = ec_seckey; public_key = S.secret_public c ec_seckey })

  unfoldable pub read_sec1 : Bytes → Outcome (EcdsaKeys S c)
  unfolding from_private_key
  read_sec1 der = do
    pkcs8 ← read_info S der
    ec_seckey ← map_err ec_error (S.secret_from_sec1_der c (S.private_key pkcs8))
    from_private_key ec_seckey

  unfoldable pub from_encrypted_pem : KdfLibs → Bytes → Bytes → Option (Outcome (EcdsaKeys S c))
  unfolding read_sec1
  from_encrypted_pem K private_key password =
      then_try (decrypted_der L K private_key password) read_sec1

  unfoldable pub read_pkcs8 : String → Bytes → Outcome (EcdsaKeys S c)
  unfolding from_private_key
  read_pkcs8 what der = do
    ec_seckey ← map_err (conversion_failed what) (S.secret_from_pkcs8_der c der)
    from_private_key ec_seckey

  unfoldable pub labelled : String × Bytes → Outcome (EcdsaKeys S c)
  unfolding read_pkcs8
  labelled (label, document) =
      if label == private_key_pem_label
      then read_pkcs8 "Convert from pkcs8 pem to ecdsa private key failed: " document
      else unsupported_tag label

  unfoldable pub from_pem : Bytes → Outcome (EcdsaKeys S c)
  unfolding labelled
  from_pem pem_data = do found ← read_document S pem_data; labelled found

  unfoldable pub from_der : Bytes → Outcome (EcdsaKeys S c)
  unfolding read_pkcs8
  from_der private_key =
      read_pkcs8 "Convert from pkcs8 der to ecdsa private key failed: " private_key

  -- `impl KeyPair for EcdsaKeys<C>`
  unfoldable pub public_key_to_pem : EcdsaKeys S c → Outcome String
  public_key_to_pem self = map_err pkcs8_spki_error (S.ec_public_to_pem c self.public_key)

  unfoldable pub private_key_to_pem : EcdsaKeys S c → Outcome String
  private_key_to_pem self = map_err pkcs8_spki_error (S.secret_to_pkcs8_pem c self.ec_seckey)

  unfoldable pub public_key_to_der : EcdsaKeys S c → Outcome Bytes
  public_key_to_der self = map_err pkcs8_spki_error (S.ec_public_to_der c self.public_key)

  unfoldable pub private_key_to_der : EcdsaKeys S c → Outcome Bytes
  private_key_to_der self = map_err pkcs8_error (S.secret_to_pkcs8_der c self.ec_seckey)

  -- the contents of the unencrypted file are the encoding of the vector, not the vector
  unfoldable pub private_key_to_encrypted_pem :
      KdfLibs → Source → EcdsaKeys S c → Bytes → Option (Outcome String)
  private_key_to_encrypted_pem K source self password =
      when_ok (private_key_to_der self) (λ der.
        encrypted_pem S K source (map_err pkcs8_der_error (S.encode_to_vec der)) der password)

  unfoldable pub to_verification_key :
      EcdsaKeys S c → SigningScheme → Outcome (CosignVerificationKey L)
  to_verification_key self signing_scheme = do
    pem ← public_key_to_pem self
    VerificationKey.from_pem L (as_bytes pem) signing_scheme

  unfoldable pub from_ecdsa_keys : EcdsaKeys S c → Outcome (EcdsaSigner S c)
  from_ecdsa_keys ecdsa_keys = do
    der ← private_key_to_der ecdsa_keys
    signing_key ←
        map_err (conversion_failed "Convert from pkcs8 der to ecdsa private key failed: ")
          (S.ec_signing_from_pkcs8_der c der)
    ok (record { signing_key = signing_key; ecdsa_keys = ecdsa_keys })

  unfoldable pub sign : EcdsaSigner S c → Bytes → Outcome Bytes
  sign self msg = map_err ecdsa_error (S.try_sign_digest c self.signing_key (hash L c msg))
