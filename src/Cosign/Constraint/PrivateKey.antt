-- ===== src/Cosign/Constraint/PrivateKey.antt =====
-- src/cosign/constraint/signature.rs: how a private key signer is made from the file of its key, and
-- what the layers that it signs pass. The source of the random bytes that its signatures use is an
-- argument, and `show` is the derived `to_string` of an error.
use sigstore_rs.Prelude.{
  String, Bytes, Bool, true, false, ◌≡◌, refl, sym, subst, Option, none, some, ok, map_err, ◌>>=◌,
  is_empty, ok-injective, some-injective, ◌∙◌, if◌then◌else◌,
}
use sigstore_rs.Errors.{SigstoreError, Outcome, apply_constraint_error}
use sigstore_rs.Crypto.Libs.{Libs}
use sigstore_rs.Crypto.Scheme.{SigningScheme}
use sigstore_rs.Crypto.Kdf.{KdfLibs}
use sigstore_rs.Crypto.VerificationKey.{CosignVerificationKey}
use sigstore_rs.Crypto.SigningKey.{Source, SigningLibs}
use sigstore_rs.Crypto.SigningKey.Signer.{SigStoreSigner, sign, from_sigstore_signer}
use sigstore_rs.Crypto.SigningKey.KeyPair.{
  SigStoreKeyPair, from_pem, from_encrypted_pem, to_sigstore_signer,
}
use sigstore_rs.Crypto.SigningKey.Laws.{SignVerifies, IsPair}
use sigstore_rs.Crypto.SigningKey.Pairs.{from_pem-IsPair, from_encrypted_pem-IsPair}
use sigstore_rs.Crypto.SigningKey.Making.{IsSignerOf, to_sigstore_signer-IsSignerOf}
use sigstore_rs.Crypto.SigningKey.Verifying.{to_verification_key-Accepts}
use sigstore_rs.Cosign.Bundle.{Json}
use sigstore_rs.Cosign.SignatureLayer.{SignatureLayer}
use sigstore_rs.Cosign.VerificationConstraint.{verify_public_key}
use sigstore_rs.Cosign.Constraint.{PrivateKeySigner, add_signature}
use sigstore_rs.Cosign.Constraint.Signing.{IsKeyPair, IsBase64, verify_public_key-add_signature}

module _ {L : Libs} (S : SigningLibs L) (K : KdfLibs) (show : SigstoreError → String)
    (rng : Source) where
  unfoldable pub new_with_signer : SigStoreSigner S → PrivateKeySigner
  new_with_signer signer = record { key = record { sign = sign signer rng } }

  -- both `map_err`s
  as_apply_error : {A : Type 0} → Outcome A → Outcome A
  as_apply_error = map_err (λ e. apply_constraint_error (show e))

  -- the second half, once the key pair was read without a panic
  sign_with : SigningScheme → Outcome (SigStoreKeyPair S) → Outcome PrivateKeySigner
  unfolding as_apply_error
  sign_with signing_scheme read = do
    keys ← as_apply_error read
    signer ← as_apply_error (to_sigstore_signer S keys signing_scheme)
    ok (new_with_signer signer)

  unfoldable pub read_key_pair : Bytes → Bytes → Option (Outcome (SigStoreKeyPair S))
  read_key_pair key_raw password =
      if is_empty password
      then some (from_pem S key_raw)
      else from_encrypted_pem S K key_raw password

  -- a panic of the reading is one of the whole
  after_read :
      SigningScheme → Option (Outcome (SigStoreKeyPair S)) → Option (Outcome PrivateKeySigner)
  unfolding sign_with
  after_read signing_scheme none = none
  after_read signing_scheme (some read) = some (sign_with signing_scheme read)

  unfoldable pub new_with_raw : Bytes → Bytes → SigningScheme → Option (Outcome PrivateKeySigner)
  unfolding after_read read_key_pair
  new_with_raw key_raw password signing_scheme =
      after_read signing_scheme (read_key_pair key_raw password)

  either-IsPair :
      (b : Bool) (key_raw password : Bytes) (keys : SigStoreKeyPair S)
      → (if b then some (from_pem S key_raw) else from_encrypted_pem S K key_raw password)
        ≡ some (ok keys)
      → IsPair S keys
  either-IsPair true key_raw password keys h = from_pem-IsPair S key_raw keys (some-injective h)
  either-IsPair false key_raw password keys h =
      from_encrypted_pem-IsPair S K key_raw password keys h

  read_key_pair-IsPair :
      (key_raw password : Bytes) (keys : SigStoreKeyPair S)
      → read_key_pair key_raw password ≡ some (ok keys)
      → IsPair S keys
  unfolding read_key_pair
  read_key_pair-IsPair key_raw password = either-IsPair (is_empty password) key_raw password

  inner-IsKeyPair :
      (scheme : SigningScheme) (inner : SigStoreSigner S) (key : CosignVerificationKey L)
      → SignVerifies S
      → IsSignerOf S scheme inner
      → from_sigstore_signer inner ≡ ok key
      → IsKeyPair L (new_with_signer inner).key key
  unfolding new_with_signer from_sigstore_signer
  inner-IsKeyPair scheme inner key laws made derived msg sig signed =
      to_verification_key-Accepts S laws rng msg sig inner key made.0 derived signed

  module _ (key_raw password : Bytes) (scheme : SigningScheme) (keys : SigStoreKeyPair S)
      (inner : SigStoreSigner S) (read : read_key_pair key_raw password ≡ some (ok keys))
      (converted : to_sigstore_signer S keys scheme ≡ ok inner) where
    new_with_raw-made : new_with_raw key_raw password scheme ≡ some (ok (new_with_signer inner))
    unfolding new_with_raw
    new_with_raw-made = rw (read, converted) refl

    -- Where the crates verify what they sign and base64 decoding undoes encoding, take a signer made
    -- from the file of a private key, read with or without a password. Each layer that the signer was
    -- applied to passes the public key constraint of the verification key of that private key.
    pub verify_public_key-new_with_raw :
        (J : Json) (signer : PrivateKeySigner) (key : CosignVerificationKey L)
        (before after : SignatureLayer L)
        → SignVerifies S
        → IsBase64 L
        → from_sigstore_signer inner ≡ ok key
        → new_with_raw key_raw password scheme ≡ some (ok signer)
        → add_signature L J signer before ≡ (ok true, after)
        → verify_public_key L (record { key = key }) after ≡ ok true
    verify_public_key-new_with_raw J signer key before after laws b64 derived made applied =
        verify_public_key-add_signature L J signer key before after b64
          (subst (λ s. IsKeyPair L s.key key)
            (ok-injective (some-injective (sym new_with_raw-made ∙ made)))
            (inner-IsKeyPair scheme inner key laws
              (to_sigstore_signer-IsSignerOf S keys scheme inner
                (read_key_pair-IsPair key_raw password keys read) converted)
              derived))
          applied
