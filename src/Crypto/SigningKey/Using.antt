-- ===== src/Crypto/SigningKey/Using.antt =====
-- src/crypto/signing_key: a key pair from its file to a verified signature.
use sigstore_rs.Prelude.{Bytes, ◌≡◌, ok}
use sigstore_rs.Crypto.Libs.{Libs}
use sigstore_rs.Crypto.Scheme.{SigningScheme}
use sigstore_rs.Crypto.VerificationKey.{CosignVerificationKey, raw, verify_signature}
use sigstore_rs.Crypto.SigningKey.{Source, SigningLibs}
use sigstore_rs.Crypto.SigningKey.Signer.{SigStoreSigner, sign, from_sigstore_signer}
use sigstore_rs.Crypto.SigningKey.KeyPair.{SigStoreKeyPair, from_pem, to_sigstore_signer}
use sigstore_rs.Crypto.SigningKey.Creating.{create_signer}
use sigstore_rs.Crypto.SigningKey.Laws.{SignVerifies}
use sigstore_rs.Crypto.SigningKey.Pairs.{from_pem-IsPair}
use sigstore_rs.Crypto.SigningKey.Making.{to_sigstore_signer-IsSignerOf, create_signer-IsSignerOf}
use sigstore_rs.Crypto.SigningKey.Verifying.{verify_signature-sign}

module _ {L : Libs} (S : SigningLibs L) (laws : SignVerifies S) (rng : Source) (msg sig : Bytes)
    (scheme : SigningScheme) (signer : SigStoreSigner S) (key : CosignVerificationKey L) where
  pub verify_signature-from_pem :
      (pem_data : Bytes) (keys : SigStoreKeyPair S)
      → from_pem S pem_data ≡ ok keys
      → to_sigstore_signer S keys scheme ≡ ok signer
      → from_sigstore_signer signer ≡ ok key
      → sign signer rng msg ≡ ok sig
      → verify_signature L key (raw sig) msg ≡ ok tt
  verify_signature-from_pem pem_data keys read converted derived signed =
      verify_signature-sign S laws rng msg sig signer key
        (to_sigstore_signer-IsSignerOf S keys scheme signer (from_pem-IsPair S pem_data keys read)
          converted).0
        derived signed

  pub verify_signature-create_signer :
      (source : Source)
      → create_signer S source scheme ≡ ok signer
      → from_sigstore_signer signer ≡ ok key
      → sign signer rng msg ≡ ok sig
      → verify_signature L key (raw sig) msg ≡ ok tt
  verify_signature-create_signer source created derived signed =
      verify_signature-sign S laws rng msg sig signer key
        (create_signer-IsSignerOf S source scheme signer created).0 derived signed
