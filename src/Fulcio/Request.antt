-- ===== src/Fulcio/Request.antt =====
-- src/fulcio/mod.rs: what the request for a certificate holds.
use sigstore_rs.Prelude.{String, Bytes, ◌≡◌, some, ok, as_bytes}
use sigstore_rs.Crypto.Libs.{Libs}
use sigstore_rs.Crypto.Scheme.{SigningScheme}
use sigstore_rs.Crypto.VerificationKey.{CosignVerificationKey, base64_encoded, verify_signature}
use sigstore_rs.Crypto.SigningKey.{SigningLibs}
use sigstore_rs.Crypto.SigningKey.Signer
use sigstore_rs.Crypto.SigningKey.Signer.{SigStoreSigner}
use sigstore_rs.Crypto.SigningKey.KeyPair
use sigstore_rs.Crypto.SigningKey.KeyPair.{SigStoreKeyPair}
use sigstore_rs.Crypto.SigningKey.Making.{IsSignerOf}
use sigstore_rs.Fulcio.{Csr}

-- The signer is of the scheme; the request holds its public key and its signature of the challenge,
-- which the verification key derived from it verifies.
pub record IsRequestOf {L : Libs} (S : SigningLibs L) (scheme : SigningScheme) (challenge : String)
    (signer : SigStoreSigner S) (csr : Csr) : Type 0 where
  pub of_scheme : IsSignerOf S scheme signer
  pub pair : SigStoreKeyPair S
  pub converted : KeyPair.to_sigstore_keypair S signer ≡ ok pair
  pub der : Bytes
  pub exported : KeyPair.public_key_to_der S pair ≡ ok der
  pub public_key : csr.public_key ≡ some (record { content = L.base64_encode der; scheme = scheme })
  pub signature : String
  pub signed : csr.signed_email_address ≡ some signature
  pub verifies :
      (key : CosignVerificationKey L)
      → Signer.from_sigstore_signer signer ≡ ok key
      → verify_signature L key (base64_encoded (as_bytes signature)) (as_bytes challenge) ≡ ok tt
