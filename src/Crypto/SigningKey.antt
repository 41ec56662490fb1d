-- ===== src/Crypto/SigningKey.antt =====
-- src/crypto/signing_key: key pairs and signers. This file holds what the kinds of keys share: the
-- labels of src/crypto/signing_key/mod.rs, the crates that generate, read, write and sign (a
-- parameter), and the reading of PEM texts that the three kinds write out alike.
pub mod Ec
pub mod Ed25519
pub mod Rsa
pub mod Signer
pub mod Ecdsa
pub mod KeyPair
pub mod Creating
pub mod Laws
pub mod Pairs
pub mod Matching
pub mod Making
pub mod Verifying
pub mod Importing
pub mod Roundtrip
pub mod Using
use sigstore_rs.Prelude.{
  ℕ, String, Bytes, Option, none, some, ok, err, map_err, ok_or, ◌>>=◌, ◌||◌, ◌==◌, [], ◌∷◌, concat,
  from_utf8, is_empty, if◌then◌else◌,
}
use sigstore_rs.Errors.{
  Outcome, Foreign, from_pem_error, private_key_decrypt_error, pkcs8_error, pkcs8_der_error,
  utf8_error,
}
use sigstore_rs.Crypto.Libs.{Libs, Digest, Pem}
use sigstore_rs.Crypto.Kdf
use sigstore_rs.Crypto.Kdf.{KdfLibs, when_ok}

abbrev pub cosign_private_key_pem_label : String
cosign_private_key_pem_label = "ENCRYPTED COSIGN PRIVATE KEY"

abbrev pub public_key_pem_label : String
public_key_pem_label = "PUBLIC KEY"

abbrev pub sigstore_private_key_pem_label : String
sigstore_private_key_pem_label = "ENCRYPTED SIGSTORE PRIVATE KEY"

abbrev pub private_key_pem_label : String
private_key_pem_label = "PRIVATE KEY"

abbrev pub rsa_private_key_pem_label : String
rsa_private_key_pem_label = "RSA PRIVATE KEY"

-- src/crypto/signing_key/ecdsa/mod.rs
pub data EllipticCurve : Type 0 where
  p256 p384 : EllipticCurve

-- the random numbers of `OsRng` and `thread_rng`, by their place
abbrev pub Source : Type 0
Source = ℕ → ℕ

pub record SigningLibs (L : Libs) : Type 1 where
  -- the text of the `Utf8Error` for bytes that are no UTF-8
  pub utf8_failure : Bytes → String
  -- pkcs8 and pem
  pub secret_document_from_pem : String → Foreign (String × Bytes)
  pub PrivateKeyInfo : Type 0
  pub private_key_info : Bytes → Foreign PrivateKeyInfo
  pub private_key : PrivateKeyInfo → Bytes
  pub pem_encode : Pem → String
  -- `der::Encode::to_vec` of a vector of bytes
  pub encode_to_vec : Bytes → Foreign Bytes
  -- elliptic_curve and ecdsa, by the curve
  pub SecretKey : EllipticCurve → Type 0
  pub PublicKey : EllipticCurve → Type 0
  pub secret_random : (c : EllipticCurve) → Source → SecretKey c
  pub secret_public : (c : EllipticCurve) → SecretKey c → PublicKey c
  pub secret_from_sec1_der : (c : EllipticCurve) → Bytes → Foreign (SecretKey c)
  pub secret_from_pkcs8_der : (c : EllipticCurve) → Bytes → Foreign (SecretKey c)
  pub secret_to_pkcs8_pem : (c : EllipticCurve) → SecretKey c → Foreign String
  pub secret_to_pkcs8_der : (c : EllipticCurve) → SecretKey c → Foreign Bytes
  pub ec_public_to_pem : (c : EllipticCurve) → PublicKey c → Foreign String
  pub ec_public_to_der : (c : EllipticCurve) → PublicKey c → Foreign Bytes
  pub EcSigningKey : EllipticCurve → Type 0
  pub ec_signing_from_pkcs8_der : (c : EllipticCurve) → Bytes → Foreign (EcSigningKey c)
  -- `try_sign_digest(digest)` with `to_der`
  pub try_sign_digest : (c : EllipticCurve) → EcSigningKey c → Bytes → Foreign Bytes
  -- ed25519 and ed25519_dalek
  pub EdSigningKey : Type 0
  pub ed_generate : Source → EdSigningKey
  pub ed_verifying_key : EdSigningKey → L.Ed25519Key
  pub KeypairBytes : Type 0
  pub keypair_from_info : PrivateKeyInfo → Foreign KeypairBytes
  pub keypair_from_pkcs8_der : Bytes → Foreign KeypairBytes
  pub keypair_to_bytes : KeypairBytes → Option Bytes
  pub ed_from_keypair_bytes : Bytes → Foreign EdSigningKey
  pub ed_to_pkcs8_pem : EdSigningKey → Foreign String
  pub ed_to_pkcs8_der : EdSigningKey → Foreign Bytes
  pub ed_public_to_pem : L.Ed25519Key → Foreign String
  pub ed_public_to_der : L.Ed25519Key → Foreign Bytes
  pub ed_try_sign : EdSigningKey → Bytes → Foreign Bytes
  -- rsa
  pub RsaPrivateKey : Type 0
  pub rsa_new : Source → ℕ → Foreign RsaPrivateKey
  pub rsa_public : RsaPrivateKey → L.RsaPublicKey
  pub rsa_from_info : PrivateKeyInfo → Foreign RsaPrivateKey
  pub rsa_from_pkcs1_der : Bytes → Foreign RsaPrivateKey
  pub rsa_from_pkcs8_der : Bytes → Foreign RsaPrivateKey
  pub rsa_to_pkcs8_pem : RsaPrivateKey → Foreign String
  pub rsa_to_pkcs8_der : RsaPrivateKey → Foreign Bytes
  pub rsa_public_to_pem : L.RsaPublicKey → Foreign String
  pub rsa_public_to_der : L.RsaPublicKey → Foreign Bytes
  pub PssSigningKey : Digest → Type 0
  pub pss_signing_new : (d : Digest) → RsaPrivateKey → PssSigningKey d
  pub pss_verifying_key : (d : Digest) → PssSigningKey d → L.PssKey d
  pub pss_sign : (d : Digest) → PssSigningKey d → Source → Bytes → Bytes
  pub Pkcs1SigningKey : Digest → Type 0
  pub pkcs1_signing_new : (d : Digest) → RsaPrivateKey → Pkcs1SigningKey d
  pub pkcs1_verifying_key : (d : Digest) → Pkcs1SigningKey d → L.Pkcs1Key d
  pub pkcs1_sign : (d : Digest) → Pkcs1SigningKey d → Source → Bytes → Bytes

unfoldable pub unsupported_tag : {A : Type 0} → String → Outcome A
unsupported_tag tag = err (private_key_decrypt_error (concat ("Unsupported pem tag " ∷ tag ∷ [])))

-- the next step of a function that may have panicked
abbrev pub then_try : {A B : Type 0} → Option (Outcome A) → (A → Outcome B) → Option (Outcome B)
then_try none f = none
then_try (some r) f = some (r >>= f)

module _ (L : Libs) (K : KdfLibs) where
  -- how each `from_encrypted_pem` starts: the decrypted PKCS#8 document
  unfoldable pub decrypted_der : Bytes → Bytes → Option (Outcome Bytes)
  decrypted_der private_key password =
      when_ok (map_err from_pem_error (L.pem_parse private_key)) (λ key.
        if key.tag == cosign_private_key_pem_label || key.tag == sigstore_private_key_pem_label
        then Kdf.decrypt K key.contents password
        else some (unsupported_tag key.tag))

module _ {L : Libs} (S : SigningLibs L) where
  unfoldable pub read_info : Bytes → Outcome S.PrivateKeyInfo
  read_info der =
      map_err (λ e. pkcs8_error (concat ("Read PrivateKeyInfo failed: " ∷ e ∷ [])))
        (S.private_key_info der)

  -- how each `from_pem` starts: the label and the document
  unfoldable pub read_document : Bytes → Outcome (String × Bytes)
  read_document pem_data = do
    text ← ok_or (utf8_error (S.utf8_failure pem_data)) (from_utf8 pem_data)
    map_err pkcs8_der_error (S.secret_document_from_pem text)

  module _ (K : KdfLibs) where
    -- how each `private_key_to_encrypted_pem` ends, from the contents of an unencrypted file and
    -- the document to encrypt
    unfoldable pub encrypted_pem : Source → Outcome Bytes → Bytes → Bytes → Option (Outcome String)
    encrypted_pem source plain der password =
        if is_empty password
        then some (
            plain >>= (λ contents.
              ok (S.pem_encode (record { tag = private_key_pem_label; contents = contents }))))
        else then_try (Kdf.encrypt K source der password) (λ contents.
          ok (S.pem_encode (record { tag = sigstore_private_key_pem_label; contents = contents })))
