-- ===== src/Crypto/Scheme.antt =====
-- src/crypto/mod.rs: `SigningScheme`, its names and the parsing of a name.
pub mod Names
use sigstore_rs.Prelude.{ℕ, String, Result, ok, err, ◌==◌, if◌then◌else◌, [], ◌∷◌, concat}

-- the number is the key size of an RSA scheme, in bits
pub data SigningScheme : Type 0 where
  rsa_pss_sha256 rsa_pss_sha384 rsa_pss_sha512 : ℕ → SigningScheme
  rsa_pkcs1_sha256 rsa_pkcs1_sha384 rsa_pkcs1_sha512 : ℕ → SigningScheme
  ecdsa_p256_sha256_asn1 ecdsa_p384_sha384_asn1 ed25519 : SigningScheme

-- src/crypto/signing_key/rsa/mod.rs
abbrev pub default_key_size : ℕ
default_key_size = 2048

unfoldable pub to_string : SigningScheme → String
to_string (rsa_pss_sha256 _) = "RSA_PSS_SHA256"
to_string (rsa_pss_sha384 _) = "RSA_PSS_SHA384"
to_string (rsa_pss_sha512 _) = "RSA_PSS_SHA512"
to_string (rsa_pkcs1_sha256 _) = "RSA_PKCS1_SHA256"
to_string (rsa_pkcs1_sha384 _) = "RSA_PKCS1_SHA384"
to_string (rsa_pkcs1_sha512 _) = "RSA_PKCS1_SHA512"
to_string ecdsa_p256_sha256_asn1 = "ECDSA_P256_SHA256_ASN1"
to_string ecdsa_p384_sha384_asn1 = "ECDSA_P384_SHA384_ASN1"
to_string ed25519 = "ED25519"

-- `TryFrom<&str>`, whose error is a `String`
unfoldable pub try_from : String → Result String SigningScheme
try_from value =
    if value == "ECDSA_P256_SHA256_ASN1"
    then ok ecdsa_p256_sha256_asn1
    else if value == "ECDSA_P384_SHA384_ASN1"
    then ok ecdsa_p384_sha384_asn1
    else if value == "ED25519"
    then ok ed25519
    else if value == "RSA_PSS_SHA256"
    then ok (rsa_pss_sha256 default_key_size)
    else if value == "RSA_PSS_SHA384"
    then ok (rsa_pss_sha384 default_key_size)
    else if value == "RSA_PSS_SHA512"
    then ok (rsa_pss_sha512 default_key_size)
    else if value == "RSA_PKCS1_SHA256"
    then ok (rsa_pkcs1_sha256 default_key_size)
    else if value == "RSA_PKCS1_SHA384"
    then ok (rsa_pkcs1_sha384 default_key_size)
    else if value == "RSA_PKCS1_SHA512"
    then ok (rsa_pkcs1_sha512 default_key_size)
    else err (concat ("Unsupported signing algorithm: " ∷ value ∷ []))

-- `SigningScheme::default()`
abbrev pub default : SigningScheme
default = ecdsa_p256_sha256_asn1
