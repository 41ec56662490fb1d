-- ===== src/Crypto/Scheme/Names.antt =====
-- Names of signing schemes: printing and parsing.
use sigstore_rs.Prelude.{String, ◌≡◌, refl, ok, arith, eq_iff}
use sigstore_rs.Crypto.Scheme.{
  SigningScheme, rsa_pss_sha256, rsa_pss_sha384, rsa_pss_sha512, rsa_pkcs1_sha256, rsa_pkcs1_sha384,
  rsa_pkcs1_sha512, default_key_size, to_string, try_from,
}

-- the same scheme with the key size that a name stands for
abbrev pub with_default_size : SigningScheme → SigningScheme
with_default_size (rsa_pss_sha256 _) = rsa_pss_sha256 default_key_size
with_default_size (rsa_pss_sha384 _) = rsa_pss_sha384 default_key_size
with_default_size (rsa_pss_sha512 _) = rsa_pss_sha512 default_key_size
with_default_size (rsa_pkcs1_sha256 _) = rsa_pkcs1_sha256 default_key_size
with_default_size (rsa_pkcs1_sha384 _) = rsa_pkcs1_sha384 default_key_size
with_default_size (rsa_pkcs1_sha512 _) = rsa_pkcs1_sha512 default_key_size
with_default_size s = s

-- Parsing the printed name of any scheme returns that scheme, an RSA key size replaced by the
-- default of 2048 bits.
pub try_from-to_string : (s : SigningScheme) → try_from (to_string s) ≡ ok (with_default_size s)
unfolding try_from to_string
try_from-to_string (rsa_pss_sha256 _) = refl
try_from-to_string _ = refl

-- A text that parses to a scheme is the printed name of that scheme.
pub to_string_of_try_from :
    (value : String) (s : SigningScheme) → try_from value ≡ ok s → to_string s ≡ value
unfolding try_from to_string
to_string_of_try_from value s h = ground (
  arith,
  eq_iff value "ECDSA_P256_SHA256_ASN1",
  eq_iff value "ECDSA_P384_SHA384_ASN1",
  eq_iff value "ED25519",
  eq_iff value "RSA_PSS_SHA256",
  eq_iff value "RSA_PSS_SHA384",
  eq_iff value "RSA_PSS_SHA512",
  eq_iff value "RSA_PKCS1_SHA256",
  eq_iff value "RSA_PKCS1_SHA384",
  eq_iff value "RSA_PKCS1_SHA512",
)
