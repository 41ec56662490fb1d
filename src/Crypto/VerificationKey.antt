-- ===== src/Crypto/VerificationKey.antt =====
-- src/crypto/verification_key.rs: building a verification key and verifying a signature with it.
pub mod Accepts
pub mod Detection
use sigstore_rs.Prelude.{
  ℕ, ◌+◌, ◌-◌, ◌*◌, ◌%◌, ◌^◌, String, Bytes, ok, err, map_err, map_ok, ◌>>=◌, ◌==◌, eqb,
  if◌then◌else◌, [], ◌∷◌, concat, decimal, length,
}
use sigstore_rs.Errors.{
  SigstoreError, Outcome, Foreign, invalid_key_format, from_pem_error, base64_decode_error,
  public_key_unsupported_algorithm_error, public_key_verification_error, pkcs8_spki_error,
  ecdsa_error, ed25519_pkcs1_error,
}
use sigstore_rs.Crypto.Libs.{Libs, sha256, sha384, sha512}
use sigstore_rs.Crypto.Scheme.{SigningScheme}

-- src/crypto/mod.rs: a signature as raw bytes, or encoded in base64
pub data Signature : Type 0 where
  raw base64_encoded : Bytes → Signature

pub data CosignVerificationKey (L : Libs) : Type 0 where
  rsa_pss_sha256 : L.PssKey sha256 → CosignVerificationKey L
  rsa_pss_sha384 : L.PssKey sha384 → CosignVerificationKey L
  rsa_pss_sha512 : L.PssKey sha512 → CosignVerificationKey L
  rsa_pkcs1_sha256 : L.Pkcs1Key sha256 → CosignVerificationKey L
  rsa_pkcs1_sha384 : L.Pkcs1Key sha384 → CosignVerificationKey L
  rsa_pkcs1_sha512 : L.Pkcs1Key sha512 → CosignVerificationKey L
  ecdsa_p256_sha256_asn1 : L.P256Key → CosignVerificationKey L
  ecdsa_p384_sha384_asn1 : L.P384Key → CosignVerificationKey L
  ed25519 : L.Ed25519Key → CosignVerificationKey L

-- src/cosign/constants.rs: ED25519
abbrev pub ed25519_oid : String
ed25519_oid = "1.3.101.112"

-- `(len - 1) * 4` on a `usize` of 64 bits, as it wraps without overflow checks
unfoldable pub ec_size : ℕ → ℕ
ec_size len = (len + 2 ^ 64 - 1) % 2 ^ 64 * 4 % 2 ^ 64

abbrev spki_failure : String → String → SigstoreError
spki_failure message e = pkcs8_spki_error (concat (message ∷ e ∷ []))

abbrev rsa_failure : String → SigstoreError
rsa_failure = spki_failure "read rsa public key from der failed: "

abbrev p256_failure : String → SigstoreError
p256_failure = spki_failure "Ecdsa-P256 from der bytes to public key failed: "

abbrev p384_failure : String → SigstoreError
p384_failure = spki_failure "Ecdsa-P384 from der bytes to public key failed: "

module _ (L : Libs) where
  -- `TryFrom<&SubjectPublicKeyInfo>`
  unfoldable pub try_from : L.Spki → Outcome (CosignVerificationKey L)
  try_from spki =
      let algorithm = L.spki_algorithm spki in
      let len = length (L.spki_public_key spki) in
      if algorithm == L.id_ec_public_key
      then (if eqb len 65
          then map_ok ecdsa_p256_sha256_asn1 (map_err p256_failure (L.p256_from_spki spki))
          else if eqb len 97
          then map_ok ecdsa_p384_sha384_asn1 (map_err p384_failure (L.p384_from_spki spki))
          else err (
              public_key_unsupported_algorithm_error
                (concat ("EC with size " ∷ decimal (ec_size len) ∷ " is not supported" ∷ []))))
      else if algorithm == L.rsa_encryption
      then map_ok (λ key. rsa_pkcs1_sha256 (L.pkcs1_from sha256 key))
          (map_err (spki_failure "RSA from der bytes to public key failed: ")
            (L.rsa_from_spki spki))
      else if algorithm == ed25519_oid
      then map_ok ed25519 (map_err ed25519_pkcs1_error (L.ed25519_from_spki spki))
      else err (
          public_key_unsupported_algorithm_error
            (concat ("Key with algorithm OID " ∷ algorithm ∷ " is not supported" ∷ [])))

  unfoldable pub rsa_key : Bytes → Outcome L.RsaPublicKey
  rsa_key der = map_err rsa_failure (L.rsa_from_der der)

  unfoldable pub from_der : Bytes → SigningScheme → Outcome (CosignVerificationKey L)
  unfolding rsa_key
  from_der der (SigningScheme.rsa_pss_sha256 _) =
      map_ok (λ key. rsa_pss_sha256 (L.pss_new sha256 key)) (rsa_key der)
  from_der der (SigningScheme.rsa_pss_sha384 _) =
      map_ok (λ key. rsa_pss_sha384 (L.pss_new sha384 key)) (rsa_key der)
  from_der der (SigningScheme.rsa_pss_sha512 _) =
      map_ok (λ key. rsa_pss_sha512 (L.pss_new sha512 key)) (rsa_key der)
  from_der der (SigningScheme.rsa_pkcs1_sha256 _) =
      map_ok (λ key. rsa_pkcs1_sha256 (L.pkcs1_new_with_prefix sha256 key)) (rsa_key der)
  from_der der (SigningScheme.rsa_pkcs1_sha384 _) =
      map_ok (λ key. rsa_pkcs1_sha384 (L.pkcs1_new_with_prefix sha384 key)) (rsa_key der)
  from_der der (SigningScheme.rsa_pkcs1_sha512 _) =
      map_ok (λ key. rsa_pkcs1_sha512 (L.pkcs1_new_with_prefix sha512 key)) (rsa_key der)
  from_der der SigningScheme.ecdsa_p256_sha256_asn1 =
      map_ok ecdsa_p256_sha256_asn1 (map_err p256_failure (L.p256_from_der der))
  from_der der SigningScheme.ecdsa_p384_sha384_asn1 =
      map_ok ecdsa_p384_sha384_asn1 (map_err p384_failure (L.p384_from_der der))
  from_der der SigningScheme.ed25519 =
      map_ok ed25519 (map_err ed25519_pkcs1_error (L.ed25519_from_der der))

  try_rsa : Foreign L.RsaPublicKey → Outcome (CosignVerificationKey L)
  try_rsa (ok key) = ok (rsa_pkcs1_sha256 (L.pkcs1_new_with_prefix sha256 key))
  try_rsa (err _) = err (invalid_key_format "Failed to parse the public key.")

  try_ed25519 : Bytes → Foreign Bytes → Outcome (CosignVerificationKey L)
  unfolding try_rsa
  try_ed25519 der (ok bytes) = map_ok ed25519 (map_err ecdsa_error (L.ed25519_from_bytes bytes))
  try_ed25519 der (err _) = try_rsa (L.rsa_from_der der)

  try_p384 : Bytes → Foreign L.P384Key → Outcome (CosignVerificationKey L)
  unfolding try_ed25519
  try_p384 der (ok key) = ok (ecdsa_p384_sha384_asn1 key)
  try_p384 der (err _) = try_ed25519 der (L.ed25519_public_key_bytes_from_der der)

  try_p256 : Bytes → Foreign L.P256Key → Outcome (CosignVerificationKey L)
  unfolding try_p384
  try_p256 der (ok key) = ok (ecdsa_p256_sha256_asn1 key)
  try_p256 der (err _) = try_p384 der (L.p384_from_der der)

  -- the chain of `if let Ok(…) … else if let Ok(…) …`
  unfoldable pub try_from_der : Bytes → Outcome (CosignVerificationKey L)
  unfolding try_p256
  try_from_der der = try_p256 der (L.p256_from_der der)

  unfoldable pub from_pem : Bytes → SigningScheme → Outcome (CosignVerificationKey L)
  from_pem pem_data scheme = do
    key_pem ← map_err from_pem_error (L.pem_parse pem_data)
    from_der key_pem.contents scheme

  unfoldable pub try_from_pem : Bytes → Outcome (CosignVerificationKey L)
  try_from_pem pem_data = do
    key_pem ← map_err from_pem_error (L.pem_parse pem_data)
    try_from_der key_pem.contents

  signature_bytes : Signature → Outcome Bytes
  signature_bytes (raw bytes) = ok bytes
  signature_bytes (base64_encoded bytes) = map_err base64_decode_error (L.base64_decode bytes)

  abbrev checked : Foreign (Unit {0}) → Outcome (Unit {0})
  checked = map_err (λ _. public_key_verification_error)

  -- the `match self` of `verify_signature`
  verify_bytes : CosignVerificationKey L → Bytes → Bytes → Outcome (Unit {0})
  verify_bytes (rsa_pss_sha256 inner) sig msg = do
    sig ← map_err ecdsa_error (L.pss_signature sig)
    checked (L.pss_verify sha256 inner msg sig)
  verify_bytes (rsa_pss_sha384 inner) sig msg = do
    sig ← map_err ecdsa_error (L.pss_signature sig)
    checked (L.pss_verify sha384 inner msg sig)
  verify_bytes (rsa_pss_sha512 inner) sig msg = do
    sig ← map_err ecdsa_error (L.pss_signature sig)
    checked (L.pss_verify sha512 inner msg sig)
  verify_bytes (rsa_pkcs1_sha256 inner) sig msg = do
    sig ← map_err ecdsa_error (L.pkcs1_signature sig)
    checked (L.pkcs1_verify sha256 inner msg sig)
  verify_bytes (rsa_pkcs1_sha384 inner) sig msg = do
    sig ← map_err ecdsa_error (L.pkcs1_signature sig)
    checked (L.pkcs1_verify sha384 inner msg sig)
  verify_bytes (rsa_pkcs1_sha512 inner) sig msg = do
    sig ← map_err ecdsa_error (L.pkcs1_signature sig)
    checked (L.pkcs1_verify sha512 inner msg sig)
  verify_bytes (ecdsa_p256_sha256_asn1 inner) sig msg = do
    sig ← map_err ecdsa_error (L.p256_signature_from_der sig)
    checked (L.p256_verify_digest inner (L.sha256_digest msg) sig)
  verify_bytes (ecdsa_p384_sha384_asn1 inner) sig msg = do
    sig ← map_err ecdsa_error (L.p384_signature_from_der sig)
    checked (L.p384_verify_digest inner (L.sha384_digest msg) sig)
  verify_bytes (ed25519 inner) sig msg = do
    sig ← map_err (λ _. public_key_verification_error) (L.ed25519_signature_from_slice sig)
    checked (L.ed25519_verify inner msg sig)

  unfoldable pub verify_signature : CosignVerificationKey L → Signature → Bytes → Outcome (Unit {0})
  unfolding signature_bytes verify_bytes
  verify_signature key signature msg = do sig ← signature_bytes signature; verify_bytes key sig msg
