-- ===== src/Crypto/VerificationKey/Accepts.antt =====
-- When a key accepts a signature, said of the libraries' own verification.
use sigstore_rs.Prelude.{
  Bytes, ◌≡◌, refl, ◌↔◌, ap, ◌∙◌, String, ok-injective, ok, err, map_err, ◌>>=◌, >>=-eq-ok,
  map_err-eq-ok,
}
use sigstore_rs.Errors.{Foreign, SigstoreError}
use sigstore_rs.Crypto.Libs.{Libs, sha256, sha384, sha512}
use sigstore_rs.Crypto.VerificationKey.{
  CosignVerificationKey, Signature, raw, base64_encoded, rsa_pss_sha256, rsa_pss_sha384,
  rsa_pss_sha512, rsa_pkcs1_sha256, rsa_pkcs1_sha384, rsa_pkcs1_sha512, ecdsa_p256_sha256_asn1,
  ecdsa_p384_sha384_asn1, ed25519, verify_signature, verify_bytes, signature_bytes, checked,
}

-- the signature's bytes parse, and the parsed signature verifies
abbrev Checks : {S : Type 0} → Foreign S → (S → Foreign (Unit {0})) → Type 0
Checks {S} parsed verify = (s : S) × (parsed ≡ ok s) × (verify s ≡ ok tt)

module _ (L : Libs) where
  abbrev pub Accepts : CosignVerificationKey L → Bytes → Bytes → Type 0
  Accepts (rsa_pss_sha256 k) sig msg = Checks (L.pss_signature sig) (L.pss_verify sha256 k msg)
  Accepts (rsa_pss_sha384 k) sig msg = Checks (L.pss_signature sig) (L.pss_verify sha384 k msg)
  Accepts (rsa_pss_sha512 k) sig msg = Checks (L.pss_signature sig) (L.pss_verify sha512 k msg)
  Accepts (rsa_pkcs1_sha256 k) sig msg =
      Checks (L.pkcs1_signature sig) (L.pkcs1_verify sha256 k msg)
  Accepts (rsa_pkcs1_sha384 k) sig msg =
      Checks (L.pkcs1_signature sig) (L.pkcs1_verify sha384 k msg)
  Accepts (rsa_pkcs1_sha512 k) sig msg =
      Checks (L.pkcs1_signature sig) (L.pkcs1_verify sha512 k msg)
  Accepts (ecdsa_p256_sha256_asn1 k) sig msg =
      Checks (L.p256_signature_from_der sig) (L.p256_verify_digest k (L.sha256_digest msg))
  Accepts (ecdsa_p384_sha384_asn1 k) sig msg =
      Checks (L.p384_signature_from_der sig) (L.p384_verify_digest k (L.sha384_digest msg))
  Accepts (ed25519 k) sig msg = Checks (L.ed25519_signature_from_slice sig) (L.ed25519_verify k msg)

  -- the bytes that a signature stands for
  abbrev pub Stands : Signature → Bytes → Type 0
  Stands (raw bytes) sig = bytes ≡ sig
  Stands (base64_encoded bytes) sig = L.base64_decode bytes ≡ ok sig

  pass : (r : Foreign (Unit {0})) → (checked L r ≡ ok tt) ↔ (r ≡ ok tt)
  pass (ok u) = (λ h. refl, λ h. refl)
  pass (err e) = (λ h. cc, λ h. cc)

  Checks-iff :
      {S : Type 0} (f : String → SigstoreError) (parsed : Foreign S)
      (verify : S → Foreign (Unit {0}))
      → ((map_err f parsed >>= (λ s. checked L (verify s))) ≡ ok tt) ↔ Checks parsed verify
  Checks-iff f (ok s) verify = (
    λ h. (s, refl, (pass (verify s)).0 h),
    λ c. let (t, e, v) = c in (pass (verify s)).1 (ap verify (ok-injective e) ∙ v),
  )
  Checks-iff f (err e) verify = (λ h. cc, λ c. let (t, e, v) = c in cc)

  verify_bytes_iff :
      (key : CosignVerificationKey L) (sig msg : Bytes)
      → (verify_bytes L key sig msg ≡ ok tt) ↔ Accepts key sig msg
  unfolding verify_bytes
  verify_bytes_iff (rsa_pss_sha256 k) sig msg = Checks-iff _ _ _
  verify_bytes_iff (rsa_pss_sha384 k) sig msg = Checks-iff _ _ _
  verify_bytes_iff (rsa_pss_sha512 k) sig msg = Checks-iff _ _ _
  verify_bytes_iff (rsa_pkcs1_sha256 k) sig msg = Checks-iff _ _ _
  verify_bytes_iff (rsa_pkcs1_sha384 k) sig msg = Checks-iff _ _ _
  verify_bytes_iff (rsa_pkcs1_sha512 k) sig msg = Checks-iff _ _ _
  verify_bytes_iff (ecdsa_p256_sha256_asn1 k) sig msg = Checks-iff _ _ _
  verify_bytes_iff (ecdsa_p384_sha384_asn1 k) sig msg = Checks-iff _ _ _
  verify_bytes_iff (ed25519 k) sig msg = Checks-iff _ _ _

  -- A signature is verified exactly when its bytes, decoded where they are in base64, parse as a
  -- signature of the key's algorithm that the key's library verifies over the message, or over its
  -- digest for an ECDSA key.
  pub verify_signature_iff :
      (key : CosignVerificationKey L) (signature : Signature) (msg : Bytes)
      → (verify_signature L key signature msg ≡ ok tt)
        ↔ ((sig : Bytes) × Stands signature sig × Accepts key sig msg)
  unfolding verify_signature signature_bytes
  verify_signature_iff key (raw bytes) msg = (
    λ h. (bytes, refl, (verify_bytes_iff key bytes msg).0 h),
    λ p. let (sig, e, a) = p in (verify_bytes_iff key bytes msg).1 (rw (← e) at a),
  )
  verify_signature_iff key (base64_encoded bytes) msg = (
    λ h.
        let (sig, e, v) = >>=-eq-ok (map_err _ (L.base64_decode bytes)) _ h in
        (sig, map_err-eq-ok _ _ e, (verify_bytes_iff key sig msg).0 v),
    λ p. let (sig, e, a) = p in rw e ((verify_bytes_iff key sig msg).1 a),
  )
