-- ===== src/Crypto/Certificate.antt =====
-- src/crypto/certificate.rs: what a certificate must satisfy to be trusted for a signature that
-- Rekor has logged at a given time. `now` is the system clock at the call.
pub mod Usage
pub mod Window
use sigstore_rs.Prelude.{
  ℤ, ltz, not, any, eqb, bit_and, ◌==◌, map_err, ok_or, ok, err, fail_if, is_some, ◌>>=◌, ◌>>◌,
  if◌then◌else◌,
}
use sigstore_rs.Errors.{
  Outcome, x509_error, certificate_validity_error,
  certificate_expired_before_signatures_submitted_to_rekor,
  certificate_issued_after_signatures_submitted_to_rekor,
  certificate_without_digital_signature_key_usage, certificate_without_code_signing_key_usage,
  certificate_without_subject_alternative_name,
}
use sigstore_rs.Crypto.Libs.{Libs}
use sigstore_rs.Crypto.Pki.{Pki, X509Certificate}

module _ (L : Libs) (P : Pki L) where
  unfoldable pub verify_key_usages : X509Certificate L → Outcome (Unit {0})
  verify_key_usages certificate = do
    found ← map_err (λ _. certificate_without_digital_signature_key_usage) certificate.key_usage
    bits ← ok_or certificate_without_digital_signature_key_usage found
    fail_if (eqb (bit_and bits P.digital_signature) 1)
        certificate_without_digital_signature_key_usage
    found_ext ←
        map_err (λ _. certificate_without_code_signing_key_usage) certificate.extended_key_usage
    usages ← ok_or certificate_without_code_signing_key_usage found_ext
    fail_if (not (any (λ ext. ext == P.id_kp_code_signing) usages))
        certificate_without_code_signing_key_usage

  unfoldable pub verify_has_san : X509Certificate L → Outcome (Unit {0})
  verify_has_san certificate = do
    found ← map_err (λ _. certificate_without_subject_alternative_name) certificate.subject_alt_name
    if is_some found then ok tt else err certificate_without_subject_alternative_name

  unfoldable pub verify_validity : ℤ → X509Certificate L → Outcome (Unit {0})
  verify_validity now certificate =
      let not_before = certificate.validity.not_before in
      if ltz now not_before.instant then err (certificate_validity_error not_before.text) else ok tt

  unfoldable pub verify_expiration : X509Certificate L → ℤ → Outcome (Unit {0})
  verify_expiration certificate integrated_time = do
    it ← ok_or (x509_error "timestamp is not legal") (P.from_timestamp_opt integrated_time)
    let not_before = certificate.validity.not_before
    fail_if (ltz it not_before.instant)
        (certificate_expired_before_signatures_submitted_to_rekor (P.show_time it) not_before.text)
    let not_after = certificate.validity.not_after
    fail_if (ltz not_after.instant it)
        (certificate_issued_after_signatures_submitted_to_rekor (P.show_time it) not_after.text)

  unfoldable pub is_trusted : ℤ → X509Certificate L → ℤ → Outcome (Unit {0})
  is_trusted now certificate integrated_time = do
    verify_key_usages certificate
    verify_has_san certificate
    verify_validity now certificate
    verify_expiration certificate integrated_time
