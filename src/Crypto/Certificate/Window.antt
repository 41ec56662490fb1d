-- ===== src/Crypto/Certificate/Window.antt =====
-- When a certificate is trusted for a signature that Rekor logged at a given time.
use sigstore_rs.Prelude.{
  ℤ, ◌≤ℤ◌, ltz-eq-false_iff, ◌≡◌, refl, ◌↔◌, Option, none, some, List, ok, err, is_some,
  if◌then◌else◌, >>=-eq-ok, >>-eq-ok, map_err-eq-ok, ok_or-eq-ok, fail_if-eq-ok, Result, fail_of_ok,
  ◌∙◌, ap,
}
use sigstore_rs.Crypto.Libs.{Libs}
use sigstore_rs.Crypto.Pki.{Pki, X509Certificate, GeneralName}
use sigstore_rs.Crypto.Certificate.{
  verify_key_usages, verify_has_san, verify_validity, verify_expiration, is_trusted,
}
use sigstore_rs.Crypto.Certificate.Usage.{HasUsages, verify_key_usages_iff}

pub record IsTrusted (L : Libs) (P : Pki L) (now : ℤ) (cert : X509Certificate L) (time : ℤ)
    : Type 0 where
  pub usages : HasUsages L P cert
  pub names : List GeneralName
  pub has_san : cert.subject_alt_name ≡ ok (some names)
  pub begun : cert.validity.not_before.instant ≤ℤ now
  pub logged : ℤ
  pub legal : P.from_timestamp_opt time ≡ some logged
  pub not_early : cert.validity.not_before.instant ≤ℤ logged
  pub not_late : logged ≤ℤ cert.validity.not_after.instant

san_found :
    {E : Type 0} (e : E) (found : Option (List GeneralName))
    → ◌≡◌ {A = Result E Unit} (if is_some found then ok tt else err e) (ok tt)
    → (names : List GeneralName) × (found ≡ some names)
san_found e none h = cc
san_found e (some names) h = (names, refl)

module _ (L : Libs) (P : Pki L) (now : ℤ) (cert : X509Certificate L) (time : ℤ) where
  IsTrusted-of_ok : is_trusted L P now cert time ≡ ok tt → IsTrusted L P now cert time
  unfolding is_trusted verify_has_san verify_validity verify_expiration
  IsTrusted-of_ok h =
      let (u, h₁) = >>-eq-ok (verify_key_usages L P cert) _ h in
      let (s, h₂) = >>-eq-ok (verify_has_san L P cert) _ h₁ in
      let (v, h₃) = >>-eq-ok (verify_validity L P now cert) _ h₂ in
      let (found, f, g) = >>=-eq-ok _ _ s in
      let (names, n) = san_found _ found g in
      let (it, i, h₄) = >>=-eq-ok _ _ h₃ in
      let (b, h₅) = >>-eq-ok _ _ h₄ in
      record {
        usages = (verify_key_usages_iff L P cert).0 u;
        names = names;
        has_san = map_err-eq-ok _ _ f ∙ ap ok n;
        begun = (ltz-eq-false_iff _ _).0 (fail_of_ok _ _ v);
        logged = it;
        legal = ok_or-eq-ok _ _ i;
        not_early = (ltz-eq-false_iff _ _).0 (fail_if-eq-ok _ _ b);
        not_late = (ltz-eq-false_iff _ _).0 (fail_if-eq-ok _ _ h₅);
      }

  ok_of_IsTrusted : IsTrusted L P now cert time → is_trusted L P now cert time ≡ ok tt
  unfolding is_trusted verify_has_san verify_validity verify_expiration
  ok_of_IsTrusted t = rw (
    (verify_key_usages_iff L P cert).1 t.usages,
    t.has_san,
    (ltz-eq-false_iff _ _).1 t.begun,
    t.legal,
    (ltz-eq-false_iff _ _).1 t.not_early,
    (ltz-eq-false_iff _ _).1 t.not_late,
  )

  -- `is_trusted` accepts a certificate for a log time exactly when its key usages pass, it has a
  -- subject alternative name, it is valid already at the system clock, and the log time is legal
  -- and lies in the certificate's validity, both ends included.
  pub is_trusted_iff : (is_trusted L P now cert time ≡ ok tt) ↔ IsTrusted L P now cert time
  is_trusted_iff = (IsTrusted-of_ok, ok_of_IsTrusted)
