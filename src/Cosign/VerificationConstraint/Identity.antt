-- ===== src/Cosign/VerificationConstraint/Identity.antt =====
-- What a layer needs to satisfy the constraints on its certificate, its key or its annotations.
use sigstore_rs.Prelude.{
  String, Bytes, ℤ, ◌≤ℤ◌, ltz, ltz-eq-false_iff, Bool, true, false, ◌&&◌, eq_iff, ◌≡◌, refl, ap,
  ◌∙◌, sym, ◌↔◌, Option, none, some, Option-cases, ok, err, ◌≢◌, inl, inr, Bool-cases,
  some-injective, ok-injective, if◌then◌else◌, as_bytes, ok_or-eq-ok, >>=-eq-ok, is_ok, is_ok_sound,
  not,
}
use sigstore_rs.Errors.{Outcome, SigstoreError}
use sigstore_rs.Crypto.Libs.{Libs}
use sigstore_rs.Crypto.Pki.{Pki}
use sigstore_rs.Crypto.VerificationKey.{CosignVerificationKey, base64_encoded}
use sigstore_rs.Crypto.VerificationKey.Accepts.{Accepts, verify_signature_iff}
use sigstore_rs.Cosign.Bundle.{Bundle}
use sigstore_rs.Cosign.CertificateSignature.{CertificateSignature, CertificateSubject, email, uri}
use sigstore_rs.Cosign.SignatureLayer.{SignatureLayer, is_signed_by_key}
use sigstore_rs.Cosign.VerificationConstraint.{
  PublicKeyVerifier, CertSubjectEmailVerifier, CertSubjectUrlVerifier, CertificateVerifier,
  verify_public_key, verify_email, verify_url, verify_certificate, email_is, uri_is, issuer_is,
  check_bundle,
}

-- the certificate names that e-mail address, and the issuer where one is asked for
pub record HasEmail (L : Libs) (v : CertSubjectEmailVerifier) (sl : SignatureLayer L) : Type 0 where
  pub signature : CertificateSignature L
  pub given : sl.certificate_signature ≡ some signature
  pub subject : signature.subject ≡ email v.email
  pub issuer : (wanted : String) → v.issuer ≡ some wanted → signature.issuer ≡ some wanted

pub record HasUrl (L : Libs) (v : CertSubjectUrlVerifier) (sl : SignatureLayer L) : Type 0 where
  pub signature : CertificateSignature L
  pub given : sl.certificate_signature ≡ some signature
  pub subject : signature.subject ≡ uri v.url
  pub issuer : signature.issuer ≡ some v.issuer

-- a signature of the layer's data that the key accepts
pub record IsSigned (L : Libs) (key : CosignVerificationKey L) (sl : SignatureLayer L)
    : Type 0 where
  pub text : String
  pub given : sl.signature ≡ some text
  pub bytes : Bytes
  pub decoded : L.base64_decode (as_bytes text) ≡ ok bytes
  pub accepted : Accepts L key bytes sl.raw_data

email_is_iff :
    (wanted : String) (s : CertificateSubject) → (email_is wanted s ≡ true) ↔ (s ≡ email wanted)
unfolding email_is
email_is_iff wanted (email e) =
    (λ h. ap email ((eq_iff e wanted).0 h), λ h. (eq_iff e wanted).1 (cc))
email_is_iff wanted (uri u) = (λ h. cc, λ h. cc)

uri_is_iff :
    (wanted : String) (s : CertificateSubject) → (uri_is wanted s ≡ true) ↔ (s ≡ uri wanted)
unfolding uri_is
uri_is_iff wanted (uri e) = (λ h. ap uri ((eq_iff e wanted).0 h), λ h. (eq_iff e wanted).1 (cc))
uri_is_iff wanted (email u) = (λ h. cc, λ h. cc)

issuer_is_iff :
    (wanted found : Option String)
    → (issuer_is wanted found ≡ true) ↔ ((w : String) → wanted ≡ some w → found ≡ some w)
unfolding issuer_is
issuer_is_iff none found = (λ h w e. cc, λ h. refl)
issuer_is_iff (some w) none = (λ h. cc, λ h. let e = h w refl in cc)
issuer_is_iff (some w) (some f) = (
  λ h v e. ap some (sym ((eq_iff w f).0 h)) ∙ e,
  λ h. (eq_iff w f).1 (sym (some-injective (h w refl))),
)

both_iff : (a b : Bool) → (a && b ≡ true) ↔ ((a ≡ true) × (b ≡ true))
both_iff true b = (λ h. (refl, h), λ p. p.1)
both_iff false b = (λ h. cc, λ p. p.0)

module _ (L : Libs) where
  -- The e-mail constraint answers true exactly for a layer whose certificate names that e-mail
  -- address as its subject, and the wanted issuer where one is wanted.
  pub verify_email_iff :
      (v : CertSubjectEmailVerifier) (sl : SignatureLayer L)
      → (verify_email L v sl ≡ ok true) ↔ HasEmail L v sl
  unfolding verify_email
  verify_email_iff v sl = elim (Option-cases sl.certificate_signature) [
    | inl e ↦ (λ h. let g = rw e at h in cc, λ s. let g = sym e ∙ s.given in cc)
    | inr (c, e) ↦ (
      λ h.
          let (a, b) = (both_iff (email_is v.email c.subject) _).0 (ok-injective (rw e at h)) in
          record {
            signature = c;
            given = e;
            subject = (email_is_iff _ _).0 a;
            issuer = (issuer_is_iff _ _).0 b;
          },
      λ s.
          let same = some-injective (sym s.given ∙ e) in
          rw e (
            ap ok (
              (both_iff (email_is v.email c.subject) (issuer_is v.issuer c.issuer)).1 (
                (email_is_iff _ _).1
                    (ap (λ (x : CertificateSignature L). x.subject) (sym same) ∙ s.subject),
                (issuer_is_iff _ _).1 (λ w q.
                    ap (λ (x : CertificateSignature L). x.issuer) (sym same) ∙ s.issuer w q),
              ))),
    )
  ]

  -- The URL constraint answers true exactly for a layer whose certificate names that URL and issuer.
  pub verify_url_iff :
      (v : CertSubjectUrlVerifier) (sl : SignatureLayer L)
      → (verify_url L v sl ≡ ok true) ↔ HasUrl L v sl
  unfolding verify_url issuer_is
  verify_url_iff v sl = elim (Option-cases sl.certificate_signature) [
    | inl e ↦ (λ h. let g = rw e at h in cc, λ s. let g = sym e ∙ s.given in cc)
    | inr (c, e) ↦ (
      λ h.
          let (a, b) = (both_iff (uri_is v.url c.subject) _).0 (ok-injective (rw e at h)) in
          record {
            signature = c;
            given = e;
            subject = (uri_is_iff _ _).0 a;
            issuer = (issuer_is_iff (some v.issuer) _).0 b v.issuer refl;
          },
      λ s.
          let same = some-injective (sym s.given ∙ e) in
          rw e (
            ap ok (
              (both_iff (uri_is v.url c.subject) (issuer_is (some v.issuer) c.issuer)).1 (
                (uri_is_iff _ _).1
                    (ap (λ (x : CertificateSignature L). x.subject) (sym same) ∙ s.subject),
                (issuer_is_iff (some v.issuer) _).1 (λ w q.
                    ap (λ (x : CertificateSignature L). x.issuer) (sym same) ∙ s.issuer ∙ q),
              ))),
    )
  ]

  is_signed_by_key_iff :
      (sl : SignatureLayer L) (key : CosignVerificationKey L)
      → (is_signed_by_key L sl key ≡ true) ↔ IsSigned L key sl
  unfolding is_signed_by_key
  is_signed_by_key_iff sl key = elim (Option-cases sl.signature) [
    | inl e ↦ (λ h. let g = rw e at h in cc, λ s. let g = sym e ∙ s.given in cc)
    | inr (text, e) ↦ (
      λ h.
          let (bytes, d, a) =
            (verify_signature_iff L key (base64_encoded (as_bytes text)) sl.raw_data).0
              (is_ok_sound _ (rw e at h)) in
          record { text = text; given = e; bytes = bytes; decoded = d; accepted = a },
      λ s.
          let same = some-injective (sym s.given ∙ e) in
          rw e (
            ap is_ok (
              (verify_signature_iff L key (base64_encoded (as_bytes text)) sl.raw_data).1 (
                s.bytes,
                ap (λ t. L.base64_decode (as_bytes t)) (sym same) ∙ s.decoded,
                s.accepted,
              ))),
    )
  ]

  -- The public key constraint answers true exactly for a layer with a signature of its data that the
  -- key accepts, and never returns an error.
  pub verify_public_key_iff :
      (v : PublicKeyVerifier L) (sl : SignatureLayer L)
      → ((verify_public_key L v sl ≡ ok true) ↔ IsSigned L v.key sl)
        × ((e : SigstoreError) → verify_public_key L v sl ≢ err e)
  unfolding verify_public_key
  verify_public_key_iff v sl = (
    (
      λ h. (is_signed_by_key_iff sl v.key).0 (ok-injective h),
      λ s. ap ok ((is_signed_by_key_iff sl v.key).1 s),
    ),
    λ e h. cc,
  )

-- the log time of a bundle lies in the validity of the certificate
pub record IsLogged (L : Libs) (P : Pki L) (v : CertificateVerifier L) (bundle : Bundle)
    : Type 0 where
  pub logged : ℤ
  pub legal : P.from_timestamp_opt bundle.payload.integrated_time ≡ some logged
  pub not_early : v.cert_validity.not_before.instant ≤ℤ logged
  pub not_late : logged ≤ℤ v.cert_validity.not_after.instant

not-eq-true : (b : Bool) → not b ≡ true → b ≡ false
not-eq-true true h = cc
not-eq-true false h = refl

module _ (L : Libs) (P : Pki L) (v : CertificateVerifier L) where
  both_within :
      (a b : Bool)
      → ◌≡◌ {A = Outcome Bool} (if a then ok false else if b then ok false else ok true) (ok true)
      → (a ≡ false) × (b ≡ false)
  both_within true b h = cc
  both_within false true h = cc
  both_within false false h = (refl, refl)

  check_bundle-some_iff :
      (bundle : Bundle) → (check_bundle L P v (some bundle) ≡ ok true) ↔ IsLogged L P v bundle
  unfolding check_bundle
  check_bundle-some_iff bundle = (
    λ h.
        let (t, e, g) = >>=-eq-ok {A = ℤ} _ _ h in
        let early = ltz t v.cert_validity.not_before.instant in
        let late = ltz v.cert_validity.not_after.instant t in
        let (a, b) = both_within early late g in
        record {
          logged = t;
          legal = ok_or-eq-ok _ _ e;
          not_early = (ltz-eq-false_iff _ _).0 a;
          not_late = (ltz-eq-false_iff _ _).0 b;
        },
    λ s.
        let a = (ltz-eq-false_iff s.logged v.cert_validity.not_before.instant).1 s.not_early in
        let b = (ltz-eq-false_iff v.cert_validity.not_after.instant s.logged).1 s.not_late in
        rw (s.legal, a, b) refl,
  )

  check_bundle-none_iff : (check_bundle L P v none ≡ ok true) ↔ (
      (◌≡◌ {A = Option Bundle} none none → v.require_rekor_bundle ≡ false)
      × ((b : Bundle) → none ≡ some b → IsLogged L P v b))
  unfolding check_bundle
  check_bundle-none_iff = (
    λ h. (λ e. not-eq-true v.require_rekor_bundle (ok-injective h), λ b e. cc),
    λ p. ap (λ x. ok (not x)) (p.0 refl),
  )

  check_bundle_iff :
      (bundle : Option Bundle)
      → (check_bundle L P v bundle ≡ ok true) ↔ (
          (bundle ≡ none → v.require_rekor_bundle ≡ false)
          × ((b : Bundle) → bundle ≡ some b → IsLogged L P v b))
  check_bundle_iff none = check_bundle-none_iff
  check_bundle_iff (some bundle) = (
    λ h. (
      λ e. cc,
      λ b e.
          (check_bundle-some_iff b).0
            (ap (λ x. check_bundle L P v (some x)) (sym (some-injective e)) ∙ h),
    ),
    λ p. (check_bundle-some_iff bundle).1 (p.1 bundle refl),
  )

  -- The certificate constraint answers true exactly for a layer that the certificate's key has signed
  -- and whose bundle, which may be missing only where it is not required, was logged at a legal time
  -- within the certificate's validity, both ends included.
  pub verify_certificate_iff :
      (sl : SignatureLayer L)
      → (verify_certificate L P v sl ≡ ok true) ↔ (
          IsSigned L v.cert_verification_key sl
          × ((sl.bundle ≡ none → v.require_rekor_bundle ≡ false)
              × ((b : Bundle) → sl.bundle ≡ some b → IsLogged L P v b)))
  unfolding verify_certificate
  verify_certificate_iff sl = elim (Bool-cases (is_signed_by_key L sl v.cert_verification_key)) [
    | inl e ↦ (
      λ h. ((is_signed_by_key_iff L sl _).0 e, (check_bundle_iff sl.bundle).0 (rw e at h)),
      λ p. rw e ((check_bundle_iff sl.bundle).1 p.1),
    )
    | inr e ↦ (
      λ h. let g = rw e at h in cc,
      λ p. let g = sym e ∙ (is_signed_by_key_iff L sl _).1 p.0 in cc,
    )
  ]
