-- ===== src/Cosign/VerificationConstraint.antt =====
-- src/cosign/verification_constraint and `verify_constraints` of src/cosign/mod.rs. A constraint
-- (`dyn VerificationConstraint`) is its `verify`. `now` is the system clock at the call.
pub mod Checking
pub mod Identity
use sigstore_rs.Prelude.{
  filter, String, Bytes, ℤ, ltz, Bool, true, false, not, ◌&&◌, ◌||◌, ◌==◌, Option, none, some, List,
  [], ◌∷◌, Result, map_err, ok_or, ok, err, ◌>>=◌, ◌>>◌, if◌then◌else◌, concat, is_empty,
}
use sigstore_rs.HashMap.{HashMap}
use sigstore_rs.Errors.{Outcome, x509_error, from_pem_error, unexpected_error}
use sigstore_rs.Registry.Config.{Certificate}
use sigstore_rs.Crypto.Libs.{Libs}
use sigstore_rs.Crypto.Scheme.{SigningScheme}
use sigstore_rs.Crypto.Pki.{Pki, Validity}
use sigstore_rs.Crypto.Certificate
use sigstore_rs.Crypto.CertificatePool
use sigstore_rs.Crypto.VerificationKey
use sigstore_rs.Crypto.VerificationKey.{CosignVerificationKey}
use sigstore_rs.Cosign.Payload
use sigstore_rs.Cosign.Bundle.{Bundle}
use sigstore_rs.Cosign.CertificateSignature.{CertificateSubject, email, uri}
use sigstore_rs.Cosign.SignatureLayer.{SignatureLayer, is_signed_by_key}

abbrev pub VerificationConstraint : Libs → Type 0
VerificationConstraint L = SignatureLayer L → Outcome Bool

pub record AnnotationVerifier : Type 0 where
  pub annotations : HashMap String

pub record PublicKeyVerifier (L : Libs) : Type 0 where
  pub key : CosignVerificationKey L

pub record CertSubjectEmailVerifier : Type 0 where
  pub email : String
  pub issuer : Option String

pub record CertSubjectUrlVerifier : Type 0 where
  pub url : String
  pub issuer : String

pub record CertificateVerifier (L : Libs) : Type 0 where
  pub cert_verification_key : CosignVerificationKey L
  pub cert_validity : Validity
  pub require_rekor_bundle : Bool

email_is : String → CertificateSubject → Bool
email_is wanted (email e) = e == wanted
email_is wanted (uri u) = false

uri_is : String → CertificateSubject → Bool
uri_is wanted (uri u) = u == wanted
uri_is wanted (email e) = false

-- `==` of two `Option<String>`
abbrev option_eq : Option String → Option String → Bool
option_eq none none = true
option_eq (some a) (some b) = a == b
option_eq _ _ = false

issuer_is : Option String → Option String → Bool
issuer_is none found = true
issuer_is (some wanted) found = option_eq (some wanted) found

module _ (L : Libs) where
  -- `AnnotationVerifier::verify`
  unfoldable pub verify_annotations : AnnotationVerifier → VerificationConstraint L
  verify_annotations self signature_layer =
      ok (Payload.satisfies_annotations signature_layer.simple_signing self.annotations)

  -- `PublicKeyVerifier::new`
  unfoldable pub public_key_verifier : Bytes → SigningScheme → Outcome (PublicKeyVerifier L)
  public_key_verifier key_raw signing_scheme = do
    key ← VerificationKey.from_pem L key_raw signing_scheme
    ok (record { key = key })

  -- `PublicKeyVerifier::try_from`
  unfoldable pub try_public_key_verifier : Bytes → Outcome (PublicKeyVerifier L)
  try_public_key_verifier key_raw = do
    key ← VerificationKey.try_from_pem L key_raw
    ok (record { key = key })

  -- `PublicKeyVerifier::verify`
  unfoldable pub verify_public_key : PublicKeyVerifier L → VerificationConstraint L
  verify_public_key self signature_layer = ok (is_signed_by_key L signature_layer self.key)

  -- `CertSubjectEmailVerifier::verify`
  unfoldable pub verify_email : CertSubjectEmailVerifier → VerificationConstraint L
  unfolding email_is issuer_is
  verify_email self signature_layer = elim signature_layer.certificate_signature [
    | some signature ↦
        ok (email_is self.email signature.subject && issuer_is self.issuer signature.issuer)
    | none ↦ ok false
  ]

  -- `CertSubjectUrlVerifier::verify`
  unfoldable pub verify_url : CertSubjectUrlVerifier → VerificationConstraint L
  unfolding uri_is
  verify_url self signature_layer = elim signature_layer.certificate_signature [
    | some signature ↦
        ok (uri_is self.url signature.subject && option_eq (some self.issuer) signature.issuer)
    | none ↦ ok false
  ]

module _ (L : Libs) (P : Pki L) where
  check_chain : Option (List Certificate) → Bytes → Outcome (Unit {0})
  check_chain none cert_bytes = ok tt
  check_chain (some certs) cert_bytes = do
    cert_pool ← CertificatePool.from_certificates L P certs
    CertificatePool.verify_der_cert L P cert_pool cert_bytes

  -- `CertificateVerifier::from_der`
  unfoldable pub certificate_verifier_from_der :
      ℤ → Bytes → Bool → Option (List Certificate) → Outcome (CertificateVerifier L)
  unfolding check_chain
  certificate_verifier_from_der now cert_bytes require_rekor_bundle cert_chain = do
    cert ←
        map_err (λ e. x509_error (concat ("parse from der " ∷ e ∷ [])))
          (P.certificate_from_der cert_bytes)
    Certificate.verify_key_usages L P cert
    Certificate.verify_has_san L P cert
    Certificate.verify_validity L P now cert
    check_chain cert_chain cert_bytes
    key ← VerificationKey.try_from L cert.subject_public_key_info
    ok (record {
      cert_verification_key = key;
      cert_validity = cert.validity;
      require_rekor_bundle = require_rekor_bundle;
    })

  -- `CertificateVerifier::from_pem`
  unfoldable pub certificate_verifier_from_pem :
      ℤ → Bytes → Bool → Option (List Certificate) → Outcome (CertificateVerifier L)
  certificate_verifier_from_pem now cert_bytes require_rekor_bundle cert_chain = do
    pem ← map_err from_pem_error (L.pem_parse cert_bytes)
    certificate_verifier_from_der now pem.contents require_rekor_bundle cert_chain

  check_bundle : CertificateVerifier L → Option Bundle → Outcome Bool
  check_bundle self none = ok (not self.require_rekor_bundle)
  check_bundle self (some bundle) = do
    it ←
        ok_or (unexpected_error "timestamp is not legal")
          (P.from_timestamp_opt bundle.payload.integrated_time)
    let early = ltz it self.cert_validity.not_before.instant
    let late = ltz self.cert_validity.not_after.instant it
    if early then ok false else if late then ok false else ok true

  -- `CertificateVerifier::verify`
  unfoldable pub verify_certificate : CertificateVerifier L → VerificationConstraint L
  unfolding check_bundle
  verify_certificate self signature_layer =
      if is_signed_by_key L signature_layer self.cert_verification_key
      then check_bundle self signature_layer.bundle
      else ok false

-- `any` over the layers, an error counting as not verified
verified : Outcome Bool → Bool
verified (ok is_sl_verified) = is_sl_verified
verified (err e) = false

-- the loop of `any` with the flag that it leaves behind
is_unsatisfied : {L : Libs} → List (SignatureLayer L) → VerificationConstraint L → Bool
unfolding verified
is_unsatisfied [] c = true
is_unsatisfied (sl ∷ signature_layers) c =
    if verified (c sl) then false else is_unsatisfied signature_layers c

-- the error is `SigstoreVerifyConstraintsError`, by the constraints that it lists
unfoldable pub verify_constraints :
    (L : Libs)
    → List (SignatureLayer L)
    → List (VerificationConstraint L)
    → Result (List (VerificationConstraint L)) (Unit {0})
unfolding is_unsatisfied
verify_constraints L signature_layers constraints =
    let unsatisfied_constraints = filter (is_unsatisfied signature_layers) constraints in
    if is_empty unsatisfied_constraints then ok tt else err unsatisfied_constraints
