-- ===== src/Cosign/CertificateSignature.antt =====
-- src/cosign/signature_layers.rs: the identity that a trusted certificate gives to a signature.
-- `now` is the system clock at the call.
pub mod Trusted
use sigstore_rs.Prelude.{
  String, Bytes, ℤ, not, ◌==◌, Option, List, [], ◌∷◌, find, map_err, ok_or, ok, err, transpose,
  ◌>>=◌, ◌>>◌, if◌then◌else◌, concat, from_utf8,
}
use mathlib.Core.Option
use sigstore_rs.Errors.{
  Outcome, x509_error, from_pem_error, pkcs8_error,
  certificate_with_incomplete_subject_alternative_name,
}
use sigstore_rs.Crypto.Libs.{Libs}
use sigstore_rs.Crypto.Pki.{
  Pki, X509Certificate, Extension, GeneralName, rfc822_name, uniform_resource_identifier,
}
use sigstore_rs.Crypto.Certificate
use sigstore_rs.Crypto.CertificatePool
use sigstore_rs.Crypto.CertificatePool.{CertificatePool}
use sigstore_rs.Crypto.VerificationKey
use sigstore_rs.Crypto.VerificationKey.{CosignVerificationKey}
use sigstore_rs.Cosign.Bundle.{Bundle}
use sigstore_rs.Cosign.Constants.{
  sigstore_issuer_oid, sigstore_github_workflow_trigger_oid, sigstore_github_workflow_sha_oid,
  sigstore_github_workflow_name_oid, sigstore_github_workflow_repository_oid,
  sigstore_github_workflow_ref_oid,
}

pub data CertificateSubject : Type 0 where
  email uri : String → CertificateSubject

pub record CertificateSignature (L : Libs) : Type 0 where
  pub verification_key : CosignVerificationKey L
  pub subject : CertificateSubject
  pub issuer : Option String
  pub github_workflow_trigger : Option String
  pub github_workflow_sha : Option String
  pub github_workflow_name : Option String
  pub github_workflow_repository : Option String
  pub github_workflow_ref : Option String

-- the loop over the general names: the first e-mail address or URI
first_subject : List GeneralName → Outcome CertificateSubject
first_subject [] = err certificate_with_incomplete_subject_alternative_name
first_subject (rfc822_name name ∷ rest) = ok (email name)
first_subject (uniform_resource_identifier u ∷ rest) = ok (uri u)
first_subject (GeneralName.other_name ∷ rest) = first_subject rest

module _ (L : Libs) where
  -- `CertificateSubject::from_certificate`
  unfoldable pub subject_from_certificate : X509Certificate L → Outcome CertificateSubject
  unfolding first_subject
  subject_from_certificate certificate = do
    found ←
        map_err (λ e. pkcs8_error (concat ("get SAN ext failed: " ∷ e ∷ [])))
          certificate.subject_alt_name
    san ← ok_or (pkcs8_error "No SAN ext found") found
    first_subject san

  extension_text : String → Extension → Outcome String
  extension_text ext_oid_name ext =
      ok_or
        (x509_error (
          concat
            ("Certificate's extension Sigstore " ∷ ext_oid_name ∷ " is not UTF8 compatible" ∷ [])))
        (from_utf8 ext.extn_value)

  unfoldable pub get_cert_extension_by_oid :
      X509Certificate L → String → String → Outcome (Option String)
  unfolding extension_text
  get_cert_extension_by_oid cert ext_oid ext_oid_name = do
    extensions ← ok_or (x509_error "Certificate's extension is empty") cert.extensions
    transpose
        (Option.map (extension_text ext_oid_name) (find (λ ext. ext.extn_id == ext_oid) extensions))

module _ (L : Libs) (P : Pki L) where
  -- `CertificateSignature::from_certificate`
  unfoldable pub from_certificate :
      ℤ → Bytes → CertificatePool L P → Bundle → Outcome (CertificateSignature L)
  from_certificate now cert_raw fulcio_cert_pool trusted_bundle = do
    pem ← map_err from_pem_error (L.pem_parse cert_raw)
    cert ←
        map_err (λ e. x509_error (concat ("parse from der: " ∷ e ∷ [])))
          (P.certificate_from_der pem.contents)
    let integrated_time = trusted_bundle.payload.integrated_time
    CertificatePool.verify_pem_cert L P fulcio_cert_pool cert_raw
    Certificate.is_trusted L P now cert integrated_time
    subject ← subject_from_certificate L cert
    verification_key ← VerificationKey.try_from L cert.subject_public_key_info
    issuer ← get_cert_extension_by_oid L cert sigstore_issuer_oid "Issuer"
    trigger ←
        get_cert_extension_by_oid L cert sigstore_github_workflow_trigger_oid
          "GitHub Workflow trigger"
    sha ← get_cert_extension_by_oid L cert sigstore_github_workflow_sha_oid "GitHub Workflow sha"
    name ← get_cert_extension_by_oid L cert sigstore_github_workflow_name_oid "GitHub Workflow name"
    repository ←
        get_cert_extension_by_oid L cert sigstore_github_workflow_repository_oid
          "GitHub Workflow repository"
    ref ← get_cert_extension_by_oid L cert sigstore_github_workflow_ref_oid "GitHub Workflow ref"
    ok (record {
      verification_key = verification_key;
      subject = subject;
      issuer = issuer;
      github_workflow_trigger = trigger;
      github_workflow_sha = sha;
      github_workflow_name = name;
      github_workflow_repository = repository;
      github_workflow_ref = ref;
    })
