-- ===== src/Cosign/CertificateSignature/Trusted.antt =====
-- What a certificate must be for an identity to be taken from it.
use sigstore_rs.Prelude.{
  String, Bytes, ℤ, ◌≡◌, some, ok, >>=-eq-ok, >>-eq-ok, map_err-eq-ok, ok_or-eq-ok, from_utf8,
  ok-injective, ap, ◌∙◌,
}
use sigstore_rs.Crypto.Libs.{Libs, Pem}
use sigstore_rs.Crypto.Pki.{Pki, X509Certificate}
use sigstore_rs.Crypto.Certificate
use sigstore_rs.Crypto.Certificate.Window.{IsTrusted, is_trusted_iff}
use sigstore_rs.Crypto.CertificatePool
use sigstore_rs.Crypto.CertificatePool.{CertificatePool}
use sigstore_rs.Crypto.CertificatePool.Chains.{IsIssued, verify_iff}
use sigstore_rs.Crypto.VerificationKey
use sigstore_rs.Cosign.Bundle.{Bundle}
use sigstore_rs.Cosign.Constants.{
  sigstore_issuer_oid, sigstore_github_workflow_trigger_oid, sigstore_github_workflow_sha_oid,
  sigstore_github_workflow_name_oid, sigstore_github_workflow_repository_oid,
  sigstore_github_workflow_ref_oid,
}
use sigstore_rs.Cosign.CertificateSignature.{
  CertificateSignature, subject_from_certificate, get_cert_extension_by_oid, from_certificate,
}

-- the bytes hold one certificate, read by both parsers, that the pool has issued and that is trusted
-- at the log time of the bundle; key, subject and issuer are the certificate's
pub record IsTrustedIdentity (L : Libs) (P : Pki L) (now : ℤ) (cert_raw : Bytes)
    (pool : CertificatePool L P) (bundle : Bundle) (c : CertificateSignature L) : Type 0 where
  pub pem : Pem
  pub parsed : L.pem_parse cert_raw ≡ ok pem
  pub cert : X509Certificate L
  pub decoded : P.certificate_from_der pem.contents ≡ ok cert
  pub text : String
  pub utf8 : from_utf8 cert_raw ≡ some text
  pub picky_cert : P.PickyCert
  pub read : P.picky_from_pem_str text ≡ ok picky_cert
  pub issued : IsIssued L P pool picky_cert
  pub trusted : IsTrusted L P now cert bundle.payload.integrated_time
  pub key : VerificationKey.try_from L cert.subject_public_key_info ≡ ok c.verification_key
  pub subject : subject_from_certificate L cert ≡ ok c.subject
  pub issuer : get_cert_extension_by_oid L cert sigstore_issuer_oid "Issuer" ≡ ok c.issuer

pub record IsIssuedPem (L : Libs) (P : Pki L) (pool : CertificatePool L P) (cert_raw : Bytes)
    : Type 0 where
  pub text : String
  pub utf8 : from_utf8 cert_raw ≡ some text
  pub picky_cert : P.PickyCert
  pub read : P.picky_from_pem_str text ≡ ok picky_cert
  pub issued : IsIssued L P pool picky_cert

module _ (L : Libs) (P : Pki L) where
  pub verify_pem_cert-IsIssuedPem :
      (pool : CertificatePool L P) (cert_raw : Bytes)
      → CertificatePool.verify_pem_cert L P pool cert_raw ≡ ok tt
      → IsIssuedPem L P pool cert_raw
  unfolding CertificatePool.verify_pem_cert
  verify_pem_cert-IsIssuedPem pool cert_raw h =
      let (text, t, h₁) = >>=-eq-ok _ _ h in
      let (cert, c, h₂) = >>=-eq-ok _ _ h₁ in
      record {
        text = text;
        utf8 = ok_or-eq-ok _ _ t;
        picky_cert = cert;
        read = map_err-eq-ok _ _ c;
        issued = (verify_iff L P pool cert).0 h₂;
      }

  -- An identity is taken from a certificate only where the certificate was issued under a chain of
  -- the pool, is trusted at the system clock and at the log time of the bundle, and carries that
  -- key, subject and issuer.
  pub from_certificate-IsTrustedIdentity :
      (now : ℤ) (cert_raw : Bytes) (pool : CertificatePool L P) (bundle : Bundle)
      (c : CertificateSignature L)
      → from_certificate L P now cert_raw pool bundle ≡ ok c
      → IsTrustedIdentity L P now cert_raw pool bundle c
  unfolding from_certificate
  from_certificate-IsTrustedIdentity now cert_raw pool bundle c h =
      let (pem, e₁, h₁) = >>=-eq-ok _ _ h in
      let (cert, e₂, h₂) = >>=-eq-ok _ _ h₁ in
      let (e₃, h₃) = >>-eq-ok (CertificatePool.verify_pem_cert L P pool cert_raw) _ h₂ in
      let (e₄, h₄) =
        >>-eq-ok (Certificate.is_trusted L P now cert bundle.payload.integrated_time) _ h₃ in
      let (subject, e₅, h₅) = >>=-eq-ok (subject_from_certificate L cert) _ h₄ in
      let (key, e₆, h₆) =
        >>=-eq-ok (VerificationKey.try_from L cert.subject_public_key_info) _ h₅ in
      let (issuer, e₇, h₇) =
        >>=-eq-ok (get_cert_extension_by_oid L cert sigstore_issuer_oid "Issuer") _ h₆ in
      let (trigger, e₈, h₈) =
        >>=-eq-ok
          (get_cert_extension_by_oid L cert sigstore_github_workflow_trigger_oid
            "GitHub Workflow trigger")
          _ h₇ in
      let (sha, e₉, h₉) =
        >>=-eq-ok
          (get_cert_extension_by_oid L cert sigstore_github_workflow_sha_oid "GitHub Workflow sha")
          _ h₈ in
      let (name, a₁, k₁) =
        >>=-eq-ok
          (get_cert_extension_by_oid L cert sigstore_github_workflow_name_oid
            "GitHub Workflow name")
          _ h₉ in
      let (repository, a₂, k₂) =
        >>=-eq-ok
          (get_cert_extension_by_oid L cert sigstore_github_workflow_repository_oid
            "GitHub Workflow repository")
          _ k₁ in
      let (ref, a₃, k₃) =
        >>=-eq-ok
          (get_cert_extension_by_oid L cert sigstore_github_workflow_ref_oid "GitHub Workflow ref")
          _ k₂ in
      let same = ok-injective k₃ in
      let p = verify_pem_cert-IsIssuedPem pool cert_raw e₃ in
      record {
        pem = pem;
        parsed = map_err-eq-ok _ _ e₁;
        cert = cert;
        decoded = map_err-eq-ok _ _ e₂;
        text = p.text;
        utf8 = p.utf8;
        picky_cert = p.picky_cert;
        read = p.read;
        issued = p.issued;
        trusted = (is_trusted_iff L P now cert bundle.payload.integrated_time).0 e₄;
        key = e₆ ∙ ap (λ (x : CertificateSignature L). ok x.verification_key) same;
        subject = e₅ ∙ ap (λ (x : CertificateSignature L). ok x.subject) same;
        issuer = e₇ ∙ ap (λ (x : CertificateSignature L). ok x.issuer) same;
      }
