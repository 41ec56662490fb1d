-- ===== src/Cosign/SignatureLayer/Trusted.antt =====
-- What holds of a layer that `SignatureLayer::new` returns.
use sigstore_rs.Prelude.{
  String, ℤ, ◌≡◌, refl, sym, ap, ◌∙◌, not, Option, none, some, ok, err, map_err, fail_if, ◌==◌,
  >>=-eq-ok, >>-eq-ok, map_err-eq-ok, fail_if-eq-ok, not-eq-false, ok-injective, as_bytes, eq_iff,
  ok_or-eq-ok, map_ok-eq-ok, some-injective,
}
use sigstore_rs.HashMap
use sigstore_rs.HashMap.{HashMap}
use sigstore_rs.Errors.{Outcome}
use sigstore_rs.Registry.Libs.{OciLibs, OciDescriptor, ImageLayer}
use sigstore_rs.Crypto.Libs.{Libs}
use sigstore_rs.Crypto.Pki.{Pki}
use sigstore_rs.Crypto.VerificationKey.{CosignVerificationKey}
use sigstore_rs.Crypto.CertificatePool.{CertificatePool}
use sigstore_rs.Cosign.Constants.{
  sigstore_oci_media_type, sigstore_signature_annotation, sigstore_bundle_annotation,
  sigstore_cert_annotation,
}
use sigstore_rs.Cosign.Payload
use sigstore_rs.Cosign.Payload.{SimpleSigning}
use sigstore_rs.Cosign.Bundle
use sigstore_rs.Cosign.Bundle.{Bundle, Json}
use sigstore_rs.Cosign.CertificateSignature.{CertificateSignature}
use sigstore_rs.Cosign.CertificateSignature.Trusted.{
  IsTrustedIdentity, from_certificate-IsTrustedIdentity,
}
use sigstore_rs.Cosign.SignatureLayer.{
  SignatureLayer, new, bundle_from, get_bundle_from_annotations, certificate_signature_from,
  get_certificate_signature_from_annotations, get_signature_from_annotations, ok_only, or_empty,
}

-- a bundle was given in the annotations, and Rekor's key verifies it
pub record IsVerifiedBundle (L : Libs) (J : Json) (annotations : HashMap String)
    (rekor_pub_key : Option (CosignVerificationKey L)) (b : Bundle) : Type 0 where
  pub key : CosignVerificationKey L
  pub given : rekor_pub_key ≡ some key
  pub raw : String
  pub annotated : HashMap.get sigstore_bundle_annotation annotations ≡ some raw
  pub parsed : J.bundle_from_str raw ≡ ok b
  pub verified : Bundle.verify_bundle L J b key ≡ ok tt

-- a certificate was given in the annotations, and its identity is trusted with the bundle
pub record IsVerifiedIdentity (L : Libs) (P : Pki L) (now : ℤ) (annotations : HashMap String)
    (fulcio_cert_pool : Option (CertificatePool L P)) (bundle : Option Bundle)
    (c : CertificateSignature L) : Type 0 where
  pub pool : CertificatePool L P
  pub given : fulcio_cert_pool ≡ some pool
  pub trusted_bundle : Bundle
  pub with_bundle : bundle ≡ some trusted_bundle
  pub raw : String
  pub annotated : HashMap.get sigstore_cert_annotation annotations ≡ some raw
  pub identity : IsTrustedIdentity L P now (as_bytes raw) pool trusted_bundle c

pub record IsTrustedLayer (O : OciLibs) (L : Libs) (P : Pki L) (J : Json) (now : ℤ)
    (descriptor : OciDescriptor) (layer : ImageLayer) (source_image_digest : String)
    (rekor_pub_key : Option (CosignVerificationKey L))
    (fulcio_cert_pool : Option (CertificatePool L P)) (sl : SignatureLayer L) : Type 0 where
  pub descriptor_type : descriptor.media_type ≡ sigstore_oci_media_type
  pub layer_type : layer.media_type ≡ sigstore_oci_media_type
  pub digest : descriptor.digest ≡ O.sha256_digest layer
  pub oci_digest : sl.oci_digest ≡ descriptor.digest
  pub raw_data : sl.raw_data ≡ layer.data_bytes
  pub payload : J.simple_signing_from_slice layer.data_bytes ≡ ok sl.simple_signing
  pub image : sl.simple_signing.critical.image.docker_manifest_digest ≡ source_image_digest
  pub signature :
      HashMap.get sigstore_signature_annotation (or_empty descriptor.annotations) ≡ sl.signature
  pub bundle :
      (b : Bundle)
      → sl.bundle ≡ some b
      → IsVerifiedBundle L J (or_empty descriptor.annotations) rekor_pub_key b
  pub certificate :
      (c : CertificateSignature L)
      → sl.certificate_signature ≡ some c
      → IsVerifiedIdentity L P now (or_empty descriptor.annotations) fulcio_cert_pool sl.bundle c

module _ (L : Libs) (J : Json) where
  bundle_from-IsVerified :
      (found : Option String) (key : Option (CosignVerificationKey L)) (b : Bundle)
      → bundle_from L J found key ≡ ok (some b)
      → (raw : String) × (k : CosignVerificationKey L) × (found ≡ some raw)
        × (key ≡ some k)
        × (J.bundle_from_str raw ≡ ok b)
        × (Bundle.verify_bundle L J b k ≡ ok tt)
  unfolding bundle_from Bundle.new_verified
  bundle_from-IsVerified none key b h = cc
  bundle_from-IsVerified (some raw) none b h = cc
  bundle_from-IsVerified (some raw) (some k) b h =
      let (b', e, s) = map_ok-eq-ok _ _ h in
      let (parsed, p, h₁) = >>=-eq-ok _ _ e in
      let (v, same) = >>-eq-ok (Bundle.verify_bundle L J parsed k) _ h₁ in
      let eq : parsed ≡ b = ok-injective same ∙ some-injective s in
      (raw, k, refl, refl, map_err-eq-ok _ _ p ∙ ap ok eq, rw (← eq) v)

module _ (L : Libs) (P : Pki L) (now : ℤ) where
  ok_only-eq-some :
      (r : Outcome (CertificateSignature L)) (c : CertificateSignature L)
      → ok_only L P r ≡ some c
      → r ≡ ok c
  unfolding ok_only
  ok_only-eq-some (ok c') c h = cc
  ok_only-eq-some (err e) c h = cc

  certificate_signature_from-IsTrusted :
      (found : Option String) (pool : Option (CertificatePool L P)) (bundle : Option Bundle)
      (c : CertificateSignature L)
      → certificate_signature_from L P now found pool bundle ≡ some c
      → (raw : String) × (p : CertificatePool L P) × (b : Bundle) × (found ≡ some raw)
        × (pool ≡ some p)
        × (bundle ≡ some b)
        × IsTrustedIdentity L P now (as_bytes raw) p b c
  unfolding certificate_signature_from
  certificate_signature_from-IsTrusted none pool bundle c h = cc
  certificate_signature_from-IsTrusted (some raw) none bundle c h = cc
  certificate_signature_from-IsTrusted (some raw) (some p) none c h = cc
  certificate_signature_from-IsTrusted (some raw) (some p) (some b) c h = (
    raw,
    p,
    b,
    refl,
    refl,
    refl,
    from_certificate-IsTrustedIdentity L P now (as_bytes raw) p b c (ok_only-eq-some _ c h),
  )

module _ (O : OciLibs) (L : Libs) (P : Pki L) (J : Json) (now : ℤ) where
  -- A layer that the constructor returns is trusted: both media types and the digest of its data are
  -- right, its payload is the layer's data and names the image's digest, its signature is the
  -- annotation's, its bundle is verified by Rekor's key, and its certificate identity is trusted at
  -- that bundle's log time.
  pub new-IsTrustedLayer :
      (descriptor : OciDescriptor) (layer : ImageLayer) (digest : String)
      (rekor_pub_key : Option (CosignVerificationKey L))
      (fulcio_cert_pool : Option (CertificatePool L P)) (sl : SignatureLayer L)
      → new O L P J now descriptor layer digest rekor_pub_key fulcio_cert_pool ≡ ok sl
      → IsTrustedLayer O L P J now descriptor layer digest rekor_pub_key fulcio_cert_pool sl
  unfolding new get_signature_from_annotations get_bundle_from_annotations
      get_certificate_signature_from_annotations Payload.satisfies_manifest_digest
  new-IsTrustedLayer descriptor layer digest rekor_pub_key fulcio_cert_pool sl h =
      let annotations = or_empty descriptor.annotations in
      let (e₁, h₁) =
        >>-eq-ok (fail_if (not (descriptor.media_type == sigstore_oci_media_type)) _) _ h in
      let (e₂, h₂) =
        >>-eq-ok (fail_if (not (layer.media_type == sigstore_oci_media_type)) _) _ h₁ in
      let (e₃, h₃) = >>-eq-ok (fail_if (not (descriptor.digest == O.sha256_digest layer)) _) _ h₂ in
      let (signing, e₄, h₄) =
        >>=-eq-ok (map_err _ (J.simple_signing_from_slice layer.data_bytes)) _ h₃ in
      let (e₅, h₅) =
        >>-eq-ok (fail_if (not (Payload.satisfies_manifest_digest signing digest)) _) _ h₄ in
      let (signature, e₆, h₆) = >>=-eq-ok (get_signature_from_annotations annotations) _ h₅ in
      let (bundle, e₇, h₇) =
        >>=-eq-ok (get_bundle_from_annotations L J annotations rekor_pub_key) _ h₆ in
      let same = ok-injective h₇ in
      let same_bundle : bundle ≡ sl.bundle = ap (λ (x : SignatureLayer L). x.bundle) same in
      let same_signing : signing ≡ sl.simple_signing =
        ap (λ (x : SignatureLayer L). x.simple_signing) same in
      record {
        descriptor_type = (eq_iff _ _).0 (not-eq-false _ (fail_if-eq-ok _ _ e₁));
        layer_type = (eq_iff _ _).0 (not-eq-false _ (fail_if-eq-ok _ _ e₂));
        digest = (eq_iff _ _).0 (not-eq-false _ (fail_if-eq-ok _ _ e₃));
        oci_digest = sym (ap (λ (x : SignatureLayer L). x.oci_digest) same);
        raw_data = sym (ap (λ (x : SignatureLayer L). x.raw_data) same);
        payload = map_err-eq-ok _ _ e₄ ∙ ap ok same_signing;
        image =
            ap (λ (x : SimpleSigning). x.critical.image.docker_manifest_digest) (sym same_signing)
            ∙ (eq_iff _ _).0 (not-eq-false _ (fail_if-eq-ok _ _ e₅));
        signature = ok_or-eq-ok _ _ e₆ ∙ ap (λ (x : SignatureLayer L). x.signature) same;
        bundle = λ b e.
            let (raw, k, f, g, p, v) =
              bundle_from-IsVerified L J _ rekor_pub_key b (e₇ ∙ ap ok (same_bundle ∙ e)) in
            record { key = k; given = g; raw = raw; annotated = f; parsed = p; verified = v };
        certificate = λ c e.
            let (raw, p, b, f, g, w, i) =
              certificate_signature_from-IsTrusted L P now _ fulcio_cert_pool bundle c
                (ap (λ (x : SignatureLayer L). x.certificate_signature) same ∙ e) in
            record {
              pool = p;
              given = g;
              trusted_bundle = b;
              with_bundle = sym same_bundle ∙ w;
              raw = raw;
              annotated = f;
              identity = i;
            };
      }
