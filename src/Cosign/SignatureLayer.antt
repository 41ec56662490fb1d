-- ===== src/Cosign/SignatureLayer.antt =====
-- src/cosign/signature_layers.rs: the data of a layer, how a trusted layer is made from the OCI
-- objects, and which layers of a manifest are trusted. `now` is the system clock at the call.
pub mod Trusted
pub mod Building
use sigstore_rs.Prelude.{
  String, Bytes, ℤ, Bool, false, not, ◌==◌, Option, none, some, List, [], ◌∷◌, ◌++◌, find, is_empty,
  map_err, map_ok, ok_or, ok, err, fail_if, is_ok, ◌>>=◌, ◌>>◌, if◌then◌else◌, concat, as_bytes,
}
use mathlib.Core.Option
use sigstore_rs.HashMap
use sigstore_rs.HashMap.{HashMap}
use sigstore_rs.Errors.{
  Outcome, serde_json_error, sigstore_media_type_not_found_error,
  sigstore_layer_digest_mismatch_error, sigstore_annotation_not_found_error,
  sigstore_no_verified_layer, unexpected_error,
}
use sigstore_rs.Registry.Libs.{OciLibs, ImageLayer, OciDescriptor, OciImageManifest}
use sigstore_rs.Registry.OciReference.{OciReference}
use sigstore_rs.Crypto.Libs.{Libs}
use sigstore_rs.Crypto.Pki.{Pki}
use sigstore_rs.Crypto.CertificatePool.{CertificatePool}
use sigstore_rs.Crypto.VerificationKey
use sigstore_rs.Crypto.VerificationKey.{CosignVerificationKey, base64_encoded}
use sigstore_rs.Cosign.Payload
use sigstore_rs.Cosign.Payload.{SimpleSigning}
use sigstore_rs.Cosign.Bundle
use sigstore_rs.Cosign.Bundle.{Bundle, Json}
use sigstore_rs.Cosign.Constants.{
  sigstore_oci_media_type, sigstore_signature_annotation, sigstore_bundle_annotation,
  sigstore_cert_annotation,
}
use sigstore_rs.Cosign.CertificateSignature.{CertificateSignature, from_certificate}

pub record SignatureLayer (L : Libs) : Type 0 where
  pub simple_signing : SimpleSigning
  pub oci_digest : String
  pub certificate_signature : Option (CertificateSignature L)
  pub bundle : Option Bundle
  pub signature : Option String
  pub raw_data : Bytes

module _ (L : Libs) where
  -- `SignatureLayer::is_signed_by_key`
  unfoldable pub is_signed_by_key : SignatureLayer L → CosignVerificationKey L → Bool
  is_signed_by_key sl verification_key = elim sl.signature [
    | some signature ↦ is_ok (
        VerificationKey.verify_signature L verification_key (base64_encoded (as_bytes signature))
          sl.raw_data)
    | none ↦ false
  ]

unfoldable pub get_signature_from_annotations : HashMap String → Outcome String
get_signature_from_annotations annotations =
    ok_or sigstore_annotation_not_found_error
      (HashMap.get sigstore_signature_annotation annotations)

module _ (L : Libs) (P : Pki L) where
  ok_only : Outcome (CertificateSignature L) → Option (CertificateSignature L)
  ok_only (ok certificate_signature) = some certificate_signature
  ok_only (err _) = none

  -- the three early returns, then the certificate; its errors only leave the field empty
  unfoldable pub certificate_signature_from :
      ℤ
      → Option String
      → Option (CertificatePool L P)
      → Option Bundle
      → Option (CertificateSignature L)
  unfolding ok_only
  certificate_signature_from now none fulcio_cert_pool bundle = none
  certificate_signature_from now (some cert_raw) none bundle = none
  certificate_signature_from now (some cert_raw) (some pool) none = none
  certificate_signature_from now (some cert_raw) (some pool) (some bundle) =
      ok_only (from_certificate L P now (as_bytes cert_raw) pool bundle)

  unfoldable pub get_certificate_signature_from_annotations :
      ℤ
      → HashMap String
      → Option (CertificatePool L P)
      → Option Bundle
      → Option (CertificateSignature L)
  unfolding certificate_signature_from
  get_certificate_signature_from_annotations now annotations fulcio_cert_pool bundle =
      certificate_signature_from now (HashMap.get sigstore_cert_annotation annotations)
        fulcio_cert_pool bundle

module _ (L : Libs) (J : Json) where
  unfoldable pub bundle_from :
      Option String → Option (CosignVerificationKey L) → Outcome (Option Bundle)
  bundle_from none rekor_pub_key = ok none
  bundle_from (some value) none = ok none
  bundle_from (some value) (some key) = map_ok some (Bundle.new_verified L J value key)

  unfoldable pub get_bundle_from_annotations :
      HashMap String → Option (CosignVerificationKey L) → Outcome (Option Bundle)
  unfolding bundle_from
  get_bundle_from_annotations annotations rekor_pub_key =
      bundle_from (HashMap.get sigstore_bundle_annotation annotations) rekor_pub_key

  -- `SignatureLayer::new_unsigned`; `hex_sha256` is `{:x}` of a digest
  unfoldable pub new_unsigned :
      (O : OciLibs) → (Bytes → String) → OciReference O → String → Outcome (SignatureLayer L)
  new_unsigned O hex image_ref manifest_digest = do
    let simple_signing = Payload.new O image_ref manifest_digest
    payload ← map_err serde_json_error (J.simple_signing_to_vec simple_signing)
    ok (record {
      simple_signing = simple_signing;
      oci_digest = concat ("sha256:" ∷ hex (L.sha256_digest payload) ∷ []);
      certificate_signature = none;
      bundle = none;
      signature = none;
      raw_data = payload;
    })

unfoldable pub or_empty : Option (HashMap String) → HashMap String
or_empty none = []
or_empty (some annotations) = annotations

module _ (O : OciLibs) (L : Libs) (P : Pki L) (J : Json) (now : ℤ) where
  -- `SignatureLayer::new`
  unfoldable pub new :
      OciDescriptor
      → ImageLayer
      → String
      → Option (CosignVerificationKey L)
      → Option (CertificatePool L P)
      → Outcome (SignatureLayer L)
  unfolding get_signature_from_annotations get_bundle_from_annotations
      get_certificate_signature_from_annotations or_empty
  new descriptor layer source_image_digest rekor_pub_key fulcio_cert_pool = do
    fail_if (not (descriptor.media_type == sigstore_oci_media_type))
        sigstore_media_type_not_found_error
    fail_if (not (layer.media_type == sigstore_oci_media_type)) sigstore_media_type_not_found_error
    fail_if (not (descriptor.digest == O.sha256_digest layer)) sigstore_layer_digest_mismatch_error
    simple_signing ←
        map_err
          (λ e.
            unexpected_error
              (concat ("Cannot convert layer data into SimpleSigning object: " ∷ e ∷ [])))
          (J.simple_signing_from_slice layer.data_bytes)
    fail_if (not (Payload.satisfies_manifest_digest simple_signing source_image_digest))
        (unexpected_error "Simple signing image digest mismatch")
    let annotations = or_empty descriptor.annotations
    signature ← get_signature_from_annotations annotations
    bundle ← get_bundle_from_annotations L J annotations rekor_pub_key
    ok (record {
      simple_signing = simple_signing;
      oci_digest = descriptor.digest;
      certificate_signature =
          get_certificate_signature_from_annotations L P now annotations fulcio_cert_pool bundle;
      bundle = bundle;
      signature = some signature;
      raw_data = layer.data_bytes;
    })

  -- what one descriptor of the manifest adds to the list
  layer_of :
      String
      → List ImageLayer
      → Option (CosignVerificationKey L)
      → Option (CertificatePool L P)
      → OciDescriptor
      → List (SignatureLayer L)
  layer_of source_image_digest layers rekor_pub_key fulcio_cert_pool manifest_layer =
      elim (find (λ l. O.sha256_digest l == manifest_layer.digest) layers) [
        | none ↦ []
        | some layer ↦
            elim (new manifest_layer layer source_image_digest rekor_pub_key fulcio_cert_pool) [
              | ok sl ↦ sl ∷ []
              | err e ↦ []
            ]
      ]

  -- the loop over the layers of the manifest
  collect_layers :
      List OciDescriptor
      → String
      → List ImageLayer
      → Option (CosignVerificationKey L)
      → Option (CertificatePool L P)
      → List (SignatureLayer L)
  unfolding layer_of
  collect_layers [] source_image_digest layers rekor_pub_key fulcio_cert_pool = []
  collect_layers (m ∷ ms) source_image_digest layers rekor_pub_key fulcio_cert_pool =
      layer_of source_image_digest layers rekor_pub_key fulcio_cert_pool m
      ++ collect_layers ms source_image_digest layers rekor_pub_key fulcio_cert_pool

  unfoldable pub build_signature_layers :
      OciImageManifest
      → String
      → List ImageLayer
      → Option (CosignVerificationKey L)
      → Option (CertificatePool L P)
      → Outcome (List (SignatureLayer L))
  unfolding collect_layers
  build_signature_layers manifest source_image_digest layers rekor_pub_key fulcio_cert_pool =
      let signature_layers =
        collect_layers manifest.layers source_image_digest layers rekor_pub_key fulcio_cert_pool in
      if is_empty signature_layers then err sigstore_no_verified_layer else ok signature_layers
