-- ===== src/Cosign/Client/Publishing.antt =====
-- src/cosign/client.rs: the layers that `push_signature` uploads, met by a reader.
use sigstore_rs.Prelude.{String, Bytes, ℤ, ◌≡◌, refl, Option, none, some, ok, [], ◌∷◌, eq_refl}
use sigstore_rs.HashMap
use sigstore_rs.Registry.Libs.{OciLibs, OciDescriptor, ImageLayer}
use sigstore_rs.Crypto.Libs.{Libs}
use sigstore_rs.Crypto.Pki.{Pki}
use sigstore_rs.Crypto.VerificationKey.{CosignVerificationKey}
use sigstore_rs.Crypto.CertificatePool.{CertificatePool}
use sigstore_rs.Cosign.Constants.{sigstore_oci_media_type, sigstore_signature_annotation}
use sigstore_rs.Cosign.Payload
use sigstore_rs.Cosign.Bundle.{Json}
use sigstore_rs.Cosign.SignatureLayer.{
  SignatureLayer, new, or_empty, get_signature_from_annotations, get_bundle_from_annotations,
  bundle_from, get_certificate_signature_from_annotations, certificate_signature_from,
}
use sigstore_rs.Cosign.Client.{to_image_layers, to_image_layer, signature_annotations}

module _ (O : OciLibs) (L : Libs) (P : Pki L) (J : Json) (now : ℤ) where
  -- what the manifest says of a layer
  pub record IsDescribed (layer : ImageLayer) (d : OciDescriptor) : Type 0 where
    pub media_type : d.media_type ≡ layer.media_type
    pub digest : d.digest ≡ O.sha256_digest layer
    pub annotations : d.annotations ≡ layer.annotations

  -- Where parsing undoes the serialisation of its payload, a signed layer is uploaded as one image
  -- layer, from which, described by a manifest and for the image digest of the payload, the
  -- constructor makes a layer with the same payload and signature, and neither bundle nor certificate.
  pub new-to_image_layers :
      (sl : SignatureLayer L) (payload : Bytes) (signature : String)
      (rekor_pub_key : Option (CosignVerificationKey L))
      (fulcio_cert_pool : Option (CertificatePool L P))
      → sl.signature ≡ some signature
      → J.simple_signing_to_vec sl.simple_signing ≡ ok payload
      → J.simple_signing_from_slice payload ≡ ok sl.simple_signing
      → (layer : ImageLayer) × (to_image_layers J (sl ∷ []) ≡ layer ∷ [])
        × ((d : OciDescriptor)
            → IsDescribed layer d
            → new O L P J now d layer sl.simple_signing.critical.image.docker_manifest_digest
                rekor_pub_key fulcio_cert_pool
              ≡ ok (record {
                simple_signing = sl.simple_signing;
                oci_digest = O.sha256_digest layer;
                certificate_signature = none;
                bundle = none;
                signature = some signature;
                raw_data = payload;
              }))
  unfolding new to_image_layers to_image_layer signature_annotations get_signature_from_annotations
      get_bundle_from_annotations bundle_from get_certificate_signature_from_annotations
      certificate_signature_from or_empty Payload.satisfies_manifest_digest HashMap.get
  new-to_image_layers sl payload signature rekor_pub_key fulcio_cert_pool s v f = (
    record {
      data_bytes = payload;
      media_type = sigstore_oci_media_type;
      annotations = some ((sigstore_signature_annotation, signature) ∷ []);
    },
    rw (to_image_layer, v, s) refl,
    λ d i.
        rw (i.media_type, i.digest, i.annotations, f)
          (rw
            (
              eq_refl (
                  O.sha256_digest (record {
                    data_bytes = payload;
                    media_type = sigstore_oci_media_type;
                    annotations = some ((sigstore_signature_annotation, signature) ∷ []);
                  })),
              eq_refl sl.simple_signing.critical.image.docker_manifest_digest,
            )
            refl),
  )
