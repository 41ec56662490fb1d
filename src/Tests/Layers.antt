-- ===== src/Tests/Layers.antt =====
-- Examples: building layers, fetching them from a registry, and reading back what is uploaded.
use sigstore_rs.Prelude.{
  concat, ltz, pos, String, none, some, [], ◌∷◌, Memᴰ, ok, err, ◌≡◌, ◌↔◌, refl, as_bytes, from_utf8,
}
use sigstore_rs.HashMap
use sigstore_rs.Errors.{Outcome, sigstore_no_verified_layer, unexpected_error}
use sigstore_rs.Crypto.Certificate
use sigstore_rs.Crypto.CertificatePool
use sigstore_rs.Crypto.VerificationKey
use sigstore_rs.Registry.Config.{anonymous}
use sigstore_rs.Registry.Libs.{ImageLayer, OciDescriptor, OciManifest}
use sigstore_rs.Registry.OciReference
use sigstore_rs.Cosign.Payload
use sigstore_rs.Cosign.Bundle
use sigstore_rs.Cosign.CertificateSignature.{
  from_certificate, subject_from_certificate, get_cert_extension_by_oid,
}
use sigstore_rs.Cosign.CertificateSignature.Trusted.{
  IsTrustedIdentity, from_certificate-IsTrustedIdentity,
}
use sigstore_rs.Cosign.SignatureLayer.{new, build_signature_layers}
use sigstore_rs.Cosign.SignatureLayer.Trusted.{IsTrustedLayer, new-IsTrustedLayer}
use sigstore_rs.Cosign.SignatureLayer.Building.{
  IsBuilt, IsTrustedIn, build_signature_layers-Memᴰ_iff, build_signature_layers-IsTrustedIn,
}
use sigstore_rs.Cosign.Client.{
  Client, trusted_signature_layers, triangulate, replace_colons, to_image_layers,
}
use sigstore_rs.Cosign.Client.Fetching.{IsFetched, trusted_signature_layers-IsFetched}
use sigstore_rs.Cosign.Client.Tags.{IsTagOf, triangulate_iff}
use sigstore_rs.Cosign.Client.Publishing.{IsDescribed, new-to_image_layers}
use sigstore_rs.Tests.Toy.{toy, toy_pki, toy_oci, toy_json, toy_bundle, toy_signing, encode, decode}
use sigstore_rs.Tests.Inputs.{
  rekor_key, pool, layer, descriptor, manifest, foreign_manifest, image, identity, trusted_layer,
  signature_text,
}

identity_of_certificate :
    from_certificate toy toy_pki (pos 12) (67 ∷ []) pool toy_bundle ≡ ok identity
unfolding from_certificate CertificatePool.verify_pem_cert CertificatePool.verify
    CertificatePool.create_chains_for_all_certificates Certificate.is_trusted
    Certificate.verify_key_usages Certificate.verify_has_san Certificate.verify_validity
    Certificate.verify_expiration subject_from_certificate get_cert_extension_by_oid
    VerificationKey.try_from from_utf8 as_bytes ltz
identity_of_certificate = refl

from_certificate-IsTrustedIdentity_example :
    IsTrustedIdentity toy toy_pki (pos 12) (67 ∷ []) pool toy_bundle identity
from_certificate-IsTrustedIdentity_example =
    from_certificate-IsTrustedIdentity toy toy_pki (pos 12) (67 ∷ []) pool toy_bundle identity
      identity_of_certificate

made :
    new toy_oci toy toy_pki toy_json (pos 12) descriptor layer "d" (some rekor_key) (some pool)
    ≡ ok trusted_layer
unfolding new from_certificate CertificatePool.verify_pem_cert CertificatePool.verify
    CertificatePool.create_chains_for_all_certificates Certificate.is_trusted
    Certificate.verify_key_usages Certificate.verify_has_san Certificate.verify_validity
    Certificate.verify_expiration subject_from_certificate get_cert_extension_by_oid
    VerificationKey.try_from VerificationKey.verify_signature from_utf8 as_bytes ltz HashMap.get
    Payload.satisfies_manifest_digest Bundle.new_verified Bundle.verify_bundle encode decode
made = refl

new-IsTrustedLayer_example :
    IsTrustedLayer toy_oci toy toy_pki toy_json
      (pos 12)
      descriptor
      layer
      "d"
      (some rekor_key)
      (some pool)
      trusted_layer
new-IsTrustedLayer_example =
    new-IsTrustedLayer toy_oci toy toy_pki toy_json (pos 12) descriptor layer "d" (some rekor_key)
      (some pool) trusted_layer made

built :
    build_signature_layers toy_oci toy toy_pki toy_json
      (pos 12)
      manifest
      "d"
      (layer ∷ [])
      (some rekor_key)
      (some pool)
    ≡ ok (trusted_layer ∷ [])
unfolding build_signature_layers new from_certificate CertificatePool.verify_pem_cert
    CertificatePool.verify CertificatePool.create_chains_for_all_certificates Certificate.is_trusted
    Certificate.verify_key_usages Certificate.verify_has_san Certificate.verify_validity
    Certificate.verify_expiration subject_from_certificate get_cert_extension_by_oid
    VerificationKey.try_from VerificationKey.verify_signature from_utf8 as_bytes ltz HashMap.get
    Payload.satisfies_manifest_digest Bundle.new_verified Bundle.verify_bundle encode decode
built = refl

build_signature_layers-Memᴰ_iff_example :
    Memᴰ trusted_layer (trusted_layer ∷ [])
    ↔ IsBuilt toy_oci toy toy_pki toy_json
        (pos 12)
        (descriptor ∷ [])
        "d"
        (layer ∷ [])
        (some rekor_key)
        (some pool)
        trusted_layer
build_signature_layers-Memᴰ_iff_example =
    build_signature_layers-Memᴰ_iff toy_oci toy toy_pki toy_json (pos 12) manifest "d" (layer ∷ [])
      (some rekor_key) (some pool) (trusted_layer ∷ []) trusted_layer built

build_signature_layers-IsTrustedIn_example :
    IsTrustedIn toy_oci toy toy_pki toy_json
      (pos 12)
      manifest
      "d"
      (layer ∷ [])
      (some rekor_key)
      (some pool)
      trusted_layer
build_signature_layers-IsTrustedIn_example =
    build_signature_layers-IsTrustedIn toy_oci toy toy_pki toy_json (pos 12) manifest "d"
      (layer ∷ []) (some rekor_key) (some pool) (trusted_layer ∷ []) trusted_layer built
      (Memᴰ.head refl)

not_built :
    build_signature_layers toy_oci toy toy_pki toy_json
      (pos 12)
      foreign_manifest
      "d"
      (layer ∷ [])
      none
      none
    ≡ err sigstore_no_verified_layer
unfolding build_signature_layers new as_bytes from_utf8
not_built = refl

-- a registry that holds the one image
abbrev client : Client toy_oci toy toy_pki Unit
client = record {
  registry_client = record {
    fetch_manifest_digest = λ r auth s. (ok "sha256:d", s);
    pull = λ r auth types s. (ok (layer ∷ []), s);
    pull_manifest = λ r auth s. (ok (OciManifest.image manifest, "sha256:m"), s);
    push = λ r layers config auth m s. (err (unexpected_error "read only"), s);
  };
  rekor_pub_key = some rekor_key;
  fulcio_cert_pool = some pool;
}

fetched :
    (trusted_signature_layers toy_oci toy toy_pki toy_json client (pos 12) anonymous "d" image tt).0
    ≡ ok (trusted_layer ∷ [])
unfolding trusted_signature_layers
fetched = built

trusted_signature_layers-IsFetched_example :
    IsFetched toy_oci toy toy_pki toy_json client (pos 12) anonymous "d" image tt trusted_layer
trusted_signature_layers-IsFetched_example =
    trusted_signature_layers-IsFetched toy_oci toy toy_pki toy_json client (pos 12) anonymous "d"
      image tt (trusted_layer ∷ []) trusted_layer fetched (Memᴰ.head refl)

triangulate_iff_example :
    ((triangulate toy_oci toy toy_pki toy_json client image anonymous tt).0
      ≡ ok (record { oci_reference = "registry/repository:sha256-d.sig" }, "sha256:d"))
    ↔ ((◌≡◌ {A = Outcome String} (ok "sha256:d") (ok "sha256:d"))
        × ((tag : String) × IsTagOf "sha256:d" tag
            × (record { oci_reference = "registry/repository:sha256-d.sig" }
                ≡ OciReference.with_tag toy_oci
                    (OciReference.registry toy_oci image)
                    (OciReference.repository toy_oci image)
                    tag)))
triangulate_iff_example =
    triangulate_iff toy_oci toy toy_pki toy_json client image anonymous tt
      (record { oci_reference = "registry/repository:sha256-d.sig" }) "sha256:d"

triangulated :
    (triangulate toy_oci toy toy_pki toy_json client image anonymous tt).0
    ≡ ok (record { oci_reference = "registry/repository:sha256-d.sig" }, "sha256:d")
unfolding triangulate OciReference.with_tag OciReference.registry OciReference.repository
    replace_colons concat
triangulated = refl

tag_of : IsTagOf "sha256:d" "sha256-d.sig"
tag_of = refl

serialised : toy_json.simple_signing_to_vec (toy_signing "d") ≡ ok (100 ∷ [])
unfolding as_bytes
serialised = refl

parsed_back : toy_json.simple_signing_from_slice (100 ∷ []) ≡ ok (toy_signing "d")
unfolding from_utf8
parsed_back = refl

new-to_image_layers_example :
    (layer : ImageLayer) × (to_image_layers toy_json (trusted_layer ∷ []) ≡ layer ∷ [])
    × ((d : OciDescriptor)
        → IsDescribed toy_oci toy toy_pki toy_json (pos 12) layer d
        → new toy_oci toy toy_pki toy_json (pos 12) d layer "d" (some rekor_key) (some pool)
          ≡ ok (record {
            simple_signing = toy_signing "d";
            oci_digest = toy_oci.sha256_digest layer;
            certificate_signature = none;
            bundle = none;
            signature = some signature_text;
            raw_data = 100 ∷ [];
          }))
new-to_image_layers_example =
    new-to_image_layers toy_oci toy toy_pki toy_json (pos 12) trusted_layer (100 ∷ [])
      signature_text (some rekor_key) (some pool) refl serialised parsed_back
