-- ===== src/Tests/Inputs.antt =====
-- The inputs of the examples: keys, certificates, one signed layer and the manifest that lists it.
use sigstore_rs.Prelude.{String, none, some, [], ◌∷◌, ok}
use sigstore_rs.Crypto.CertificatePool.{CertificatePool}
use sigstore_rs.Crypto.VerificationKey.{CosignVerificationKey, ecdsa_p256_sha256_asn1, ed25519}
use sigstore_rs.Registry.Libs.{ImageLayer, OciDescriptor, OciImageManifest}
use sigstore_rs.Registry.OciReference.{OciReference}
use sigstore_rs.Cosign.Constants.{
  sigstore_oci_media_type, sigstore_signature_annotation, sigstore_bundle_annotation,
  sigstore_cert_annotation,
}
use sigstore_rs.Cosign.Payload.{string, SimpleSigning}
use sigstore_rs.Cosign.CertificateSignature.{CertificateSignature, email}
use sigstore_rs.Cosign.SignatureLayer.{SignatureLayer}
use sigstore_rs.Cosign.Constraint.{AnnotationMarker, PrivateKeySigner}
use sigstore_rs.Tests.Toy.{toy, toy_pki, toy_oci, toy_bundle, toy_signing, encode}

abbrev pub key : CosignVerificationKey toy
key = ecdsa_p256_sha256_asn1 (1 ∷ [])

abbrev pub rekor_key : CosignVerificationKey toy
rekor_key = ecdsa_p256_sha256_asn1 []

abbrev pub pool : CertificatePool toy toy_pki
pool = record { trusted_roots = (82 ∷ []) ∷ []; intermediates = (73 ∷ []) ∷ [] }

abbrev pub signature_text : String
signature_text = "abaab"

abbrev pub layer : ImageLayer
layer = record { data_bytes = 100 ∷ []; media_type = sigstore_oci_media_type; annotations = none }

abbrev pub descriptor : OciDescriptor
descriptor = record {
  media_type = sigstore_oci_media_type;
  digest = "d";
  annotations = some (
      (sigstore_signature_annotation, signature_text)
      ∷ (sigstore_bundle_annotation, "bundle")
      ∷ (sigstore_cert_annotation, "C")
      ∷ []);
}

abbrev pub manifest : OciImageManifest
manifest = record { media_type = none; layers = descriptor ∷ []; annotations = none }

-- the same without the media type of a signature
abbrev pub foreign_manifest : OciImageManifest
foreign_manifest = record {
  media_type = none;
  layers = record { media_type = "other"; digest = "d"; annotations = none } ∷ [];
  annotations = none;
}

abbrev pub identity : CertificateSignature toy
identity = record {
  verification_key = ed25519 (1 ∷ []);
  subject = email "alice";
  issuer = none;
  github_workflow_trigger = none;
  github_workflow_sha = none;
  github_workflow_name = none;
  github_workflow_repository = none;
  github_workflow_ref = none;
}

abbrev pub trusted_layer : SignatureLayer toy
trusted_layer = record {
  simple_signing = toy_signing "d";
  oci_digest = "d";
  certificate_signature = some identity;
  bundle = some toy_bundle;
  signature = some signature_text;
  raw_data = 100 ∷ [];
}

abbrev pub unsigned_layer : SignatureLayer toy
unsigned_layer = record {
  simple_signing = toy_signing "d";
  oci_digest = "d";
  certificate_signature = none;
  bundle = none;
  signature = none;
  raw_data = [];
}

abbrev pub marker : AnnotationMarker
marker = record { annotations = ("team", "release") ∷ [] }

abbrev pub marked_signing : SimpleSigning
marked_signing = record (toy_signing "d") {
  optional =
      some (record { creator = none; timestamp = none; extra = ("team", string "release") ∷ [] });
}

abbrev pub marked_layer : SignatureLayer toy
marked_layer = record unsigned_layer { simple_signing = marked_signing }

abbrev pub signer : PrivateKeySigner
signer = record { key = record { sign = λ msg. ok (1 ∷ msg) } }

abbrev pub signed_layer : SignatureLayer toy
signed_layer = record marked_layer { raw_data = 100 ∷ []; signature = some (encode (1 ∷ 100 ∷ [])) }

abbrev pub image : OciReference toy_oci
image = record { oci_reference = "image" }
