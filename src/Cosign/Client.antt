-- ===== src/Cosign/Client.antt =====
-- src/cosign/client.rs and the blob verification of src/cosign/mod.rs. The registry is reached
-- through the trait `ClientCapabilities`, which Registry/Capabilities.antt holds.
pub mod Fetching
pub mod Publishing
pub mod Tags
use sigstore_rs.Prelude.{
  String, code, ℤ, ◌==◌, eqb, Option, none, some, List, [], ◌∷◌, ◌++◌, ok, err, if◌then◌else◌,
  concat, as_bytes,
}
use sigstore_rs.HashMap.{HashMap}
use sigstore_rs.Errors.{Outcome, registry_pull_manifest_error}
use sigstore_rs.Registry.Libs.{
  OciLibs, RegistryAuth, ImageLayer, OciImageManifest, OciManifest, image, image_index, ConfigLayer,
  PushReceipt,
}
use sigstore_rs.Registry.Config.{Auth, to_registry_auth, PushResponse, from_push_receipt}
pub use sigstore_rs.Registry.Capabilities.{Action, ClientCapabilities}
use sigstore_rs.Registry.OciReference
use sigstore_rs.Registry.OciReference.{OciReference}
use sigstore_rs.Crypto.Libs.{Libs}
use sigstore_rs.Crypto.Pki.{Pki}
use sigstore_rs.Crypto.CertificatePool.{CertificatePool}
use sigstore_rs.Crypto.VerificationKey.{CosignVerificationKey}
use sigstore_rs.Cosign.Constants.{sigstore_oci_media_type, sigstore_signature_annotation}
use sigstore_rs.Cosign.Bundle.{Json}
use sigstore_rs.Cosign.SignatureLayer.{SignatureLayer, build_signature_layers}

abbrev pub config_data : String
config_data = "{}"

-- `str::replace(':', "-")`
unfoldable pub replace_colons : String → String
replace_colons String.[] = ""
replace_colons (String.◌∷◌ c s) =
    let rest = replace_colons s in
    if eqb (code c) b':' then concat ("-" ∷ rest ∷ []) else String.◌∷◌ c rest

pub record Client (O : OciLibs) (L : Libs) (P : Pki L) (S : Type 0) : Type 0 where
  pub registry_client : ClientCapabilities O S
  pub rekor_pub_key : Option (CosignVerificationKey L)
  pub fulcio_cert_pool : Option (CertificatePool L P)

abbrev pub chain : {S A B : Type 0} → Outcome A × S → (A → Action S B) → Outcome B × S
chain (ok a, s) f = f a s
chain (err e, s) f = (err e, s)

-- `.await?`: an error ends the method, the state stays as the call left it
infixl 5 ◌>>=◌
abbrev pub ◌>>=◌ : {S A B : Type 0} → Action S A → (A → Action S B) → Action S B
◌>>=◌ m f s = chain (m s) f

abbrev pub pure : {S A : Type 0} → Outcome A → Action S A
pure r s = (r, s)

-- the annotations of a pushed layer
signature_annotations : Option String → HashMap String
signature_annotations (some sig) = (sigstore_signature_annotation, sig) ∷ []
signature_annotations none = []

-- the layers of `push_signature`: one for each signature layer that serialises
to_image_layer : {L : Libs} → Json → SignatureLayer L → List ImageLayer
unfolding signature_annotations
to_image_layer J sl = elim (J.simple_signing_to_vec sl.simple_signing) [
  | ok payload ↦
      record {
        data_bytes = payload;
        media_type = sigstore_oci_media_type;
        annotations = some (signature_annotations sl.signature);
      }
      ∷ []
  | err e ↦ []
]

unfoldable pub to_image_layers : {L : Libs} → Json → List (SignatureLayer L) → List ImageLayer
unfolding to_image_layer
to_image_layers J [] = []
to_image_layers J (sl ∷ sls) = to_image_layer J sl ++ to_image_layers J sls

module _ (O : OciLibs) (L : Libs) (P : Pki L) (J : Json) {S : Type 0} where
  unfoldable pub triangulate :
      Client O L P S → OciReference O → Auth → Action S (OciReference O × String)
  triangulate self img auth = do
    manifest_digest ←
        self.registry_client.fetch_manifest_digest img.oci_reference (to_registry_auth auth)
    let reference =
        OciReference.with_tag O (OciReference.registry O img) (OciReference.repository O img)
          (concat (replace_colons manifest_digest ∷ ".sig" ∷ []))
    pure (ok (reference, manifest_digest))

  fetch_manifest_and_layers :
      Client O L P S → Auth → OciReference O → Action S (OciManifest × List ImageLayer)
  fetch_manifest_and_layers self auth cosign_image = do
    let oci_auth = to_registry_auth auth
    pulled ← self.registry_client.pull_manifest cosign_image.oci_reference oci_auth
    layers ←
        self.registry_client.pull cosign_image.oci_reference oci_auth (sigstore_oci_media_type ∷ [])
    pure (ok (pulled.0, layers))

  layers_of_manifest :
      Client O L P S
      → ℤ
      → String
      → OciReference O
      → List ImageLayer
      → OciManifest
      → Outcome (List (SignatureLayer L))
  layers_of_manifest self now source_image_digest cosign_image layers (image im) =
      build_signature_layers O L P J now im source_image_digest layers self.rekor_pub_key
        self.fulcio_cert_pool
  layers_of_manifest self now source_image_digest cosign_image layers image_index = err (
      registry_pull_manifest_error (OciReference.to_string O cosign_image)
        "Found a OciImageIndex instead of a OciImageManifest")

  unfoldable pub trusted_signature_layers :
      Client O L P S → ℤ → Auth → String → OciReference O → Action S (List (SignatureLayer L))
  unfolding fetch_manifest_and_layers layers_of_manifest
  trusted_signature_layers self now auth source_image_digest cosign_image = do
    fetched ← fetch_manifest_and_layers self auth cosign_image
    pure (layers_of_manifest self now source_image_digest cosign_image fetched.1 fetched.0)

  unfoldable pub push_signature :
      Client O L P S
      → Option (HashMap String)
      → Auth
      → OciReference O
      → List (SignatureLayer L)
      → Action S PushResponse
  push_signature self annotations auth target_reference signature_layers = do
    let layers = to_image_layers J signature_layers
    let config = O.oci_v1 (as_bytes config_data)
    let manifest = record (O.build layers config annotations) {
      media_type = some O.image_media_type;
    }
    receipt ←
        self.registry_client.push target_reference.oci_reference layers config
          (to_registry_auth auth) (some manifest)
    pure (ok (from_push_receipt receipt))
