-- ===== src/Registry/OciClient.antt =====
-- src/registry/oci_client.rs: the client that asks the registry at every call. What it returns is what
-- the oci_distribution crate's client answers, an error under the name of the image.
use sigstore_rs.Prelude.{String, Option, List, map_err}
use sigstore_rs.Errors.{
  SigstoreError, Outcome, Foreign, registry_fetch_manifest_error, registry_pull_error,
  registry_pull_manifest_error, registry_push_error,
}
use sigstore_rs.Registry.Libs.{
  OciLibs, RegistryClient, RegistryAuth, ImageLayer, OciImageManifest, OciManifest, ConfigLayer,
  PushReceipt,
}
use sigstore_rs.Registry.Capabilities.{Action, ClientCapabilities}

-- `.await.map_err(…)`
abbrev pub on_error : {A W : Type 0} → (String → SigstoreError) → Foreign A × W → Outcome A × W
on_error f (r, w) = (map_err f r, w)

module _ (O : OciLibs) {W : Type 0} (D : RegistryClient O W) where
  unfoldable pub fetch_manifest_digest : O.Reference → RegistryAuth → Action W String
  fetch_manifest_digest image auth w =
      on_error (registry_fetch_manifest_error (O.whole image))
        (D.fetch_manifest_digest image auth w)

  unfoldable pub pull : O.Reference → RegistryAuth → List String → Action W (List ImageLayer)
  pull image auth accepted_media_types w =
      on_error (registry_pull_error (O.whole image)) (D.pull image auth accepted_media_types w)

  unfoldable pub pull_manifest : O.Reference → RegistryAuth → Action W (OciManifest × String)
  pull_manifest image auth w =
      on_error (registry_pull_manifest_error (O.whole image)) (D.pull_manifest image auth w)

  unfoldable pub push :
      O.Reference
      → List ImageLayer
      → ConfigLayer
      → RegistryAuth
      → Option OciImageManifest
      → Action W PushReceipt
  push image_ref layers config auth manifest w =
      on_error (registry_push_error (O.whole image_ref))
        (D.push image_ref layers config auth manifest w)

  -- `impl ClientCapabilities for OciClient`
  abbrev pub capabilities : ClientCapabilities O W
  capabilities = record {
    fetch_manifest_digest = fetch_manifest_digest;
    pull = pull;
    pull_manifest = pull_manifest;
    push = push;
  }
