-- ===== src/Registry/CachingClient/Answers.antt =====
-- src/registry/oci_caching_client.rs: the errors of the caching client.
use sigstore_rs.Prelude.{ℕ, String, ◌≡◌, ◌≢◌, none, some, List, err}
use sigstore_rs.Errors.{SigstoreError}
use sigstore_rs.Registry.Libs.{OciLibs, RegistryClient, RegistryAuth}
use sigstore_rs.Registry.CachingClient.{KeyLibs, Caches, State, pull, pull_manifest}
use sigstore_rs.Registry.CachingClient.Freshness.{CacheLaws, IsParsed, call-err, call-returns}
use sigstore_rs.Registry.CachingClient.Runs.{
  plain_pull, plain_manifest, image_key, manifest_key, image_body, manifest_body, image_body-agrees,
  manifest_body-agrees,
}

module _ (O : OciLibs) {W : Type 0} (D : RegistryClient O W) (H : KeyLibs) (C : Caches W)
    (laws : CacheLaws C) where
  abbrev pub start : W → State C
  start w = record {
    digests = C.digests.empty;
    images = C.images.empty;
    manifests = C.manifests.empty;
    registry_client = w;
  }

  module _ (parsed : IsParsed O) where
    pub pull-err :
        (image : O.Reference) (auth : RegistryAuth) (types : List String) (now : ℕ) (s : State C)
        (e : SigstoreError)
        → (pull O D H C image auth types now s).0 ≡ some (err e)
        → (plain_pull O D H (image, auth, types) s.registry_client).0 ≡ err e
    unfolding pull
    pull-err image auth types now s e h =
        call-err C.images laws.images_hold laws.images (plain_pull O D H) (image_key O D H)
          (image_body O D H) (image_body-agrees O D H parsed) (image, auth, types) now s.images
          s.registry_client e h

    pub pull-returns :
        (image : O.Reference) (auth : RegistryAuth) (types : List String) (now : ℕ) (s : State C)
        → (pull O D H C image auth types now s).0 ≢ none
    unfolding pull
    pull-returns image auth types now s =
        call-returns C.images laws.images_hold laws.images (plain_pull O D H) (image_key O D H)
          (image_body O D H) (image_body-agrees O D H parsed) (image, auth, types) now s.images
          s.registry_client

    pub pull_manifest-err :
        (image : O.Reference) (auth : RegistryAuth) (now : ℕ) (s : State C) (e : SigstoreError)
        → (pull_manifest O D H C image auth now s).0 ≡ some (err e)
        → (plain_manifest O D H (image, auth) s.registry_client).0 ≡ err e
    unfolding pull_manifest
    pull_manifest-err image auth now s e h =
        call-err C.manifests laws.manifests_hold laws.manifests (plain_manifest O D H)
          (manifest_key O D H) (manifest_body O D H) (manifest_body-agrees O D H parsed)
          (image, auth) now s.manifests s.registry_client e h
