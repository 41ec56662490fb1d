-- ===== src/Registry/CachingClient.antt =====
-- src/registry/oci_caching_client.rs: the client whose answers are kept for 60 seconds. The attribute
-- `#[cached(…)]` of the cached crate is a parameter (Registry/CachingClient/Attribute.antt); so are the
-- canonical serialiser and the SHA-256 that the keys are made of.
pub mod Attribute
pub mod Freshness
pub mod Runs
pub mod Answers
pub mod Sharing
use sigstore_rs.Prelude.{
  ℕ, zero, suc, ◌/◌, ◌%◌, String, Bytes, false, Option, none, some, List, [], ◌∷◌, map, ok, err,
  map_ok, ltb, if◌then◌else◌, concat, decimal,
}
use sigstore_rs.Errors.{
  Outcome, Foreign, registry_fetch_manifest_error, registry_pull_error,
  registry_pull_manifest_error, registry_push_error,
}
use sigstore_rs.Registry.Libs.{
  OciLibs, RegistryClient, RegistryAuth, ImageLayer, OciImageManifest, OciManifest, ConfigLayer,
  PushReceipt,
}
use sigstore_rs.Registry.Config.{Auth, to_registry_auth, from_registry_auth}
use sigstore_rs.Registry.OciClient.{on_error}
use sigstore_rs.Registry.CachingClient.Attribute.{Return, Called, Body, Cached}

-- `time = 60`
abbrev pub lifetime : ℕ
lifetime = 60

pub record PullSettings : Type 0 where
  pub image : String
  pub auth : Auth
  pub accepted_media_types : List String

pub record PullManifestSettings : Type 0 where
  pub image : String
  pub auth : Auth

pub record KeyLibs : Type 0 where
  -- `serialize` with the `CanonicalFormatter`
  pub canonical_pull_settings : PullSettings → Foreign Bytes
  pub canonical_pull_manifest_settings : PullManifestSettings → Foreign Bytes
  -- sha2
  pub sha256_digest : Bytes → Bytes

-- a digit of `{v:x}`
unfoldable pub hex_digit : ℕ → String
hex_digit n =
    if ltb n 10
    then decimal n
    else if ltb n 11
    then "a"
    else if ltb n 12
    then "b"
    else if ltb n 13
    then "c"
    else if ltb n 14
    then "d"
    else if ltb n 15
    then "e"
    else "f"

-- `format!("{v:x}")` of a byte: a byte below 16 is one digit
unfoldable pub hex_byte : ℕ → String
hex_byte v = if ltb v 16 then hex_digit v else concat (hex_digit (v / 16) ∷ hex_digit (v % 16) ∷ [])

unfoldable pub hash_of : (Bytes → Bytes) → Foreign Bytes → String
hash_of digest (ok buf) = concat (map hex_byte (digest buf))
hash_of digest (err e) = "0"

module _ (H : KeyLibs) where
  unfoldable pub hash_pull : PullSettings → String
  hash_pull self = hash_of H.sha256_digest (H.canonical_pull_settings self)

  unfoldable pub hash_pull_manifest : PullManifestSettings → String
  hash_pull_manifest self = hash_of H.sha256_digest (H.canonical_pull_manifest_settings self)

-- the body's answer, `.map(cached::Return::new)`
abbrev pub fresh : {V W : Type 0} → Outcome V × W → Option (Outcome (Return V)) × W
fresh (r, w) = (some (map_ok (λ v. record { value = v; was_cached = false }) r), w)

-- `parse().unwrap()`: a panic is `none`
abbrev pub unwrapped : {R V W : Type 0} → Foreign R → (R → Body W V) → Body W V
unwrapped (ok r) f w = f r w
unwrapped (err e) f w = (none, w)

-- `.map(|returned| returned.value)`
abbrev pub value_of : {V : Type 0} → Option (Outcome (Return V)) → Option (Outcome V)
value_of none = none
value_of (some r) = some (map_ok (λ returned. returned.value) r)

module _ (O : OciLibs) {W : Type 0} (D : RegistryClient O W) where
  unfoldable pub fetch_manifest_digest_cached : O.Reference → RegistryAuth → Body W String
  fetch_manifest_digest_cached image auth client = fresh (
      on_error (registry_fetch_manifest_error (O.whole image))
        (D.fetch_manifest_digest image auth client))

  unfoldable pub new_pull_settings : O.Reference → RegistryAuth → List String → PullSettings
  new_pull_settings image auth accepted_media_types = record {
    image = O.whole image;
    auth = from_registry_auth auth;
    accepted_media_types = accepted_media_types;
  }

  unfoldable pub pull_cached : PullSettings → Body W (List ImageLayer)
  pull_cached settings = unwrapped (O.parse settings.image) (λ image client. fresh (
      on_error (registry_pull_error (O.whole image))
        (D.pull image (to_registry_auth settings.auth) settings.accepted_media_types client)))

  unfoldable pub new_pull_manifest_settings : O.Reference → RegistryAuth → PullManifestSettings
  new_pull_manifest_settings image auth = record {
    image = O.whole image;
    auth = from_registry_auth auth;
  }

  unfoldable pub pull_manifest_cached : PullManifestSettings → Body W (OciManifest × String)
  pull_manifest_cached settings = unwrapped (O.parse settings.image) (λ image client. fresh (
      on_error (registry_pull_manifest_error (O.whole image))
        (D.pull_manifest image (to_registry_auth settings.auth) client)))

-- The three caches are statics of the process: all clients share them.
pub record Caches (W : Type 0) : Type 1 where
  pub digests : Cached W String
  pub images : Cached W (List ImageLayer)
  pub manifests : Cached W (OciManifest × String)

pub record State {W : Type 0} (C : Caches W) : Type 0 where
  pub digests : C.digests.Store
  pub images : C.images.Store
  pub manifests : C.manifests.Store
  pub registry_client : W

module _ (O : OciLibs) {W : Type 0} (D : RegistryClient O W) (H : KeyLibs) (C : Caches W) where
  -- the calls, at the time `now`
  unfoldable pub fetch_manifest_digest :
      O.Reference → RegistryAuth → ℕ → State C → Option (Outcome String) × State C
  fetch_manifest_digest image auth now self =
      let called =
        C.digests.call lifetime (O.to_string image) now
          (fetch_manifest_digest_cached O D image auth) self.digests self.registry_client in
      (
        value_of called.outcome,
        record self { digests = called.store; registry_client = called.world },
      )

  unfoldable pub pull :
      O.Reference
      → RegistryAuth
      → List String
      → ℕ
      → State C
      → Option (Outcome (List ImageLayer)) × State C
  pull image auth accepted_media_types now self =
      let settings = new_pull_settings O D image auth accepted_media_types in
      let called =
        C.images.call lifetime (hash_pull H settings) now (pull_cached O D settings) self.images
          self.registry_client in
      (
        value_of called.outcome,
        record self { images = called.store; registry_client = called.world },
      )

  unfoldable pub pull_manifest :
      O.Reference → RegistryAuth → ℕ → State C → Option (Outcome (OciManifest × String)) × State C
  pull_manifest image auth now self =
      let settings = new_pull_manifest_settings O D image auth in
      let called =
        C.manifests.call lifetime (hash_pull_manifest H settings) now
          (pull_manifest_cached O D settings) self.manifests self.registry_client in
      (
        value_of called.outcome,
        record self { manifests = called.store; registry_client = called.world },
      )

  -- nothing is cached
  unfoldable pub push :
      O.Reference
      → List ImageLayer
      → ConfigLayer
      → RegistryAuth
      → Option OciImageManifest
      → State C
      → Outcome PushReceipt × State C
  push image_ref layers config auth manifest self =
      let (answer, registry_client) =
        on_error (registry_push_error (O.whole image_ref))
          (D.push image_ref layers config auth manifest self.registry_client) in
      (answer, record self { registry_client = registry_client })
