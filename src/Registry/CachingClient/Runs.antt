-- ===== src/Registry/CachingClient/Runs.antt =====
-- src/registry/oci_caching_client.rs: the runs of calls from empty caches, with the calls that reached
-- each cache, and the plain client of src/registry/oci_client.rs that they are compared with.
use sigstore_rs.Prelude.{ℕ, String, ◌≡◌, refl, ap, ◌∙◌, Option, some, List, [], ◌∷◌, ok}
use sigstore_rs.Errors.{Outcome}
use sigstore_rs.Registry.Libs.{
  OciLibs, RegistryClient, RegistryAuth, ImageLayer, OciManifest, ConfigLayer, OciImageManifest,
}
use sigstore_rs.Registry.OciClient
use sigstore_rs.Registry.CachingClient.Attribute.{Body, History, Remembers, Remembers-call}
use sigstore_rs.Registry.CachingClient.{
  lifetime, KeyLibs, hash_pull, hash_pull_manifest, fresh, fetch_manifest_digest_cached,
  new_pull_settings, pull_cached, new_pull_manifest_settings, pull_manifest_cached, Caches, State,
  fetch_manifest_digest, pull, pull_manifest, push,
}
use sigstore_rs.Registry.CachingClient.Freshness.{
  CacheLaws, IsParsed, IsRecent, call-IsRecent, unwrapped-eq, to_registry_auth-from,
}

module _ (O : OciLibs) {W : Type 0} (D : RegistryClient O W) (H : KeyLibs) where
  abbrev pub DigestCall : Type 0
  DigestCall = O.Reference × RegistryAuth

  abbrev pub ImageCall : Type 0
  ImageCall = O.Reference × RegistryAuth × List String

  -- the calls as the plain client answers them
  abbrev pub plain_digest : DigestCall → W → Outcome String × W
  plain_digest (image, auth) = OciClient.fetch_manifest_digest O D image auth

  abbrev pub plain_pull : ImageCall → W → Outcome (List ImageLayer) × W
  plain_pull (image, auth, types) = OciClient.pull O D image auth types

  abbrev pub plain_manifest : DigestCall → W → Outcome (OciManifest × String) × W
  plain_manifest (image, auth) = OciClient.pull_manifest O D image auth

  -- and their keys
  abbrev pub digest_key : DigestCall → String
  digest_key (image, auth) = O.to_string image

  abbrev pub image_key : ImageCall → String
  image_key (image, auth, types) = hash_pull H (new_pull_settings O D image auth types)

  abbrev pub manifest_key : DigestCall → String
  manifest_key (image, auth) = hash_pull_manifest H (new_pull_manifest_settings O D image auth)

  abbrev pub digest_body : DigestCall → Body W String
  digest_body (image, auth) = fetch_manifest_digest_cached O D image auth

  abbrev pub image_body : ImageCall → Body W (List ImageLayer)
  image_body (image, auth, types) = pull_cached O D (new_pull_settings O D image auth types)

  abbrev pub manifest_body : DigestCall → Body W (OciManifest × String)
  manifest_body (image, auth) = pull_manifest_cached O D (new_pull_manifest_settings O D image auth)

  pub digest_body-agrees : (c : DigestCall) (w : W) → digest_body c w ≡ fresh (plain_digest c w)
  unfolding fetch_manifest_digest_cached OciClient.fetch_manifest_digest
  digest_body-agrees (image, auth) w = refl

  module _ (parsed : IsParsed O) where
    pub image_body-agrees : (c : ImageCall) (w : W) → image_body c w ≡ fresh (plain_pull c w)
    unfolding pull_cached new_pull_settings OciClient.pull
    image_body-agrees (image, auth, types) w =
        unwrapped-eq _ image (parsed image) w
        ∙ ap (λ a. fresh (OciClient.pull O D image a types w)) (to_registry_auth-from auth)

    pub manifest_body-agrees :
        (c : DigestCall) (w : W) → manifest_body c w ≡ fresh (plain_manifest c w)
    unfolding pull_manifest_cached new_pull_manifest_settings OciClient.pull_manifest
    manifest_body-agrees (image, auth) w =
        unwrapped-eq _ image (parsed image) w
        ∙ ap (λ a. fresh (OciClient.pull_manifest O D image a w)) (to_registry_auth-from auth)

  -- The calls that reached each cache.
  pub record Calls : Type 0 where
    pub digests : History DigestCall W
    pub images : History ImageCall W
    pub manifests : History DigestCall W

  module _ (C : Caches W) where
    -- A run from empty caches: calls of the client, at any times, and changes of the registry.
    pub data Reaches : State C → Calls → Type 0 where
      started :
          (w : W)
          → Reaches
              (record {
                digests = C.digests.empty;
                images = C.images.empty;
                manifests = C.manifests.empty;
                registry_client = w;
              })
              (record { digests = []; images = []; manifests = [] })
      changed :
          {s : State C} {calls : Calls} (w : W)
          → Reaches s calls
          → Reaches (record s { registry_client = w }) calls
      fetched :
          {s : State C} {calls : Calls} (image : O.Reference) (auth : RegistryAuth) (now : ℕ)
          → Reaches s calls
          → Reaches
              (fetch_manifest_digest O D H C image auth now s).1
              (record calls { digests = ((image, auth), now, s.registry_client) ∷ calls.digests })
      pulled :
          {s : State C} {calls : Calls} (image : O.Reference) (auth : RegistryAuth)
          (types : List String) (now : ℕ)
          → Reaches s calls
          → Reaches (pull O D H C image auth types now s).1 (record calls {
            images = ((image, auth, types), now, s.registry_client) ∷ calls.images;
          })
      manifest_pulled :
          {s : State C} {calls : Calls} (image : O.Reference) (auth : RegistryAuth) (now : ℕ)
          → Reaches s calls
          → Reaches (pull_manifest O D H C image auth now s).1 (record calls {
            manifests = ((image, auth), now, s.registry_client) ∷ calls.manifests;
          })
      pushed :
          {s : State C} {calls : Calls} (image : O.Reference) (layers : List ImageLayer)
          (config : ConfigLayer) (auth : RegistryAuth) (manifest : Option OciImageManifest)
          → Reaches s calls
          → Reaches (push O D H C image layers config auth manifest s).1 calls

    module _ (laws : CacheLaws C) where
      -- Every value that a cache keeps was answered to a call of the run with its key, at the time
      -- that it is kept under.
      pub record IsRemembered (s : State C) (calls : Calls) : Type 0 where
        pub digests :
            Remembers C.digests laws.digests_hold lifetime digest_key digest_body s.digests
              calls.digests
        pub images :
            Remembers C.images laws.images_hold lifetime image_key image_body s.images calls.images
        pub manifests :
            Remembers C.manifests laws.manifests_hold lifetime manifest_key manifest_body
              s.manifests calls.manifests

      pub Reaches-IsRemembered :
          {s : State C} {calls : Calls} → Reaches s calls → IsRemembered s calls
      unfolding fetch_manifest_digest pull pull_manifest push
      Reaches-IsRemembered (Reaches.started w) = record {
        digests = λ k v t p. elim (laws.digests.empty k v t p) [ ];
        images = λ k v t p. elim (laws.images.empty k v t p) [ ];
        manifests = λ k v t p. elim (laws.manifests.empty k v t p) [ ];
      }
      Reaches-IsRemembered (Reaches.changed w run) =
          let h = Reaches-IsRemembered run in
          record { digests = h.digests; images = h.images; manifests = h.manifests }
      Reaches-IsRemembered (Reaches.fetched {s} image auth now run) =
          let h = Reaches-IsRemembered run in
          record {
            digests =
                Remembers-call C.digests laws.digests_hold lifetime digest_key digest_body
                  laws.digests (image, auth) now s.digests s.registry_client _ h.digests;
            images = h.images;
            manifests = h.manifests;
          }
      Reaches-IsRemembered (Reaches.pulled {s} image auth types now run) =
          let h = Reaches-IsRemembered run in
          record {
            digests = h.digests;
            images =
                Remembers-call C.images laws.images_hold lifetime image_key image_body laws.images
                  (image, auth, types) now s.images s.registry_client _ h.images;
            manifests = h.manifests;
          }
      Reaches-IsRemembered (Reaches.manifest_pulled {s} image auth now run) =
          let h = Reaches-IsRemembered run in
          record {
            digests = h.digests;
            images = h.images;
            manifests =
                Remembers-call C.manifests laws.manifests_hold lifetime manifest_key manifest_body
                  laws.manifests (image, auth) now s.manifests s.registry_client _ h.manifests;
          }
      Reaches-IsRemembered (Reaches.pushed image layers config auth manifest run) =
          let h = Reaches-IsRemembered run in
          record { digests = h.digests; images = h.images; manifests = h.manifests }

      pub fetch_manifest_digest-IsRecent :
          {s : State C} {calls : Calls} (image : O.Reference) (auth : RegistryAuth) (now : ℕ)
          (digest : String)
          → Reaches s calls
          → (fetch_manifest_digest O D H C image auth now s).0 ≡ some (ok digest)
          → IsRecent plain_digest digest_key
              (((image, auth), now, s.registry_client) ∷ calls.digests)
              (O.to_string image)
              digest
              now
      unfolding fetch_manifest_digest
      fetch_manifest_digest-IsRecent {s} image auth now digest run e =
          call-IsRecent C.digests laws.digests_hold laws.digests plain_digest digest_key digest_body
            digest_body-agrees (image, auth) now s.digests s.registry_client _ digest
            (Reaches-IsRemembered run).digests e

      module _ (parsed : IsParsed O) where
        pub pull-IsRecent :
            {s : State C} {calls : Calls} (image : O.Reference) (auth : RegistryAuth)
            (types : List String) (now : ℕ) (layers : List ImageLayer)
            → Reaches s calls
            → (pull O D H C image auth types now s).0 ≡ some (ok layers)
            → IsRecent plain_pull image_key
                (((image, auth, types), now, s.registry_client) ∷ calls.images)
                (image_key (image, auth, types))
                layers
                now
        unfolding pull
        pull-IsRecent {s} image auth types now layers run e =
            call-IsRecent C.images laws.images_hold laws.images plain_pull image_key image_body
              (image_body-agrees parsed) (image, auth, types) now s.images s.registry_client _
              layers (Reaches-IsRemembered run).images e

        pub pull_manifest-IsRecent :
            {s : State C} {calls : Calls} (image : O.Reference) (auth : RegistryAuth) (now : ℕ)
            (answer : OciManifest × String)
            → Reaches s calls
            → (pull_manifest O D H C image auth now s).0 ≡ some (ok answer)
            → IsRecent plain_manifest manifest_key
                (((image, auth), now, s.registry_client) ∷ calls.manifests)
                (manifest_key (image, auth))
                answer
                now
        unfolding pull_manifest
        pull_manifest-IsRecent {s} image auth now answer run e =
            call-IsRecent C.manifests laws.manifests_hold laws.manifests plain_manifest manifest_key
              manifest_body (manifest_body-agrees parsed) (image, auth) now s.manifests
              s.registry_client _ answer (Reaches-IsRemembered run).manifests e
