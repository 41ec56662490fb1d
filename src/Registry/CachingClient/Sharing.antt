-- ===== src/Registry/CachingClient/Sharing.antt =====
-- src/registry/oci_caching_client.rs: who else is given a digest that the registry answered. The key of
-- the cache of digests is the image alone.
use sigstore_rs.Prelude.{
  Option, ℕ, ◌+◌, ◌<◌, ◌≤◌, String, ◌≡◌, sym, ap, ◌∙◌, subst, arith, some, List, ok, inl, inr,
}
use sigstore_rs.Registry.Libs.{
  OciLibs, RegistryClient, RegistryAuth, ImageLayer, ConfigLayer, OciImageManifest,
}
use sigstore_rs.Registry.CachingClient.Attribute.{KeepsYoung}
use sigstore_rs.Registry.CachingClient.{
  lifetime, KeyLibs, value_of, Caches, State, fetch_manifest_digest, pull, pull_manifest, push,
}
use sigstore_rs.Registry.CachingClient.Freshness.{CacheLaws, value_of-eq}
use sigstore_rs.Registry.CachingClient.Runs.{digest_body}

module _ (O : OciLibs) {W : Type 0} (D : RegistryClient O W) (H : KeyLibs) (C : Caches W) where
  -- What may happen between two states: any calls by any callers, in any order, those of
  -- `fetch_manifest_digest` before the given second, and changes of the registry.
  pub data Follows (until : ℕ) (s : State C) : State C → Type 0 where
    here : Follows until s s
    changed :
        {t : State C} (w : W)
        → Follows until s t
        → Follows until s (record t { registry_client = w })
    fetched :
        {t : State C} (image : O.Reference) (auth : RegistryAuth) (now : ℕ)
        → now < until
        → Follows until s t
        → Follows until s (fetch_manifest_digest O D H C image auth now t).1
    pulled :
        {t : State C} (image : O.Reference) (auth : RegistryAuth) (types : List String) (now : ℕ)
        → Follows until s t
        → Follows until s (pull O D H C image auth types now t).1
    manifest_pulled :
        {t : State C} (image : O.Reference) (auth : RegistryAuth) (now : ℕ)
        → Follows until s t
        → Follows until s (pull_manifest O D H C image auth now t).1
    pushed :
        {t : State C} (image : O.Reference) (layers : List ImageLayer) (config : ConfigLayer)
        (auth : RegistryAuth) (manifest : Option OciImageManifest)
        → Follows until s t
        → Follows until s (push O D H C image layers config auth manifest t).1

  module _ (laws : CacheLaws C) where
    -- no value that is kept under the key is younger than a minute
    abbrev pub IsExpired : State C → String → ℕ → Type 0
    IsExpired s key now =
        (digest : String) (stored_at : ℕ)
        → laws.digests_hold s.digests key digest stored_at
        → stored_at + 60 ≤ now

    -- a fetch that no kept value answers keeps its own answer
    fetched-holds :
        (s : State C) (image : O.Reference) (auth : RegistryAuth) (now : ℕ) (digest : String)
        → IsExpired s (O.to_string image) now
        → (fetch_manifest_digest O D H C image auth now s).0 ≡ some (ok digest)
        → laws.digests_hold
            (fetch_manifest_digest O D H C image auth now s).1.digests
            (O.to_string image)
            digest
            now
    unfolding fetch_manifest_digest
    fetched-holds s image auth now digest expired e =
        let body = digest_body O D H (image, auth) in
        elim (laws.digests.called lifetime (O.to_string image) now body s.digests
          s.registry_client) [
            | inl q ↦
                let old = expired q.value q.stored_at q.kept in
                let young = q.young in absurd (omega arith)
            | inr q ↦
                let (r, called, same) = value_of-eq _ e in
                subst
                  (λ v.
                    laws.digests_hold (fetch_manifest_digest O D H C image auth now s).1.digests
                      (O.to_string image) v now)
                  same (q.stored r (sym q.outcome ∙ called))
          ]

    module _ (keeps : KeepsYoung C.digests laws.digests_hold) where
      Follows-holds :
          (k digest : String) (stored_at : ℕ) {s t : State C}
          → Follows (stored_at + lifetime) s t
          → laws.digests_hold s.digests k digest stored_at
          → laws.digests_hold t.digests k digest stored_at
      unfolding fetch_manifest_digest pull pull_manifest push
      Follows-holds k digest stored_at here h = h
      Follows-holds k digest stored_at (changed w run) h = Follows-holds k digest stored_at run h
      Follows-holds k digest stored_at (fetched image auth now young run) h =
          keeps lifetime _ now _ _ _ k digest stored_at (Follows-holds k digest stored_at run h)
            young
      Follows-holds k digest stored_at (pulled image auth types now run) h =
          Follows-holds k digest stored_at run h
      Follows-holds k digest stored_at (manifest_pulled image auth now run) h =
          Follows-holds k digest stored_at run h
      Follows-holds k digest stored_at (pushed image layers config auth manifest run) h =
          Follows-holds k digest stored_at run h

      -- Where the cached crate keeps a value for its lifetime, take any state in which no value
      -- younger than 60 seconds is kept for an image, so that the registry is asked for its digest,
      -- and let that be answered. In the 60 seconds from then on, whatever other calls are made and
      -- however the registry changes, every call for the image is given that digest, whatever its
      -- credentials.
      pub fetch_manifest_digest-shared :
          (s t : State C) (image : O.Reference) (auth auth' : RegistryAuth) (now later : ℕ)
          (digest : String)
          → IsExpired s (O.to_string image) now
          → (fetch_manifest_digest O D H C image auth now s).0 ≡ some (ok digest)
          → Follows (now + 60) (fetch_manifest_digest O D H C image auth now s).1 t
          → later < now + 60
          → (fetch_manifest_digest O D H C image auth' later t).0 ≡ some (ok digest)
      unfolding fetch_manifest_digest
      fetch_manifest_digest-shared s t image auth auth' now later digest expired e between young =
          ap value_of (
            laws.digests.hit lifetime (O.to_string image) later (digest_body O D H (image, auth')) _
              _ digest now
              (Follows-holds (O.to_string image) digest now between
                (fetched-holds s image auth now digest expired e))
              young)
