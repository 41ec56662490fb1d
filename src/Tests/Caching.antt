-- ===== src/Tests/Caching.antt =====
-- Examples: the caching registry client over caches that are association lists.
use sigstore_rs.Prelude.{
  ℕ, ◌+◌, ◌<◌, String, true, ◌≡◌, refl, sym, ap, ◌∙◌, subst, arith, Option, none, some, [], ◌∷◌, ok,
  err, ◌==◌, eq_iff, eq_refl, ltb, if◌then◌else◌, inl, inr, ◌⊎◌, Bool-cases, some-injective,
  as_bytes, concat, decimal,
}
use sigstore_rs.Errors.{SigstoreError, Outcome, registry_pull_error}
use sigstore_rs.HashMap.{HashMap, get, insert, get-insert}
use sigstore_rs.Registry.Libs.{RegistryAuth, RegistryClient, ImageLayer, image_index}
use sigstore_rs.Registry.CachingClient.Attribute.{
  Return, Called, Body, Cached, IsCached, IsHit, IsMiss, KeepsYoung,
}
use sigstore_rs.Registry.CachingClient.{
  KeyLibs, Caches, State, fetch_manifest_digest, fetch_manifest_digest_cached, pull, pull_cached,
  new_pull_settings, hash_pull, hash_of, hex_byte, hex_digit,
}
use sigstore_rs.Registry.CachingClient.Freshness.{CacheLaws, IsParsed, IsRecent}
use sigstore_rs.Registry.CachingClient.Runs.{plain_pull, image_key, Reaches, pull-IsRecent}
use sigstore_rs.Registry.CachingClient.Answers.{start, pull-err}
use sigstore_rs.Registry.CachingClient.Sharing.{Follows, IsExpired, fetch_manifest_digest-shared}
use sigstore_rs.Tests.Toy.{toy_oci}

module _ {V : Type 0} where
  -- the kept value, while it is young
  abbrev young : ℕ → ℕ → Option (V × ℕ) → Option V
  young time now none = none
  young time now (some (v, t)) = if ltb now (t + time) then some v else none

  abbrev keep : String → ℕ → HashMap (V × ℕ) → Option (Outcome (Return V)) → HashMap (V × ℕ)
  keep key now store (some (ok r)) = insert key (r.value, now) store
  keep key now store (some (err e)) = store
  keep key now store none = store

  abbrev Holds : HashMap (V × ℕ) → String → V → ℕ → Type 0
  Holds store k v t = get k store ≡ some (v, t)

  keep-stored :
      (key : String) (now : ℕ) (store : HashMap (V × ℕ)) (o : Option (Outcome (Return V)))
      (r : Return V)
      → o ≡ some (ok r)
      → get key (keep key now store o) ≡ some (r.value, now)
  keep-stored key now store (some (ok q)) r e =
      get-insert key key (q.value, now) store ∙ rw (eq_refl key) (cc)
  keep-stored key now store (some (err q)) r e = cc
  keep-stored key now store none r e = cc

  keep-origin :
      (key : String) (now : ℕ) (store : HashMap (V × ℕ)) (o : Option (Outcome (Return V)))
      (k : String) (v : V) (t : ℕ)
      → get k (keep key now store o) ≡ some (v, t)
      → (get k store ≡ some (v, t))
        ⊎ ((k ≡ key) × (t ≡ now) × ((r : Return V) × (o ≡ some (ok r)) × (r.value ≡ v)))
  keep-origin key now store none k v t h = inl h
  keep-origin key now store (some (err e)) k v t h = inl h
  keep-origin key now store (some (ok r)) k v t h = elim (Bool-cases (key == k)) [
    | inl e ↦
        let g = rw e at (sym (get-insert key k (r.value, now) store) ∙ h) in
        let same = some-injective g in
        inr (sym ((eq_iff key k).0 e), ap (λ p. p.1) (sym same), (r, refl, ap (λ p. p.0) same))
    | inr e ↦ inl (rw e at (sym (get-insert key k (r.value, now) store) ∙ h))
  ]

  keep-other :
      (key : String) (now : ℕ) (store : HashMap (V × ℕ)) (o : Option (Outcome (Return V)))
      (k : String) (v : V) (t : ℕ)
      → ¬ (key ≡ k)
      → get k store ≡ some (v, t)
      → get k (keep key now store o) ≡ some (v, t)
  keep-other key now store none k v t other h = h
  keep-other key now store (some (err e)) k v t other h = h
  keep-other key now store (some (ok r)) k v t other h = elim (Bool-cases (key == k)) [
    | inl e ↦ absurd (other ((eq_iff key k).0 e))
    | inr e ↦ get-insert key k (r.value, now) store ∙ rw (e) h
  ]

  young-kept :
      (time now : ℕ) (o : Option (V × ℕ)) (v : V)
      → young time now o ≡ some v
      → (t : ℕ) × (o ≡ some (v, t)) × (now < t + time)
  young-kept time now none v h = cc
  young-kept time now (some (u, t)) v h = elim (Bool-cases (ltb now (t + time))) [
    | inl e ↦ (t, ap (λ x. some (x, t)) (some-injective (rw e at h)), ground arith)
    | inr e ↦ let g = rw e at h in cc
  ]

  young-some :
      (time now t : ℕ) (v : V) (o : Option (V × ℕ))
      → o ≡ some (v, t)
      → now < t + time
      → young time now o ≡ some v
  young-some time now t v none h less = cc
  young-some time now t v (some (u, s)) h less =
      let same = some-injective h in
      let before = subst (λ s'. now < s' + time) (ap (λ p. p.1) (sym same)) less in
      let tested : ltb now (s + time) ≡ true = ground arith in
      rw tested (ap some (ap (λ p. p.0) same))

module _ {W V : Type 0} where
  abbrev choose :
      Option V → String → ℕ → Body W V → HashMap (V × ℕ) → W → Called V (HashMap (V × ℕ)) W
  choose (some v) key now body store world = record {
    outcome = some (ok (record { value = v; was_cached = true }));
    store = store;
    world = world;
  }
  choose none key now body store world = record {
    outcome = (body world).0;
    store = keep key now store (body world).0;
    world = (body world).1;
  }

  abbrev listed : Cached W V
  listed = record {
    Store = HashMap (V × ℕ);
    empty = [];
    call = λ time key now body store world.
        choose (young time now (get key store)) key now body store world;
  }

  choose-cases :
      (o : Option V) (time : ℕ) (key : String) (now : ℕ) (body : Body W V) (store : HashMap (V × ℕ))
      (world : W)
      → young time now (get key store) ≡ o
      → IsHit listed Holds time key now body store world
        ⊎ IsMiss listed Holds time key now body store world
  choose-cases (some v) time key now body store world e =
      let (t, kept, before) = young-kept time now (get key store) v e in
      inl (record {
        value = v;
        stored_at = t;
        kept = kept;
        young = before;
        outcome = ap (λ o. (choose o key now body store world).outcome) e;
        world_same = ap (λ o. (choose o key now body store world).world) e;
      })
  choose-cases none time key now body store world e = inr (record {
    outcome = ap (λ o. (choose o key now body store world).outcome) e;
    world_same = ap (λ o. (choose o key now body store world).world) e;
    stored = λ r answered.
        subst (λ o. get key (choose o key now body store world).store ≡ some (r.value, now)) (sym e)
          (keep-stored key now store (body world).0 r answered);
  })

  choose-origin :
      (o : Option V) (key : String) (now : ℕ) (body : Body W V) (store : HashMap (V × ℕ))
      (world : W) (k : String) (v : V) (t : ℕ)
      → get k (choose o key now body store world).store ≡ some (v, t)
      → (get k store ≡ some (v, t))
        ⊎ ((k ≡ key)
            × (t ≡ now)
            × ((r : Return V) × ((body world).0 ≡ some (ok r)) × (r.value ≡ v)))
  choose-origin (some u) key now body store world k v t h = inl h
  choose-origin none key now body store world k v t h =
      keep-origin key now store (body world).0 k v t h

  listed-IsCached : IsCached listed Holds
  unfolding get
  listed-IsCached = record {
    empty = λ k v t h. cc;
    called = λ time key now body store world. choose-cases _ time key now body store world refl;
    hit = λ time key now body store world v t kept before.
        ap (λ o. (choose o key now body store world).outcome)
          (young-some time now t v (get key store) kept before);
    origin = λ time key now body store world k v t h.
        choose-origin (young time now (get key store)) key now body store world k v t h;
  }

  -- a young value is found, so its key is not written; the other keys stay
  choose-keeps :
      (o : Option V) (key : String) (now : ℕ) (body : Body W V) (store : HashMap (V × ℕ))
      (world : W) (k : String) (v : V) (t : ℕ)
      → (key ≡ k → o ≡ some v)
      → get k store ≡ some (v, t)
      → get k (choose o key now body store world).store ≡ some (v, t)
  choose-keeps (some u) key now body store world k v t found h = h
  choose-keeps none key now body store world k v t found h =
      keep-other key now store (body world).0 k v t (λ e. let g = found e in cc) h

  listed-KeepsYoung : KeepsYoung listed Holds
  listed-KeepsYoung time key now body store world k v t kept before =
      choose-keeps (young time now (get key store)) key now body store world k v t
        (λ e. young-some time now t v (get key store) (ap (λ x. get x store) e ∙ kept) before) kept

abbrev layer : ImageLayer
layer = record { data_bytes = 1 ∷ []; media_type = "m"; annotations = none }

-- a registry that answers with its state, which counts the calls
abbrev registry : RegistryClient toy_oci String
registry = record {
  fetch_manifest_digest = λ image auth w. (ok w, "later");
  pull = λ image auth types w. (if w == "down" then err "refused" else ok (layer ∷ []), w);
  pull_manifest = λ image auth w. (ok (image_index, w), "later");
  push = λ image layers config auth manifest w. (err "refused", w);
}

abbrev keys : KeyLibs
keys = record {
  canonical_pull_settings = λ s. ok (as_bytes s.image);
  canonical_pull_manifest_settings = λ s. ok (as_bytes s.image);
  sha256_digest = λ b. b;
}

abbrev caches : Caches String
caches = record { digests = listed; images = listed; manifests = listed }

abbrev cache_laws : CacheLaws caches
cache_laws = record {
  digests_hold = Holds;
  digests = listed-IsCached;
  images_hold = Holds;
  images = listed-IsCached;
  manifests_hold = Holds;
  manifests = listed-IsCached;
}

abbrev initial : String → State caches
initial w = start toy_oci registry keys caches cache_laws w

abbrev asked : State caches
asked =
    (fetch_manifest_digest toy_oci registry keys caches "image" RegistryAuth.anonymous 5
      (initial "first")).1

-- the digest is the one of the first call, though the registry has another by now
second_call :
    (fetch_manifest_digest toy_oci registry keys caches "image" RegistryAuth.anonymous 64 asked).0
    ≡ some (ok "first")
unfolding fetch_manifest_digest get insert fetch_manifest_digest_cached
second_call = refl

-- a minute after the first call the registry is asked again
expired_call :
    (fetch_manifest_digest toy_oci registry keys caches "image" RegistryAuth.anonymous 65 asked).0
    ≡ some (ok "later")
unfolding fetch_manifest_digest get insert fetch_manifest_digest_cached
expired_call = refl

abbrev run : Reaches toy_oci registry keys caches asked (record {
  digests = (("image", RegistryAuth.anonymous), 5, "first") ∷ [];
  images = [];
  manifests = [];
})
run = Reaches.fetched "image" RegistryAuth.anonymous 5 (Reaches.started "first")

-- other callers ask for another image and for this one, and the registry changes
abbrev others : State caches
others =
    record (fetch_manifest_digest toy_oci registry keys caches "image" RegistryAuth.anonymous 20
      (fetch_manifest_digest toy_oci registry keys caches "other" RegistryAuth.anonymous 10
        asked).1).1 { registry_client = "gone" }

others_follow : Follows toy_oci registry keys caches 65 asked others
others_follow = Follows.changed "gone" (
    Follows.fetched "image" RegistryAuth.anonymous 20 (omega arith)
      (Follows.fetched "other" RegistryAuth.anonymous 10 (omega arith) Follows.here))

none_kept : IsExpired toy_oci registry keys caches cache_laws (initial "first") "image" 5
none_kept digest stored_at h = absurd (cache_laws.digests.empty "image" digest stored_at h)

first_call :
    (fetch_manifest_digest toy_oci registry keys caches "image" RegistryAuth.anonymous 5
      (initial "first")).0
    ≡ some (ok "first")
unfolding fetch_manifest_digest get fetch_manifest_digest_cached
first_call = refl

fetch_manifest_digest-shared_example :
    (fetch_manifest_digest toy_oci registry keys caches "image"
      (RegistryAuth.basic "user" "pass")
      64
      others).0
    ≡ some (ok "first")
fetch_manifest_digest-shared_example =
    fetch_manifest_digest-shared toy_oci registry keys caches cache_laws listed-KeepsYoung
      (initial "first") others "image" RegistryAuth.anonymous (RegistryAuth.basic "user" "pass") 5
      64 "first" none_kept first_call others_follow (omega arith)

parsed : IsParsed toy_oci
parsed r = refl

pulled :
    (pull toy_oci registry keys caches "image" RegistryAuth.anonymous [] 5 (initial "up")).0
    ≡ some (ok (layer ∷ []))
unfolding pull get insert pull_cached new_pull_settings hash_pull hash_of hex_byte hex_digit
pulled = refl

pull-IsRecent_example :
    IsRecent
      (plain_pull toy_oci registry keys)
      (image_key toy_oci registry keys)
      ((("image", RegistryAuth.anonymous, []), 5, "up") ∷ [])
      (image_key toy_oci registry keys ("image", RegistryAuth.anonymous, []))
      (layer ∷ [])
      5
pull-IsRecent_example =
    pull-IsRecent toy_oci registry keys caches cache_laws parsed "image" RegistryAuth.anonymous [] 5
      (layer ∷ []) (Reaches.started "up") pulled

abbrev refusal : SigstoreError
refusal = registry_pull_error "image" "refused"

refused :
    (pull toy_oci registry keys caches "image" RegistryAuth.anonymous [] 5 (initial "down")).0
    ≡ some (err refusal)
unfolding pull get insert pull_cached new_pull_settings hash_pull hash_of hex_byte hex_digit
refused = refl

pull-err_example :
    (plain_pull toy_oci registry keys ("image", RegistryAuth.anonymous, []) "down").0 ≡ err refusal
pull-err_example =
    pull-err toy_oci registry keys caches cache_laws parsed "image" RegistryAuth.anonymous [] 5
      (initial "down") refusal refused

-- two digests with one text: the digits of a byte below 16 are not padded
hash_collision : hash_of (λ b. b) (ok (1 ∷ 35 ∷ [])) ≡ hash_of (λ b. b) (ok (18 ∷ 3 ∷ []))
unfolding hash_of hex_byte hex_digit concat decimal
hash_collision = refl
