-- ===== src/Tuf/Caching.antt =====
-- src/tuf/repository_helper.rs: the local cache of the targets.
use sigstore_rs.Prelude.{
  String, Bytes, Bool, true, false, ◌≡◌, ◌≢◌, refl, sym, subst, ap, ◌∙◌, ◌⊎◌, inl, inr, Option,
  none, some, ok, ok_or, map_err, Bool-cases, Result-cases, bytes_eq, bytes_eq_sound, bytes_eq_refl,
  >>=-eq-ok, map_err-eq-ok, ok_or-eq-ok, ok-injective, some-injective, as_bytes,
}
use sigstore_rs.Errors.{Outcome, Foreign, io_error, tuf_error, tuf_target_not_found_error}
use sigstore_rs.Crypto.Libs.{Libs}
use sigstore_rs.Tuf.{
  Repository, Files, read_to_end, fetch_reader, fetch_target, compare_digests,
  is_local_file_outdated, check_local, store, use_local, fetch_target_or_reuse_local_cache,
}

pair_eq : {A B : Type 0} {p : A × B} {a : A} {b : B} → p.0 ≡ a → p.1 ≡ b → p ≡ (a, b)
pair_eq e f = cc

module _ (L : Libs) {S : Type 0} (F : Files S) (repository : Repository)
    (target_name : String) where
  -- the local file is there, it is text with the hash of the metadata, and its bytes are the data
  pub record IsReused (local_file : Option String) (s : S) (contents : String) : Type 0 where
    pub path : String
    pub given : local_file ≡ some path
    pub exists : F.exists path s ≡ true
    pub read : F.read_to_string path s ≡ ok contents
    pub expected : Bytes
    pub reported : repository.target_hash target_name ≡ some expected
    pub same : L.sha256_digest (as_bytes contents) ≡ expected

  -- the data is the repository's, and is written to the local file where there is one
  pub record IsDownloaded (local_file : Option String) (s : S) (bytes : Bytes) (s' : S)
      : Type 0 where
    pub target : repository.read_target target_name ≡ ok (some (ok bytes))
    pub written :
        ((local_file ≡ none) × (s' ≡ s))
        ⊎ ((path : String) × (local_file ≡ some path) × (F.write path bytes s ≡ (ok tt, s')))

  compare_digests-false :
      (expected : Bytes) (text : String) (contents : Option String)
      → compare_digests L F expected text ≡ (false, contents)
      → (L.sha256_digest (as_bytes text) ≡ expected) × (contents ≡ some text)
  unfolding compare_digests
  compare_digests-false expected text contents h =
      elim (Bool-cases (bytes_eq (L.sha256_digest (as_bytes text)) expected)) [
        | inl e ↦
            let g = rw e at h in
            (bytes_eq_sound _ _ e, ap (λ (x : Bool × Option String). x.1) (sym g))
        | inr e ↦ let g = ap (λ (x : Bool × Option String). x.0) (rw e at h) in cc
      ]

  check_local-IsReused :
      (local_file : Option String) (s : S) (contents : Option String)
      → check_local L F repository target_name local_file s ≡ ok (false, contents)
      → (text : String) × (contents ≡ some text) × IsReused local_file s text
  unfolding check_local is_local_file_outdated
  check_local-IsReused none s contents h =
      let g = ap (λ (x : Bool × Option String). x.0) (ok-injective h) in cc
  check_local-IsReused (some path) s contents h =
      let (expected, e, h₁) =
        >>=-eq-ok
          (ok_or (tuf_target_not_found_error target_name) (repository.target_hash target_name)) _
          h in
      elim (Bool-cases (F.exists path s)) [
        | inr no_file ↦
            let g = ap (λ (x : Bool × Option String). x.0) (ok-injective (rw no_file at h₁)) in cc
        | inl there ↦
            let (text, r, h₂) =
              >>=-eq-ok (map_err io_error (F.read_to_string path s)) _ (rw there at h₁) in
            let (same, found) = compare_digests-false expected text contents (ok-injective h₂) in
            (
              text,
              found,
              record {
                path = path;
                given = refl;
                exists = there;
                read = map_err-eq-ok _ _ r;
                expected = expected;
                reported = ok_or-eq-ok _ _ e;
                same = same;
              },
            )
      ]

  store-written :
      (local_file : Option String) (s : S) (new : Bytes) (bytes : Bytes) (s' : S)
      → store L F local_file new s ≡ (some (ok bytes), s')
      → (new ≡ bytes)
        × (((local_file ≡ none) × (s' ≡ s))
            ⊎ ((path : String) × (local_file ≡ some path) × (F.write path new s ≡ (ok tt, s'))))
  unfolding store
  store-written none s new bytes s' h = (
    ok-injective (some-injective (ap (λ (x : Option (Outcome Bytes) × S). x.0) h)),
    inl (refl, ap (λ (x : Option (Outcome Bytes) × S). x.1) (sym h)),
  )
  store-written (some path) s new bytes s' h = elim (Result-cases (F.write path new s).0) [
    | inl (u, e) ↦
        let g = rw e at h in
        (
          ok-injective (some-injective (ap (λ (x : Option (Outcome Bytes) × S). x.0) g)),
          inr (path, refl, pair_eq e (ap (λ (x : Option (Outcome Bytes) × S). x.1) h)),
        )
    | inr (x, e) ↦ let g = ap (λ (x : Option (Outcome Bytes) × S). x.0) (rw e at h) in cc
  ]

  fetch_reader-ok :
      (found : Option (Foreign Bytes)) (bytes : Bytes)
      → fetch_reader target_name found ≡ ok bytes
      → found ≡ some (ok bytes)
  unfolding fetch_reader read_to_end
  fetch_reader-ok none bytes h = cc
  fetch_reader-ok (some reader) bytes h = ap some (map_err-eq-ok _ _ h)

  fetch_target-ok :
      (bytes : Bytes)
      → fetch_target repository target_name ≡ ok bytes
      → repository.read_target target_name ≡ ok (some (ok bytes))
  unfolding fetch_target
  fetch_target-ok bytes h =
      let (found, e, f) = >>=-eq-ok (map_err tuf_error (repository.read_target target_name)) _ h in
      map_err-eq-ok _ _ e ∙ ap ok (fetch_reader-ok found bytes f)

  use_local-cases :
      (local_file : Option String) (s : S) (checked : Bool × Option String) (bytes : Bytes) (s' : S)
      → check_local L F repository target_name local_file s ≡ ok checked
      → use_local L F repository target_name local_file checked s ≡ (some (ok bytes), s')
      → ((text : String) × (bytes ≡ as_bytes text) × (s' ≡ s) × IsReused local_file s text)
        ⊎ IsDownloaded local_file s bytes s'
  unfolding use_local
  use_local-cases local_file s (true, contents) bytes s' c h =
      elim (Result-cases (fetch_target repository target_name)) [
        | inl (new, e) ↦
            let (same, w) = store-written local_file s new bytes s' (rw e at h) in
            inr (
              subst (λ b. IsDownloaded local_file s b s') same
                (record { target = fetch_target-ok new e; written = w }))
        | inr (x, e) ↦ let g = ap (λ (x : Option (Outcome Bytes) × S). x.0) (rw e at h) in cc
      ]
  use_local-cases local_file s (false, none) bytes s' c h =
      let g = ap (λ (x : Option (Outcome Bytes) × S). x.0) h in cc
  use_local-cases local_file s (false, some text) bytes s' c h =
      let (found, e, r) = check_local-IsReused local_file s (some text) c in
      inl (
        text,
        sym (ok-injective (some-injective (ap (λ (x : Option (Outcome Bytes) × S). x.0) h))),
        ap (λ (x : Option (Outcome Bytes) × S). x.1) (sym h),
        subst (λ t. IsReused local_file s t) (sym (some-injective e)) r,
      )

  -- The bytes returned are either those of the local file, which has the hash that the repository's
  -- metadata reports and is left alone, or those of the repository's target, which are then written to
  -- the local file where there is one.
  pub fetch_target_or_reuse_local_cache-sources :
      (local_file : Option String) (s : S) (bytes : Bytes) (s' : S)
      → fetch_target_or_reuse_local_cache L F repository target_name local_file s
        ≡ (some (ok bytes), s')
      → ((text : String) × (bytes ≡ as_bytes text) × (s' ≡ s) × IsReused local_file s text)
        ⊎ IsDownloaded local_file s bytes s'
  unfolding fetch_target_or_reuse_local_cache
  fetch_target_or_reuse_local_cache-sources local_file s bytes s' h =
      elim (Result-cases (check_local L F repository target_name local_file s)) [
        | inl (checked, e) ↦ use_local-cases local_file s checked bytes s' e (rw e at h)
        | inr (x, e) ↦ let g = ap (λ (x : Option (Outcome Bytes) × S). x.0) (rw e at h) in cc
      ]

  store-runs :
      (local_file : Option String) (new : Bytes) (s : S) → (store L F local_file new s).0 ≢ none
  unfolding store
  store-runs none new s h = cc
  store-runs (some path) new s h = cc

  use_local-runs :
      (local_file : Option String) (s : S) (checked : Bool × Option String)
      → check_local L F repository target_name local_file s ≡ ok checked
      → (use_local L F repository target_name local_file checked s).0 ≢ none
  unfolding use_local
  use_local-runs local_file s (true, contents) c h =
      elim (Result-cases (fetch_target repository target_name)) [
        | inl (new, e) ↦ store-runs local_file new s (rw e at h)
        | inr (x, e) ↦ let g = rw e at h in cc
      ]
  use_local-runs local_file s (false, some text) c h = cc
  use_local-runs local_file s (false, none) c h =
      let (text, e, r) = check_local-IsReused local_file s none c in cc

  -- The call of `expect` never panics: whatever the repository and the file system answer, the
  -- function returns.
  pub fetch_target_or_reuse_local_cache-returns :
      (local_file : Option String) (s : S)
      → (fetch_target_or_reuse_local_cache L F repository target_name local_file s).0 ≢ none
  unfolding fetch_target_or_reuse_local_cache
  fetch_target_or_reuse_local_cache-returns local_file s h =
      elim (Result-cases (check_local L F repository target_name local_file s)) [
        | inl (checked, e) ↦ use_local-runs local_file s checked e (rw e at h)
        | inr (x, e) ↦ let g = rw e at h in cc
      ]

  check_local_complete :
      (local_file : Option String) (s : S) (text : String)
      → IsReused local_file s text
      → check_local L F repository target_name local_file s ≡ ok (false, some text)
  unfolding check_local is_local_file_outdated compare_digests
  check_local_complete none s text r = let g = r.given in cc
  check_local_complete (some path) s text r =
      let same = sym (some-injective r.given) in
      let there = ap (λ p. F.exists p s) (sym same) ∙ r.exists in
      let read = ap (λ p. F.read_to_string p s) (sym same) ∙ r.read in
      let equal = ap (λ x. bytes_eq x r.expected) r.same ∙ bytes_eq_refl r.expected in
      rw (r.reported, there, read, equal) refl

  -- A local file that has the hash that the metadata reports is reused: its bytes are returned, and
  -- neither the repository's target is read nor the file system changed.
  pub fetch_target_or_reuse_local_cache-reuses :
      (local_file : Option String) (s : S) (text : String)
      → IsReused local_file s text
      → fetch_target_or_reuse_local_cache L F repository target_name local_file s
        ≡ (some (ok (as_bytes text)), s)
  unfolding fetch_target_or_reuse_local_cache use_local
  fetch_target_or_reuse_local_cache-reuses local_file s text r =
      rw (check_local_complete local_file s text r) refl
