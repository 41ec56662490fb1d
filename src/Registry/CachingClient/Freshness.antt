-- ===== src/Registry/CachingClient/Freshness.antt =====
-- src/registry/oci_caching_client.rs against src/registry/oci_client.rs: in every run of calls, what the
-- caching client answers is what the plain client answered to a call with the same key.
use sigstore_rs.Prelude.{
  ℕ, ◌+◌, ◌<◌, String, ◌≡◌, ◌≢◌, refl, sym, ap, ◌∙◌, arith, inl, inr, Option, none, some, ◌∷◌, Memᴰ,
  ok, err, map_ok-eq-ok, some-injective,
}
use sigstore_rs.Errors.{SigstoreError, Outcome}
use sigstore_rs.Registry.Libs.{OciLibs, RegistryAuth}
use sigstore_rs.Registry.Config.{to_registry_auth, from_registry_auth}
use sigstore_rs.Registry.CachingClient.Attribute.{
  Return, Body, Cached, Holding, IsCached, History, Remembers, call-IsPast,
}
use sigstore_rs.Registry.CachingClient.{lifetime, fresh, unwrapped, value_of, Caches}

pub record CacheLaws {W : Type 0} (C : Caches W) : Type 1 where
  pub digests_hold : Holding C.digests
  pub digests : IsCached C.digests digests_hold
  pub images_hold : Holding C.images
  pub images : IsCached C.images images_hold
  pub manifests_hold : Holding C.manifests
  pub manifests : IsCached C.manifests manifests_hold

-- `whole` prints a reference in full, which parses again
abbrev pub IsParsed : OciLibs → Type 0
IsParsed O = (r : O.Reference) → O.parse (O.whole r) ≡ ok r

-- A call of the history with this key, made less than a lifetime before `now`, that the plain client
-- answered with this value.
pub record IsRecent {Arg W V : Type 0} (plain : Arg → W → Outcome V × W) (key : Arg → String)
    (history : History Arg W) (k : String) (v : V) (now : ℕ) : Type 0 where
  pub arg : Arg
  pub called_at : ℕ
  pub world : W
  pub called : Memᴰ (arg, called_at, world) history
  pub same_key : key arg ≡ k
  pub young : now < called_at + lifetime
  pub answered : (plain arg world).0 ≡ ok v

pub to_registry_auth-from :
    (auth : RegistryAuth) → to_registry_auth (from_registry_auth auth) ≡ auth
unfolding to_registry_auth from_registry_auth
to_registry_auth-from RegistryAuth.anonymous = refl
to_registry_auth-from (RegistryAuth.basic username pass) = refl

pub value_of-eq :
    {V : Type 0} (o : Option (Outcome (Return V))) {v : V}
    → value_of o ≡ some (ok v)
    → (r : Return V) × (o ≡ some (ok r)) × (r.value ≡ v)
value_of-eq none h = cc
value_of-eq (some r) h =
    let (a, e, f) = map_ok-eq-ok (λ x. x.value) r (some-injective h) in (a, ap some e, f)

pub fresh-eq :
    {V W : Type 0} (p : Outcome V × W) {r : Return V} → (fresh p).0 ≡ some (ok r) → p.0 ≡ ok r.value
fresh-eq (ok v, w) h = cc
fresh-eq (err e, w) h = cc

fresh-err :
    {V W : Type 0} (p : Outcome V × W) {e : SigstoreError}
    → value_of (fresh p).0 ≡ some (err e)
    → p.0 ≡ err e
fresh-err (ok v, w) h = cc
fresh-err (err e, w) h = cc

fresh-returns : {V W : Type 0} (p : Outcome V × W) → value_of (fresh p).0 ≢ none
fresh-returns (ok v, w) h = cc
fresh-returns (err e, w) h = cc

pub unwrapped-eq :
    {R V W : Type 0} (f : R → Body W V) (r : R) {o : _}
    → o ≡ ok r
    → (w : W) → unwrapped o f w ≡ f r w
unwrapped-eq f r h w = rw h refl

module _ {Arg W V : Type 0} (C : Cached W V) (Holds : Holding C) (laws : IsCached C Holds)
    (plain : Arg → W → Outcome V × W) (key : Arg → String) (body : Arg → Body W V)
    (agrees : (arg : Arg) (w : W) → body arg w ≡ fresh (plain arg w)) where
  pub call-IsRecent :
      (arg : Arg) (now : ℕ) (store : C.Store) (world : W) (history : History Arg W) (v : V)
      → Remembers C Holds lifetime key body store history
      → value_of (C.call lifetime (key arg) now (body arg) store world).outcome ≡ some (ok v)
      → IsRecent plain key ((arg, now, world) ∷ history) (key arg) v now
  call-IsRecent arg now store world history v h e =
      let (r, called, same) = value_of-eq _ e in
      let (t, young, past) =
        call-IsPast C Holds lifetime key body laws arg now store world history h (omega arith) r
          called in
      record {
        arg = past.arg;
        called_at = t;
        world = past.world;
        called = past.called;
        same_key = past.same_key;
        young = young;
        answered =
            fresh-eq (plain past.arg past.world)
              (ap (λ p. p.0) (sym (agrees past.arg past.world)) ∙ past.answered)
            ∙ ap ok (past.same_value ∙ same);
      }

  -- an error is the body's own, and a call panics only where its body does
  pub call-err :
      (arg : Arg) (now : ℕ) (store : C.Store) (world : W) (e : SigstoreError)
      → value_of (C.call lifetime (key arg) now (body arg) store world).outcome ≡ some (err e)
      → (plain arg world).0 ≡ err e
  call-err arg now store world e h =
      elim (laws.called lifetime (key arg) now (body arg) store world) [
        | inl q ↦ let g = rw q.outcome at h in cc
        | inr q ↦
            fresh-err (plain arg world)
              (ap value_of (ap (λ p. p.0) (sym (agrees arg world)) ∙ sym q.outcome) ∙ h)
      ]

  pub call-returns :
      (arg : Arg) (now : ℕ) (store : C.Store) (world : W)
      → value_of (C.call lifetime (key arg) now (body arg) store world).outcome ≢ none
  call-returns arg now store world h =
      elim (laws.called lifetime (key arg) now (body arg) store world) [
        | inl q ↦ let g = rw q.outcome at h in cc
        | inr q ↦
            fresh-returns (plain arg world)
              (ap value_of (ap (λ p. p.0) (sym (agrees arg world)) ∙ sym q.outcome) ∙ h)
      ]
