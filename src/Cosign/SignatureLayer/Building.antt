-- ===== src/Cosign/SignatureLayer/Building.antt =====
-- The layers that `build_signature_layers` returns, and when it returns an error.
use sigstore_rs.Prelude.{
  nonempty-eq-ok, nonempty-eq-err, Memᴰ-++-left, Memᴰ-++-right, Memᴰ-++-split, Memᴰ-only, String, ℤ,
  ◌≡◌, refl, sym, Option, some, ok, err, List, [], ◌∷◌, Memᴰ, ◌==◌, ◌↔◌, inl, inr, find, find_sound,
  Option-cases, Result-cases, subst,
}
use sigstore_rs.Errors.{SigstoreError, sigstore_no_verified_layer}
use sigstore_rs.Registry.Libs.{OciLibs, OciDescriptor, OciImageManifest, ImageLayer}
use sigstore_rs.Crypto.Libs.{Libs}
use sigstore_rs.Crypto.Pki.{Pki}
use sigstore_rs.Crypto.VerificationKey.{CosignVerificationKey}
use sigstore_rs.Crypto.CertificatePool.{CertificatePool}
use sigstore_rs.Cosign.Bundle.{Json}
use sigstore_rs.Cosign.SignatureLayer.{
  SignatureLayer, new, layer_of, collect_layers, build_signature_layers,
}
use sigstore_rs.Cosign.SignatureLayer.Trusted.{IsTrustedLayer, new-IsTrustedLayer}

module _ (O : OciLibs) (L : Libs) (P : Pki L) (J : Json) (now : ℤ) where
  -- a descriptor of the manifest, the first of the layers that has its digest, and what the
  -- constructor makes of the two
  pub record IsBuilt (descriptors : List OciDescriptor) (digest : String) (layers : List ImageLayer)
      (key : Option (CosignVerificationKey L)) (pool : Option (CertificatePool L P))
      (sl : SignatureLayer L) : Type 0 where
    pub descriptor : OciDescriptor
    pub listed : Memᴰ descriptor descriptors
    pub layer : ImageLayer
    pub found : find (λ l. O.sha256_digest l == descriptor.digest) layers ≡ some layer
    pub made : new O L P J now descriptor layer digest key pool ≡ ok sl

  pub record IsTrustedIn (manifest : OciImageManifest) (digest : String) (layers : List ImageLayer)
      (key : Option (CosignVerificationKey L)) (pool : Option (CertificatePool L P))
      (sl : SignatureLayer L) : Type 0 where
    pub descriptor : OciDescriptor
    pub listed : Memᴰ descriptor manifest.layers
    pub layer : ImageLayer
    pub supplied : Memᴰ layer layers
    pub trusted : IsTrustedLayer O L P J now descriptor layer digest key pool sl

  module _ (digest : String) (layers : List ImageLayer) (key : Option (CosignVerificationKey L))
      (pool : Option (CertificatePool L P)) where
    layer_of_sound :
        (m : OciDescriptor) (sl : SignatureLayer L)
        → Memᴰ sl (layer_of O L P J now digest layers key pool m)
        → IsBuilt (m ∷ []) digest layers key pool sl
    unfolding layer_of
    layer_of_sound m sl mem =
        elim (Option-cases (find (λ l. O.sha256_digest l == m.digest) layers)) [
          | inl e ↦ elim (rw (layer_of, e) at mem) [ ]
          | inr (layer, e) ↦ elim (Result-cases (new O L P J now m layer digest key pool)) [
            | inl (made, n) ↦ record {
              descriptor = m;
              listed = Memᴰ.head refl;
              layer = layer;
              found = e;
              made = rw (Memᴰ-only (rw (layer_of, e, n) at mem)) n;
            }
            | inr (error, n) ↦ elim (rw (layer_of, e, n) at mem) [ ]
          ]
        ]

    collect_layers_sound :
        (ms : List OciDescriptor) (sl : SignatureLayer L)
        → Memᴰ sl (collect_layers O L P J now ms digest layers key pool)
        → IsBuilt ms digest layers key pool sl
    unfolding collect_layers
    collect_layers_sound [] sl mem = elim mem [ ]
    collect_layers_sound (m ∷ ms) sl mem =
        elim (Memᴰ-++-split (layer_of O L P J now digest layers key pool m) _ mem) [
          | inl n ↦
              let b = layer_of_sound m sl n in
              record {
                descriptor = b.descriptor;
                listed = Memᴰ.head (Memᴰ-only b.listed);
                layer = b.layer;
                found = b.found;
                made = b.made;
              }
          | inr n ↦
              let b = collect_layers_sound ms sl n in
              record {
                descriptor = b.descriptor;
                listed = Memᴰ.tail b.listed;
                layer = b.layer;
                found = b.found;
                made = b.made;
              }
        ]

    layer_of_complete :
        (m : OciDescriptor) (layer : ImageLayer) (sl : SignatureLayer L)
        → find (λ l. O.sha256_digest l == m.digest) layers ≡ some layer
        → new O L P J now m layer digest key pool ≡ ok sl
        → Memᴰ sl (layer_of O L P J now digest layers key pool m)
    unfolding layer_of
    layer_of_complete m layer sl e n = rw (layer_of, e, n) (Memᴰ.head refl)

    collect_layers_complete :
        (ms : List OciDescriptor) (m : OciDescriptor) (layer : ImageLayer) (sl : SignatureLayer L)
        → Memᴰ m ms
        → find (λ l. O.sha256_digest l == m.digest) layers ≡ some layer
        → new O L P J now m layer digest key pool ≡ ok sl
        → Memᴰ sl (collect_layers O L P J now ms digest layers key pool)
    unfolding collect_layers
    collect_layers_complete [] m layer sl mem e n = elim mem [ ]
    collect_layers_complete (m' ∷ ms) m layer sl (Memᴰ.head q) e n =
        Memᴰ-++-left (layer_of O L P J now digest layers key pool m') _ (
          subst (λ d. Memᴰ sl (layer_of O L P J now digest layers key pool d)) q
            (layer_of_complete m layer sl e n))
    collect_layers_complete (m' ∷ ms) m layer sl (Memᴰ.tail mem) e n =
        Memᴰ-++-right (layer_of O L P J now digest layers key pool m') _
          (collect_layers_complete ms m layer sl mem e n)

  -- The layers returned are exactly those that the constructor makes from a descriptor of the
  -- manifest and the first supplied layer with its digest.
  pub build_signature_layers-Memᴰ_iff :
      (manifest : OciImageManifest) (digest : String) (layers : List ImageLayer)
      (key : Option (CosignVerificationKey L)) (pool : Option (CertificatePool L P))
      (sls : List (SignatureLayer L)) (sl : SignatureLayer L)
      → build_signature_layers O L P J now manifest digest layers key pool ≡ ok sls
      → Memᴰ sl sls ↔ IsBuilt manifest.layers digest layers key pool sl
  unfolding build_signature_layers
  build_signature_layers-Memᴰ_iff manifest digest layers key pool sls sl h =
      let same =
        nonempty-eq-ok sigstore_no_verified_layer
          (collect_layers O L P J now manifest.layers digest layers key pool) h in
      (
        λ mem.
            collect_layers_sound digest layers key pool manifest.layers sl
              (subst (λ xs. Memᴰ sl xs) (sym same) mem),
        λ b.
            subst (λ xs. Memᴰ sl xs) same
              (collect_layers_complete digest layers key pool manifest.layers b.descriptor b.layer
                sl b.listed b.found b.made),
      )

  -- Every layer returned is trusted for a descriptor of the manifest and a supplied layer: both media
  -- types, the digest, the payload, the image digest and the signature annotation, and, where present,
  -- the verified bundle and the trusted certificate identity.
  pub build_signature_layers-IsTrustedIn :
      (manifest : OciImageManifest) (digest : String) (layers : List ImageLayer)
      (key : Option (CosignVerificationKey L)) (pool : Option (CertificatePool L P))
      (sls : List (SignatureLayer L)) (sl : SignatureLayer L)
      → build_signature_layers O L P J now manifest digest layers key pool ≡ ok sls
      → Memᴰ sl sls
      → IsTrustedIn manifest digest layers key pool sl
  build_signature_layers-IsTrustedIn manifest digest layers key pool sls sl h mem =
      let b = (build_signature_layers-Memᴰ_iff manifest digest layers key pool sls sl h).0 mem in
      record {
        descriptor = b.descriptor;
        listed = b.listed;
        layer = b.layer;
        supplied = (find_sound _ layers b.layer b.found).0;
        trusted = new-IsTrustedLayer O L P J now b.descriptor b.layer digest key pool sl b.made;
      }

  -- An error means that the constructor makes no layer from the manifest, and it is the one that
  -- says so.
  pub build_signature_layers-eq-err :
      (manifest : OciImageManifest) (digest : String) (layers : List ImageLayer)
      (key : Option (CosignVerificationKey L)) (pool : Option (CertificatePool L P))
      (e : SigstoreError)
      → build_signature_layers O L P J now manifest digest layers key pool ≡ err e
      → (e ≡ sigstore_no_verified_layer)
        × ((sl : SignatureLayer L) → ¬ IsBuilt manifest.layers digest layers key pool sl)
  unfolding build_signature_layers
  build_signature_layers-eq-err manifest digest layers key pool e h =
      let (same, none_made) =
        nonempty-eq-err sigstore_no_verified_layer
          (collect_layers O L P J now manifest.layers digest layers key pool) h in
      (
        same,
        λ sl b.
            elim (subst (λ xs. Memᴰ sl xs) none_made
              (collect_layers_complete digest layers key pool manifest.layers b.descriptor b.layer
                sl b.listed b.found b.made)) [ ],
      )
