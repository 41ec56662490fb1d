-- ===== src/Cosign/Client/Fetching.antt =====
-- What the client's reading operations return, whatever the registry answers.
use sigstore_rs.Prelude.{String, ℤ, ◌≡◌, refl, ap, ◌∙◌, ok, err, List, [], ◌∷◌, Memᴰ, ok-injective}
use sigstore_rs.Errors.{Outcome}
use sigstore_rs.Registry.Config.{Auth, to_registry_auth}
use sigstore_rs.Registry.Libs.{
  OciLibs, OciManifest, OciImageManifest, ImageLayer, image, image_index,
}
use sigstore_rs.Registry.OciReference.{OciReference}
use sigstore_rs.Crypto.Libs.{Libs}
use sigstore_rs.Crypto.Pki.{Pki}
use sigstore_rs.Cosign.Constants.{sigstore_oci_media_type}
use sigstore_rs.Cosign.Bundle.{Json}
use sigstore_rs.Cosign.SignatureLayer.{SignatureLayer}
use sigstore_rs.Cosign.SignatureLayer.Building.{IsTrustedIn, build_signature_layers-IsTrustedIn}
use sigstore_rs.Cosign.Client.{
  Client, Action, chain, ◌>>=◌, pure, trusted_signature_layers, fetch_manifest_and_layers,
  layers_of_manifest,
}

module _ {S A B : Type 0} where
  bind-eq-ok :
      (f : A → Action S B) (p : Outcome A × S) (b : B)
      → (chain p f).0 ≡ ok b
      → (a : A) × (p.0 ≡ ok a) × ((f a p.1).0 ≡ ok b)
  bind-eq-ok f (ok a, s) b h = (a, refl, h)
  bind-eq-ok f (err e, s) b h = cc

  -- a successful chain of two calls
  pub >>=-eq-ok :
      (m : Action S A) (f : A → Action S B) (s : S) (b : B)
      → ((m >>= f) s).0 ≡ ok b
      → (a : A) × ((m s).0 ≡ ok a) × ((f a (m s).1).0 ≡ ok b)
  >>=-eq-ok m f s b h = bind-eq-ok f (m s) b h

module _ (O : OciLibs) (L : Libs) (P : Pki L) (J : Json) {S : Type 0} where
  -- what the two calls of the registry answered
  pub record IsFetched (self : Client O L P S) (now : ℤ) (auth : Auth) (digest : String)
      (img : OciReference O) (s : S) (sl : SignatureLayer L) : Type 0 where
    pub manifest : OciImageManifest
    pub manifest_digest : String
    pub pulled :
        (self.registry_client.pull_manifest img.oci_reference (to_registry_auth auth) s).0
        ≡ ok (image manifest, manifest_digest)
    pub layers : List ImageLayer
    pub supplied :
        (self.registry_client.pull img.oci_reference
          (to_registry_auth auth)
          (sigstore_oci_media_type ∷ [])
          (self.registry_client.pull_manifest img.oci_reference (to_registry_auth auth) s).1).0
        ≡ ok layers
    pub trusted :
        IsTrustedIn O L P J now manifest digest layers self.rekor_pub_key self.fulcio_cert_pool sl

  of_manifest :
      (self : Client O L P S) (now : ℤ) (auth : Auth) (digest : String) (img : OciReference O)
      (s : S) (sls : List (SignatureLayer L)) (sl : SignatureLayer L) (layers : List ImageLayer)
      (manifest : OciManifest) (manifest_digest : String)
      → (self.registry_client.pull_manifest img.oci_reference (to_registry_auth auth) s).0
        ≡ ok (manifest, manifest_digest)
      → (self.registry_client.pull img.oci_reference
          (to_registry_auth auth)
          (sigstore_oci_media_type ∷ [])
          (self.registry_client.pull_manifest img.oci_reference (to_registry_auth auth) s).1).0
        ≡ ok layers
      → layers_of_manifest O L P J self now digest img layers manifest ≡ ok sls
      → Memᴰ sl sls
      → IsFetched self now auth digest img s sl
  unfolding layers_of_manifest
  of_manifest self now auth digest img s sls sl layers (image im) d e₁ e₂ h m = record {
    manifest = im;
    manifest_digest = d;
    pulled = e₁;
    layers = layers;
    supplied = e₂;
    trusted =
        build_signature_layers-IsTrustedIn O L P J now im digest layers self.rekor_pub_key
          self.fulcio_cert_pool sls sl h m;
  }
  of_manifest self now auth digest img s sls sl layers image_index d e₁ e₂ h m = cc

  -- Every layer that the client returns as trusted is trusted for a descriptor of the manifest and a
  -- layer that the registry answered, under the client's Rekor key and Fulcio pool.
  pub trusted_signature_layers-IsFetched :
      (self : Client O L P S) (now : ℤ) (auth : Auth) (digest : String) (img : OciReference O)
      (s : S) (sls : List (SignatureLayer L)) (sl : SignatureLayer L)
      → (trusted_signature_layers O L P J self now auth digest img s).0 ≡ ok sls
      → Memᴰ sl sls
      → IsFetched self now auth digest img s sl
  unfolding trusted_signature_layers fetch_manifest_and_layers
  trusted_signature_layers-IsFetched self now auth digest img s sls sl h m =
      let pull_manifest =
        self.registry_client.pull_manifest img.oci_reference (to_registry_auth auth) in
      let pull =
        self.registry_client.pull img.oci_reference (to_registry_auth auth)
          (sigstore_oci_media_type ∷ []) in
      let (fetched, e, b) =
        >>=-eq-ok (fetch_manifest_and_layers O L P J self auth img)
          (λ x. pure (layers_of_manifest O L P J self now digest img x.1 x.0)) s sls h in
      let (pulled, e₁, h₁) =
        >>=-eq-ok pull_manifest (λ x. pull >>= (λ ls. pure (ok (x.0, ls)))) s fetched e in
      let (layers, e₂, h₂) =
        >>=-eq-ok pull (λ ls. pure (ok (pulled.0, ls))) (pull_manifest s).1 fetched h₁ in
      let same = ok-injective h₂ in
      of_manifest self now auth digest img s sls sl layers pulled.0 pulled.1 e₁ e₂
        (ap
            (λ (x : OciManifest × List ImageLayer).
              layers_of_manifest O L P J self now digest img x.1 x.0)
            same
          ∙ b)
        m
