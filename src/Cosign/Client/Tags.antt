-- ===== src/Cosign/Client/Tags.antt =====
-- src/cosign/client.rs: the reference that `triangulate` returns, its tag given by code points.
use Prim.Native.String as Text
use text.Mathlib.TextEquality.{Char-path}
use text.Mathlib.TextLemmas.{nil-append, cons-append, append-nil}
use sigstore_rs.Prelude.{
  ℕ, String, code, eqb, ◌≡◌, refl, sym, ap, ◌∙◌, ok, List, [], ◌∷◌, ◌++◌, map, ◌↔◌, ok-injective,
  concat, if◌then◌else◌, inl, inr, Bool-cases,
}
use sigstore_rs.Registry.Config.{Auth, to_registry_auth}
use sigstore_rs.Registry.Libs.{OciLibs}
use sigstore_rs.Registry.OciReference
use sigstore_rs.Registry.OciReference.{OciReference}
use sigstore_rs.Crypto.Libs.{Libs}
use sigstore_rs.Crypto.Pki.{Pki}
use sigstore_rs.Cosign.Bundle.{Json}
use sigstore_rs.Cosign.Client.{Client, pure, replace_colons, triangulate}
use sigstore_rs.Cosign.Client.Fetching.{>>=-eq-ok}

-- the code points of a text
abbrev pub codes : String → List ℕ
codes String.[] = []
codes (String.◌∷◌ c s) = code c ∷ codes s

-- a colon becomes a dash, any other code point stays
abbrev pub dash_for_colon : ℕ → ℕ
dash_for_colon c = if eqb c b':' then b'-' else c

-- the code points of the digest, dashes for its colons, and `.sig` after them
abbrev pub IsTagOf : String → String → Type 0
IsTagOf digest tag = codes tag ≡ map dash_for_colon (codes digest) ++ codes ".sig"

head_eq : {x y : ℕ} {xs ys : List ℕ} → x ∷ xs ≡ y ∷ ys → x ≡ y
head_eq h = cc

tail_eq : {x y : ℕ} {xs ys : List ℕ} → x ∷ xs ≡ y ∷ ys → xs ≡ ys
tail_eq h = cc

codes_injective : (s t : String) → codes s ≡ codes t → s ≡ t
codes_injective String.[] String.[] h = refl
codes_injective String.[] (String.◌∷◌ d t) h = cc
codes_injective (String.◌∷◌ c s) String.[] h = cc
codes_injective (String.◌∷◌ c s) (String.◌∷◌ d t) h =
    let same_char = Char-path c d (head_eq h) in
    let same_rest = codes_injective s t (tail_eq h) in cc

codes-append : (s t : String) → codes (Text.◌++◌ s t) ≡ codes s ++ codes t
codes-append String.[] t = ap codes (nil-append t)
codes-append (String.◌∷◌ c s) t =
    ap codes (cons-append c s t) ∙ ap (λ cs. code c ∷ cs) (codes-append s t)

codes-replace_colons : (s : String) → codes (replace_colons s) ≡ map dash_for_colon (codes s)
unfolding replace_colons concat
codes-replace_colons String.[] = refl
codes-replace_colons (String.◌∷◌ c s) = elim (Bool-cases (eqb (code c) b':')) [
  | inl e ↦ rw (e) (
      codes-append "-" (Text.◌++◌ (replace_colons s) "")
      ∙ ap (λ cs. b'-' ∷ cs) (ap codes (append-nil (replace_colons s)) ∙ codes-replace_colons s))
  | inr e ↦ rw (e) (ap (λ cs. code c ∷ cs) (codes-replace_colons s))
]

replace_colons-IsTagOf :
    (digest : String) → IsTagOf digest (concat (replace_colons digest ∷ ".sig" ∷ []))
unfolding concat
replace_colons-IsTagOf digest =
    ap (λ x. codes (Text.◌++◌ (replace_colons digest) x)) (append-nil ".sig")
    ∙ codes-append (replace_colons digest) ".sig"
    ∙ ap (λ cs. cs ++ codes ".sig") (codes-replace_colons digest)

module _ (O : OciLibs) (L : Libs) (P : Pki L) (J : Json) {S : Type 0} where
  -- Triangulation succeeds exactly where the registry answers the image's manifest digest; it returns
  -- that digest and the reference, in the image's registry and repository, of the tag whose code
  -- points are those of the digest, a dash for each colon, followed by `.sig`.
  pub triangulate_iff :
      (self : Client O L P S) (img : OciReference O) (auth : Auth) (s : S) (source : OciReference O)
      (digest : String)
      → ((triangulate O L P J self img auth s).0 ≡ ok (source, digest)) ↔ (
          ((self.registry_client.fetch_manifest_digest img.oci_reference
              (to_registry_auth auth)
              s).0
            ≡ ok digest)
          × ((tag : String) × IsTagOf digest tag
              × (source
                  ≡ OciReference.with_tag O
                      (OciReference.registry O img)
                      (OciReference.repository O img)
                      tag)))
  unfolding triangulate
  triangulate_iff self img auth s source digest =
      let fetch =
        self.registry_client.fetch_manifest_digest img.oci_reference (to_registry_auth auth) in
      let tag = λ (d : String). concat (replace_colons d ∷ ".sig" ∷ []) in
      let tagged = λ (t : String).
        OciReference.with_tag O (OciReference.registry O img) (OciReference.repository O img) t in
      (
        λ h.
            let (d, e, f) =
              >>=-eq-ok fetch (λ x. pure (ok (tagged (tag x), x))) s (source, digest) h in
            let same = ok-injective f in
            let same_digest : d ≡ digest = ap (λ (x : OciReference O × String). x.1) same in
            (
              e ∙ ap ok same_digest,
              (
                tag digest,
                replace_colons-IsTagOf digest,
                sym (ap (λ (x : OciReference O × String). x.0) same)
                    ∙ ap (λ x. tagged (tag x)) same_digest,
              ),
            ),
        λ p.
            let (answered, (t, is_tag, e)) = p in
            let same_tag =
              codes_injective t (tag digest) (is_tag ∙ sym (replace_colons-IsTagOf digest)) in
            rw (answered, e, same_tag) refl,
      )
