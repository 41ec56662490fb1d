-- ===== src/Cosign/Payload/Annotations.antt =====
-- What `satisfies_annotations` asks of a payload.
use sigstore_rs.Prelude.{
  String, Bool, true, false, ◌&&◌, eq_iff, ◌≡◌, refl, sym, subst, ap, ◌∙◌, ◌↔◌, some, [], ◌∷◌, Memᴰ,
  inl, inr, Option-cases, some-injective, is_empty, if◌then◌else◌,
}
use mathlib.Core.List.Memᴰ
use sigstore_rs.HashMap
use sigstore_rs.HashMap.{HashMap}
use sigstore_rs.Cosign.Payload.{
  Value, null, bool, number, string, array, object, Optional, SimpleSigning, value_matches,
  annotation_matches, all_match, optional_satisfies_annotations, satisfies_annotations,
}

-- the scalar that stands in an annotation, as the text that it is compared with
abbrev pub Renders : Value → String → Type 0
Renders (string s) text = text ≡ s
Renders (number n) text = text ≡ n
Renders (bool true) text = text ≡ "true"
Renders (bool false) text = text ≡ "false"
Renders _ text = ⊥

-- the payload has an annotation of that name which renders to the text
pub record HasAnnotation (s : SimpleSigning) (key text : String) : Type 0 where
  pub optional : Optional
  pub given : s.optional ≡ some optional
  pub value : Value
  pub found : HashMap.get key optional.extra ≡ some value
  pub renders : Renders value text

value_matches_iff : (text : String) (v : Value) → (value_matches text v ≡ true) ↔ Renders v text
unfolding value_matches
value_matches_iff text null = (λ h. cc, λ h. elim h [ ])
value_matches_iff text (bool true) = eq_iff text "true"
value_matches_iff text (bool false) = eq_iff text "false"
value_matches_iff text (number n) = eq_iff text n
value_matches_iff text (string s) = eq_iff text s
value_matches_iff text (array a) = (λ h. cc, λ h. elim h [ ])
value_matches_iff text (object o) = (λ h. cc, λ h. elim h [ ])

abbrev Matching : HashMap Value → String → String → Type 0
Matching extra key text = (v : Value) × (HashMap.get key extra ≡ some v) × Renders v text

annotation_matches_iff :
    (extra : HashMap Value) (key text : String)
    → (annotation_matches extra key text ≡ true) ↔ Matching extra key text
unfolding annotation_matches
annotation_matches_iff extra key text = elim (Option-cases (HashMap.get key extra)) [
  | inl e ↦ (
    λ h. let g = rw (annotation_matches, e) at h in cc,
    λ m. let (v, f, r) = m in let g = sym e ∙ f in cc,
  )
  | inr (v, e) ↦ (
    λ h. (v, e, (value_matches_iff text v).0 (rw (annotation_matches, e) at h)),
    λ m. let (w, f, r) = m in rw (annotation_matches, f) ((value_matches_iff text w).1 r),
  )
]

both_iff : (a b : Bool) → (a && b ≡ true) ↔ ((a ≡ true) × (b ≡ true))
both_iff true b = (λ h. (refl, h), λ p. p.1)
both_iff false b = (λ h. cc, λ p. p.0)

all_match_iff :
    (extra : HashMap Value) (annotations : HashMap String)
    → (all_match extra annotations ≡ true)
      ↔ ((key text : String) → Memᴰ (key, text) annotations → Matching extra key text)
unfolding all_match
all_match_iff extra [] = (λ h key text m. elim m [ ], λ h. refl)
all_match_iff extra ((k, t) ∷ rest) = (
  λ h key text m.
      let (a, b) = (both_iff (annotation_matches extra k t) _).0 h in
      elim (Memᴰ.cases_cons m) [
        | inl e ↦
            subst (λ (x : String × String). Matching extra x.0 x.1) (sym e)
              ((annotation_matches_iff extra k t).0 a)
        | inr later ↦ (all_match_iff extra rest).0 b key text later
      ],
  λ all. (both_iff (annotation_matches extra k t) (all_match extra rest)).1 (
    (annotation_matches_iff extra k t).1 (all k t (Memᴰ.head refl)),
    (all_match_iff extra rest).1 (λ key text m. all key text (Memᴰ.tail m)),
  ),
)

nonempty :
    (extra : HashMap Value) (b : Bool)
    → (if is_empty extra then false else b) ≡ true
    → (b ≡ true) × (is_empty extra ≡ false)
nonempty [] b h = cc
nonempty (x ∷ extra) b h = (h, refl)

nonempty_of_get :
    (extra : HashMap Value) (key : String) (v : Value) {b : Bool}
    → HashMap.get key extra ≡ some v
    → b ≡ true
    → (if is_empty extra then false else b) ≡ true
unfolding HashMap.get
nonempty_of_get [] key v f h = cc
nonempty_of_get (x ∷ extra) key v f h = h

-- the extra annotations of a payload that requires at least one are not empty
optional_iff :
    (opt : Optional) (a : String × String) (annotations : HashMap String)
    → (optional_satisfies_annotations opt (a ∷ annotations) ≡ true)
      ↔ ((key text : String) → Memᴰ (key, text) (a ∷ annotations) → Matching opt.extra key text)
unfolding optional_satisfies_annotations
optional_iff opt a annotations = (
  λ h. (all_match_iff opt.extra (a ∷ annotations)).0 (nonempty opt.extra _ h).0,
  λ all.
      let (v, f, r) = all a.0 a.1 (Memᴰ.head refl) in
      (nonempty_of_get opt.extra a.0 v f ((all_match_iff opt.extra (a ∷ annotations)).1 all)),
)

-- A payload satisfies the required annotations exactly when it has every one of them: an annotation of
-- that name whose value is a string, a number or a Boolean that renders to the required text.
pub satisfies_annotations_iff :
    (s : SimpleSigning) (annotations : HashMap String)
    → (satisfies_annotations s annotations ≡ true)
      ↔ ((key text : String) → Memᴰ (key, text) annotations → HasAnnotation s key text)
unfolding satisfies_annotations
satisfies_annotations_iff s [] = (λ h key text m. elim m [ ], λ h. refl)
satisfies_annotations_iff s (a ∷ annotations) = elim (Option-cases s.optional) [
  | inl e ↦ (
    λ h. let g = rw e at h in cc,
    λ all. let x = all a.0 a.1 (Memᴰ.head refl) in let g = sym e ∙ x.given in cc,
  )
  | inr (opt, e) ↦ (
    λ h key text m.
        let (v, f, r) = (optional_iff opt a annotations).0 (rw e at h) key text m in
        record { optional = opt; given = e; value = v; found = f; renders = r },
    λ all. rw e (
        (optional_iff opt a annotations).1 (λ key text m.
          let x = all key text m in
          let same = some-injective (sym x.given ∙ e) in
          (
            x.value,
            ap (λ (o : Optional). HashMap.get key o.extra) (sym same) ∙ x.found,
            x.renders,
          ))),
  )
]
