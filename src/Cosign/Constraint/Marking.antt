-- ===== src/Cosign/Constraint/Marking.antt =====
-- What the annotation marker leaves in a layer.
use sigstore_rs.Prelude.{
  String, Bool, true, false, ◌==◌, eq_iff, eq_refl, ◌≡◌, refl, sym, subst, ap, ◌∙◌, ◌⊎◌, inl, inr,
  Option, none, some, ok, [], ◌∷◌, Memᴰ, Bool-cases, some-injective, not-eq-false, if◌then◌else◌,
}
use mathlib.Core.List.Memᴰ
use sigstore_rs.HashMap
use sigstore_rs.HashMap.{HashMap, get-insert}
use sigstore_rs.Errors.{Outcome}
use sigstore_rs.Crypto.Libs.{Libs}
use sigstore_rs.Cosign.Payload.{Value, null, bool, number, string, array, object, Optional}
use sigstore_rs.Cosign.Payload.Annotations.{satisfies_annotations_iff}
use sigstore_rs.Cosign.SignatureLayer.{SignatureLayer}
use sigstore_rs.Cosign.VerificationConstraint.{verify_annotations}
use sigstore_rs.Cosign.Constraint.{
  AnnotationMarker, add_annotations, mark, set_annotations, conflicts, value_is, extra_of,
  or_default,
}

value_is_sound : (text : String) (v : Value) → value_is text v ≡ true → v ≡ string text
unfolding value_is
value_is_sound text (string s) h = ap string ((eq_iff s text).0 h)
value_is_sound text null h = cc
value_is_sound text (bool b) h = cc
value_is_sound text (number n) h = cc
value_is_sound text (array a) h = cc
value_is_sound text (object o) h = cc

-- without a conflict, the annotation that stands there is the marker's
no_conflict :
    (extra : HashMap Value) (k text : String) (v : Value)
    → conflicts extra k text ≡ false
    → HashMap.get k extra ≡ some v
    → v ≡ string text
unfolding conflicts
no_conflict extra k text v h e = value_is_sound text v (not-eq-false _ (rw (conflicts, e) at h))

mark-step :
    (extra : HashMap Value) (k text : String) (rest : HashMap String) (marked : HashMap Value)
    → mark extra ((k, text) ∷ rest) ≡ some marked
    → (conflicts extra k text ≡ false)
      × (mark (HashMap.insert k (string text) extra) rest ≡ some marked)
unfolding mark
mark-step extra k text rest marked h = elim (Bool-cases (conflicts extra k text)) [
  | inl e ↦ let g = rw e at h in cc
  | inr e ↦ (e, rw e at h)
]

get-insert-same :
    (k : String) (v : Value) (m : HashMap Value) → HashMap.get k (HashMap.insert k v m) ≡ some v
get-insert-same k v m =
    get-insert k k v m ∙ ap (λ b. if b then some v else HashMap.get k m) (eq_refl k)

get-insert-keeps :
    (extra : HashMap Value) (k j text : String) (v : Value)
    → conflicts extra k text ≡ false
    → HashMap.get j extra ≡ some v
    → HashMap.get j (HashMap.insert k (string text) extra) ≡ some v
get-insert-keeps extra k j text v free e = elim (Bool-cases (k == j)) [
  | inl same ↦
      let q = (eq_iff k j).0 same in
      get-insert k j (string text) extra
      ∙ ap (λ b. if b then some (string text) else HashMap.get j extra) same
      ∙ ap some (sym (no_conflict extra k text v free (ap (λ x. HashMap.get x extra) q ∙ e)))
  | inr other ↦
      get-insert k j (string text) extra
      ∙ ap (λ b. if b then some (string text) else HashMap.get j extra) other
      ∙ e
]

mark-keeps :
    (extra : HashMap Value) (annotations : HashMap String) (marked : HashMap Value) (j : String)
    (v : Value)
    → mark extra annotations ≡ some marked
    → HashMap.get j extra ≡ some v
    → HashMap.get j marked ≡ some v
unfolding mark
mark-keeps extra [] marked j v h e = ap (λ m. HashMap.get j m) (sym (some-injective h)) ∙ e
mark-keeps extra ((k, text) ∷ rest) marked j v h e =
    let (free, later) = mark-step extra k text rest marked h in
    mark-keeps (HashMap.insert k (string text) extra) rest marked j v later
      (get-insert-keeps extra k j text v free e)

mark-adds :
    (extra : HashMap Value) (annotations : HashMap String) (marked : HashMap Value)
    (k text : String)
    → mark extra annotations ≡ some marked
    → Memᴰ (k, text) annotations
    → HashMap.get k marked ≡ some (string text)
mark-adds extra [] marked k text h m = elim m [ ]
mark-adds extra ((j, t) ∷ rest) marked k text h m =
    let (free, later) = mark-step extra j t rest marked h in
    elim (Memᴰ.cases_cons m) [
      | inl e ↦
          subst (λ (x : String × String). HashMap.get x.0 marked ≡ some (string x.1)) (sym e)
            (mark-keeps (HashMap.insert j (string t) extra) rest marked j (string t) later
              (get-insert-same j (string t) extra))
      | inr n ↦ mark-adds (HashMap.insert j (string t) extra) rest marked k text later n
    ]

-- an annotation of the result was there before, or is the marker's
mark-only :
    (extra : HashMap Value) (annotations : HashMap String) (marked : HashMap Value) (j : String)
    (v : Value)
    → mark extra annotations ≡ some marked
    → HashMap.get j marked ≡ some v
    → (HashMap.get j extra ≡ some v)
      ⊎ ((text : String) × Memᴰ (j, text) annotations × (v ≡ string text))
unfolding mark
mark-only extra [] marked j v h e = inl (ap (λ m. HashMap.get j m) (some-injective h) ∙ e)
mark-only extra ((k, text) ∷ rest) marked j v h e =
    let (free, later) = mark-step extra k text rest marked h in
    elim (mark-only (HashMap.insert k (string text) extra) rest marked j v later e) [
      | inr p ↦ let (t, m, s) = p in inr (t, Memᴰ.tail m, s)
      | inl before ↦ elim (Bool-cases (k == j)) [
        | inl same ↦ inr (
          text,
          Memᴰ.head (ap (λ x. (x, text)) (sym ((eq_iff k j).0 same))),
          some-injective (
              sym before
              ∙ (get-insert k j (string text) extra
                  ∙ ap (λ b. if b then some (string text) else HashMap.get j extra) same)),
        )
        | inr other ↦ inl (
            sym (
              get-insert k j (string text) extra
              ∙ ap (λ b. if b then some (string text) else HashMap.get j extra) other)
            ∙ before)
      ]
    ]

-- the layer after the marker has gone over it
pub record IsMarked (L : Libs) (marker : AnnotationMarker) (before after : SignatureLayer L)
    : Type 0 where
  pub optional : Optional
  pub given : after.simple_signing.optional ≡ some optional
  pub adds :
      (k text : String)
      → Memᴰ (k, text) marker.annotations
      → HashMap.get k optional.extra ≡ some (string text)
  pub keeps :
      (k : String) (v : Value)
      → HashMap.get k (extra_of before.simple_signing.optional) ≡ some v
      → HashMap.get k optional.extra ≡ some v
  pub only :
      (k : String) (v : Value)
      → HashMap.get k optional.extra ≡ some v
      → (HashMap.get k (extra_of before.simple_signing.optional) ≡ some v)
        ⊎ ((text : String) × Memᴰ (k, text) marker.annotations × (v ≡ string text))
  pub critical : after.simple_signing.critical ≡ before.simple_signing.critical
  pub raw_data : after.raw_data ≡ before.raw_data
  pub signature : after.signature ≡ before.signature

module _ (L : Libs) where
  set_annotations-IsMarked :
      (marker : AnnotationMarker) (before after : SignatureLayer L) (m : Option (HashMap Value))
      → mark (extra_of before.simple_signing.optional) marker.annotations ≡ m
      → ◌≡◌ {A = Outcome Bool × SignatureLayer L} (set_annotations L m before) (ok true, after)
      → IsMarked L marker before after
  unfolding set_annotations
  set_annotations-IsMarked marker before after none e h =
      let g = ap (λ (x : Outcome Bool × SignatureLayer L). x.0) h in cc
  set_annotations-IsMarked marker before after (some marked) e h =
      let same = ap (λ (x : Outcome Bool × SignatureLayer L). x.1) h in
      record {
        optional = record (or_default before.simple_signing.optional) { extra = marked };
        given = sym (ap (λ (x : SignatureLayer L). x.simple_signing.optional) same);
        adds = λ k text. mark-adds _ marker.annotations marked k text e;
        keeps = λ k v. mark-keeps _ marker.annotations marked k v e;
        only = λ k v. mark-only _ marker.annotations marked k v e;
        critical = sym (ap (λ (x : SignatureLayer L). x.simple_signing.critical) same);
        raw_data = sym (ap (λ (x : SignatureLayer L). x.raw_data) same);
        signature = sym (ap (λ (x : SignatureLayer L). x.signature) same);
      }

  set_annotations-cases :
      (m : Option (HashMap Value)) (sl : SignatureLayer L)
      → ((set_annotations L m sl).0 ≡ ok true) ⊎ (set_annotations L m sl ≡ (ok false, sl))
  unfolding set_annotations
  set_annotations-cases none sl = inr refl
  set_annotations-cases (some m) sl = inl refl

  -- A marker that was applied has put each of its annotations into the payload and changed no other
  -- annotation that stood there; the critical part, the stored data and the signature are as before.
  pub add_annotations-IsMarked :
      (marker : AnnotationMarker) (before after : SignatureLayer L)
      → add_annotations L marker before ≡ (ok true, after)
      → IsMarked L marker before after
  unfolding add_annotations
  add_annotations-IsMarked marker before after h =
      set_annotations-IsMarked marker before after _ refl h

  -- A marker that was not applied has changed nothing, and it is never an error.
  pub add_annotations-refused :
      (marker : AnnotationMarker) (sl : SignatureLayer L)
      → ((add_annotations L marker sl).0 ≡ ok true) ⊎ (add_annotations L marker sl ≡ (ok false, sl))
  unfolding add_annotations
  add_annotations-refused marker sl = set_annotations-cases _ sl

  -- The annotation constraint for a marker's annotations holds of every layer that the marker was
  -- applied to.
  pub verify_annotations-add_annotations :
      (marker : AnnotationMarker) (before after : SignatureLayer L)
      → add_annotations L marker before ≡ (ok true, after)
      → verify_annotations L (record { annotations = marker.annotations }) after ≡ ok true
  unfolding verify_annotations
  verify_annotations-add_annotations marker before after h =
      let m = add_annotations-IsMarked marker before after h in
      ap ok (
        (satisfies_annotations_iff after.simple_signing marker.annotations).1 (λ key text listed.
          record {
            optional = m.optional;
            given = m.given;
            value = string text;
            found = m.adds key text listed;
            renders = refl;
          }))
