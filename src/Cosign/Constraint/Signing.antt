-- ===== src/Cosign/Constraint/Signing.antt =====
-- src/cosign/constraint/signature.rs: what the private key signer leaves in a layer, and
-- constraints applied one after the other.
use sigstore_rs.Prelude.{
  String, Bytes, Bool, true, false, ◌≡◌, refl, subst, ap, ◌∙◌, ◌⊎◌, inl, inr, ◌↔◌, Option, none,
  some, ok, err, Result, List, [], ◌∷◌, as_bytes, if◌then◌else◌, empty-eq-ok,
}
use sigstore_rs.Errors.{Outcome, Foreign}
use sigstore_rs.Crypto.Libs.{Libs}
use sigstore_rs.Crypto.VerificationKey.{CosignVerificationKey}
use sigstore_rs.Crypto.VerificationKey.Accepts.{Accepts}
use sigstore_rs.Cosign.Bundle.{Json}
use sigstore_rs.Cosign.Payload
use sigstore_rs.Cosign.SignatureLayer.{SignatureLayer}
use sigstore_rs.Cosign.VerificationConstraint.{
  verify_annotations, verify_public_key, verify_constraints,
}
use sigstore_rs.Cosign.VerificationConstraint.Identity.{verify_public_key_iff}
use sigstore_rs.Cosign.VerificationConstraint.Checking.{verify_constraints-two}
use sigstore_rs.Cosign.Constraint.{
  AnnotationMarker, Constraint, Signer, PrivateKeySigner, add_annotations, add_signature,
  sign_payload, sign_unsigned, attach, apply_all, apply_constraints, unapplied,
}
use sigstore_rs.Cosign.Constraint.Marking.{verify_annotations-add_annotations}

-- the key accepts what the signer signs
abbrev pub IsKeyPair : (L : Libs) → Signer → CosignVerificationKey L → Type 0
IsKeyPair L signer key = (msg sig : Bytes) → signer.sign msg ≡ ok sig → Accepts L key sig msg

-- decoding undoes encoding
abbrev pub IsBase64 : Libs → Type 0
IsBase64 L = (bytes : Bytes) → L.base64_decode (as_bytes (L.base64_encode bytes)) ≡ ok bytes

-- the layer was not signed before; its data is its payload, and that is what was signed
pub record HasBeenSigned (L : Libs) (J : Json) (signer : PrivateKeySigner)
    (before after : SignatureLayer L) : Type 0 where
  pub unsigned : before.signature ≡ none
  pub payload : J.simple_signing_to_vec after.simple_signing ≡ ok after.raw_data
  pub sig : Bytes
  pub signed : signer.key.sign after.raw_data ≡ ok sig
  pub signature : after.signature ≡ some (L.base64_encode sig)
  pub simple_signing : after.simple_signing ≡ before.simple_signing

module _ (L : Libs) (J : Json) (signer : PrivateKeySigner) where
  abbrev OutcomeOf : Type 0
  OutcomeOf = Outcome Bool × SignatureLayer L

  attach-signed :
      (before sl after : SignatureLayer L)
      → before.signature ≡ none
      → J.simple_signing_to_vec sl.simple_signing ≡ ok sl.raw_data
      → sl.simple_signing ≡ before.simple_signing
      → (r : Outcome Bytes) → signer.key.sign sl.raw_data ≡ r
      → ◌≡◌ {A = OutcomeOf} (attach L r sl) (ok true, after)
      → HasBeenSigned L J signer before after
  unfolding attach
  attach-signed before sl after u p s (ok sig) e h =
      let same = ap (λ (x : OutcomeOf). x.1) h in
      subst (λ (x : SignatureLayer L). HasBeenSigned L J signer before x) same
        (record {
          unsigned = u;
          payload = p;
          sig = sig;
          signed = e;
          signature = refl;
          simple_signing = s;
        })
  attach-signed before sl after u p s (err x) e h = let g = ap (λ (x : OutcomeOf). x.0) h in cc

  sign_payload-signed :
      (before after : SignatureLayer L)
      → before.signature ≡ none
      → (r : Foreign Bytes) → J.simple_signing_to_vec before.simple_signing ≡ r
      → ◌≡◌ {A = OutcomeOf} (sign_payload L signer r before) (ok true, after)
      → HasBeenSigned L J signer before after
  unfolding sign_payload
  sign_payload-signed before after u (ok payload) e h =
      attach-signed before (record before { raw_data = payload }) after u e refl _ refl h
  sign_payload-signed before after u (err x) e h = let g = ap (λ (x : OutcomeOf). x.0) h in cc

  sign_unsigned-signed :
      (before after : SignatureLayer L) (found : Option String)
      → before.signature ≡ found
      → ◌≡◌ {A = OutcomeOf} (sign_unsigned L J signer found before) (ok true, after)
      → HasBeenSigned L J signer before after
  unfolding sign_unsigned
  sign_unsigned-signed before after none e h = sign_payload-signed before after e _ refl h
  sign_unsigned-signed before after (some s) e h = let g = ap (λ (x : OutcomeOf). x.0) h in cc

  -- A signer that was applied has signed the serialised payload of a layer without a signature, and
  -- stored that payload and the encoded signature in it.
  pub add_signature-HasBeenSigned :
      (before after : SignatureLayer L)
      → add_signature L J signer before ≡ (ok true, after)
      → HasBeenSigned L J signer before after
  unfolding add_signature
  add_signature-HasBeenSigned before after h = sign_unsigned-signed before after _ refl h

  attach-unsigned :
      (r : Outcome Bytes) (sl : SignatureLayer L)
      → ((attach L r sl).0 ≡ ok true) ⊎ ((attach L r sl).1.signature ≡ sl.signature)
  unfolding attach
  attach-unsigned (ok sig) sl = inl refl
  attach-unsigned (err e) sl = inr refl

  sign_payload-unsigned :
      (r : Foreign Bytes) (sl : SignatureLayer L)
      → ((sign_payload L signer r sl).0 ≡ ok true)
        ⊎ ((sign_payload L signer r sl).1.signature ≡ sl.signature)
  unfolding sign_payload
  sign_payload-unsigned (ok payload) sl = attach-unsigned _ _
  sign_payload-unsigned (err e) sl = inr refl

  sign_unsigned-unsigned :
      (found : Option String) (sl : SignatureLayer L)
      → ((sign_unsigned L J signer found sl).0 ≡ ok true)
        ⊎ ((sign_unsigned L J signer found sl).1.signature ≡ sl.signature)
  unfolding sign_unsigned
  sign_unsigned-unsigned (some s) sl = inr refl
  sign_unsigned-unsigned none sl = sign_payload-unsigned _ sl

  -- A signer that was not applied, or that failed, has left the layer's signature as it was; one that
  -- meets a signature is not applied and changes nothing.
  pub add_signature-refused :
      (sl : SignatureLayer L)
      → (((add_signature L J signer sl).0 ≡ ok true)
          ⊎ ((add_signature L J signer sl).1.signature ≡ sl.signature))
        × ((s : String) → sl.signature ≡ some s → add_signature L J signer sl ≡ (ok false, sl))
  unfolding add_signature sign_unsigned
  add_signature-refused sl = (
    sign_unsigned-unsigned sl.signature sl,
    λ s e. ap (λ found. sign_unsigned L J signer found sl) e,
  )

  -- Where base64 decoding undoes encoding and the key accepts what the signer signs, the public key
  -- constraint holds of every layer that the signer was applied to.
  pub verify_public_key-add_signature :
      (key : CosignVerificationKey L) (before after : SignatureLayer L)
      → IsBase64 L
      → IsKeyPair L signer.key key
      → add_signature L J signer before ≡ (ok true, after)
      → verify_public_key L (record { key = key }) after ≡ ok true
  verify_public_key-add_signature key before after b64 pair h =
      let s = add_signature-HasBeenSigned before after h in
      (verify_public_key_iff L (record { key = key }) after).0.1 (record {
        text = L.base64_encode s.sig;
        given = s.signature;
        bytes = s.sig;
        decoded = b64 s.sig;
        accepted = pair after.raw_data s.sig s.signed;
      })

module _ (L : Libs) where
  -- the constraints applied one after the other, each to the layer that the one before left
  pub data Applied : SignatureLayer L → List (Constraint L) → SignatureLayer L → Type 0 where
    done : (sl : SignatureLayer L) → Applied sl [] sl
    step :
        (sl sl' sl'' : SignatureLayer L) (c : Constraint L) (cs : List (Constraint L))
        → c sl ≡ (ok true, sl')
        → Applied sl' cs sl''
        → Applied sl (c ∷ cs) sl''

  unapplied-false : (r : Outcome Bool) → unapplied L r ≡ false → r ≡ ok true
  unfolding unapplied
  unapplied-false (ok true) h = refl
  unapplied-false (ok false) h = cc
  unapplied-false (err e) h = cc

  none_kept :
      {A : Type 0} (b : Bool) (x : A) (rest : List A)
      → (if b then x ∷ rest else rest) ≡ []
      → (b ≡ false) × (rest ≡ [])
  none_kept true x rest h = cc
  none_kept false x rest h = (refl, h)

  apply_all-Applied :
      (sl : SignatureLayer L) (cs : List (Constraint L))
      → (apply_all L sl cs).0 ≡ []
      → Applied sl cs (apply_all L sl cs).1
  unfolding apply_all
  apply_all-Applied sl [] h = done sl
  apply_all-Applied sl (c ∷ cs) h =
      let (applied, rest) = none_kept (unapplied L (c sl).0) c (apply_all L (c sl).1 cs).0 h in
      step sl (c sl).1 _ c cs
        (ap (λ (r : Outcome Bool). (r, (c sl).1)) (unapplied-false (c sl).0 applied))
        (apply_all-Applied (c sl).1 cs rest)

  Applied-apply_all :
      (sl sl' : SignatureLayer L) (cs : List (Constraint L))
      → Applied sl cs sl'
      → apply_all L sl cs ≡ ([], sl')
  unfolding apply_all unapplied
  Applied-apply_all sl _ [] (done _) = refl
  Applied-apply_all sl sl'' (c ∷ cs) (step _ sl' _ _ _ e later) =
      let rest = Applied-apply_all sl' sl'' cs later in rw (e, rest) refl

  -- The constraints are applied without an error exactly when each of them, in their order, answers
  -- that it was applied to the layer that those before it left; the layer is then the last one's.
  pub apply_constraints_iff :
      (sl sl' : SignatureLayer L) (cs : List (Constraint L))
      → (apply_constraints L sl cs ≡ (ok tt, sl')) ↔ Applied sl cs sl'
  unfolding apply_constraints
  apply_constraints_iff sl sl' cs = (
    λ h.
        let none_left =
          empty-eq-ok (apply_all L sl cs).0
            (ap (λ (x : Result (List (Constraint L)) Unit × SignatureLayer L). x.0) h) in
        subst (λ (x : SignatureLayer L). Applied sl cs x)
          (ap (λ (x : Result (List (Constraint L)) Unit × SignatureLayer L). x.1) h)
          (apply_all-Applied sl cs none_left),
    λ a. rw (Applied-apply_all sl sl' cs a) refl,
  )

  two-Applied :
      (c d : Constraint L) (before after : SignatureLayer L)
      → Applied before (c ∷ d ∷ []) after
      → (middle : SignatureLayer L) × (c before ≡ (ok true, middle)) × (d middle ≡ (ok true, after))
  two-Applied c d before after (step _ middle _ _ _ e (step _ _ _ _ _ f (done _))) = (middle, e, f)

  -- Where base64 decoding undoes encoding and the key accepts what the signer signs, a layer that a
  -- marker and then a signer were applied to verifies for the marker's annotations and the key.
  pub verify_constraints-apply_constraints :
      (J : Json) (marker : AnnotationMarker) (signer : PrivateKeySigner)
      (key : CosignVerificationKey L) (before after : SignatureLayer L)
      → IsBase64 L
      → IsKeyPair L signer.key key
      → apply_constraints L before (add_annotations L marker ∷ add_signature L J signer ∷ [])
        ≡ (ok tt, after)
      → verify_constraints L (after ∷ []) (
          verify_annotations L (record { annotations = marker.annotations })
          ∷ verify_public_key L (record { key = key })
          ∷ [])
        ≡ ok tt
  unfolding verify_annotations
  verify_constraints-apply_constraints J marker signer key before after b64 pair h =
      let (marked, m, s) =
        two-Applied (add_annotations L marker) (add_signature L J signer) before after
          ((apply_constraints_iff before after _).0 h) in
      let kept = (add_signature-HasBeenSigned L J signer marked after s).simple_signing in
      verify_constraints-two L after _ _
        (ap (λ x. ok (Payload.satisfies_annotations x marker.annotations)) kept
          ∙ verify_annotations-add_annotations L marker before marked m)
        (verify_public_key-add_signature L J signer key marked after b64 pair s)
