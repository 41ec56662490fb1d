-- ===== src/Tests/Constraints.antt =====
-- Examples: constraints that are verified, annotations and signatures that are applied.
use sigstore_rs.Prelude.{
  String, Bool, true, false, none, some, List, [], ◌∷◌, Memᴰ, ok, err, ◌≡◌, ◌≢◌, ◌↔◌, refl, subst,
  ap, bytes_eq, bytes_eq_refl, as_bytes, if◌then◌else◌, ok-injective,
}
use sigstore_rs.HashMap
use sigstore_rs.Errors.{Foreign, SigstoreError}
use sigstore_rs.Cosign.Payload
use sigstore_rs.Cosign.Payload.Annotations.{HasAnnotation, satisfies_annotations_iff}
use sigstore_rs.Cosign.VerificationConstraint.{
  VerificationConstraint, CertSubjectEmailVerifier, CertSubjectUrlVerifier, CertificateVerifier,
  verify_email, verify_public_key, verify_certificate, verify_annotations, verify_constraints,
}
use sigstore_rs.Cosign.VerificationConstraint.Checking.{
  IsSatisfied, verify_constraints_iff, verify_constraints-eq-err,
}
use sigstore_rs.Cosign.VerificationConstraint.Identity.{
  HasEmail, IsSigned, IsLogged, verify_email_iff, verify_public_key_iff, verify_certificate_iff,
}
use sigstore_rs.Cosign.Bundle.{Bundle}
use sigstore_rs.Cosign.Constraint.{add_annotations, add_signature, apply_constraints}
use sigstore_rs.Cosign.Constraint.Marking.{IsMarked, add_annotations-IsMarked}
use sigstore_rs.Cosign.Constraint.Signing.{
  IsKeyPair, IsBase64, HasBeenSigned, Applied, add_signature-HasBeenSigned, apply_constraints_iff,
  verify_constraints-apply_constraints,
}
use sigstore_rs.Tests.Toy.{toy, toy_pki, toy_json, toy_certificate, decode-encode}
use sigstore_rs.Tests.Inputs.{
  key, trusted_layer, unsigned_layer, marked_layer, marked_signing, signed_layer, marker, signer,
}

abbrev alice : CertSubjectEmailVerifier
alice = record { email = "alice"; issuer = none }

abbrev bob : CertSubjectEmailVerifier
bob = record { email = "bob"; issuer = some "issuer" }

abbrev site : CertSubjectUrlVerifier
site = record { url = "https://example.com"; issuer = "issuer" }

abbrev certificate : CertificateVerifier toy
certificate = record {
  cert_verification_key = key;
  cert_validity = toy_certificate.validity;
  require_rekor_bundle = true;
}

verify_email_iff_example :
    (verify_email toy alice trusted_layer ≡ ok true) ↔ HasEmail toy alice trusted_layer
verify_email_iff_example = verify_email_iff toy alice trusted_layer

verify_public_key_iff_example :
    ((verify_public_key toy (record { key = key }) signed_layer ≡ ok true)
      ↔ IsSigned toy key signed_layer)
    × ((e : SigstoreError) → verify_public_key toy (record { key = key }) signed_layer ≢ err e)
verify_public_key_iff_example = verify_public_key_iff toy (record { key = key }) signed_layer

verify_certificate_iff_example :
    (verify_certificate toy toy_pki certificate trusted_layer ≡ ok true) ↔ (
      IsSigned toy key trusted_layer
      × ((trusted_layer.bundle ≡ none → ◌≡◌ {A = Bool} true false)
          × ((b : Bundle) → trusted_layer.bundle ≡ some b → IsLogged toy toy_pki certificate b)))
verify_certificate_iff_example = verify_certificate_iff toy toy_pki certificate trusted_layer

abbrev email_constraint : CertSubjectEmailVerifier → VerificationConstraint toy
email_constraint v = verify_email toy v

verify_constraints_iff_example :
    (verify_constraints toy
        (unsigned_layer ∷ trusted_layer ∷ [])
        (email_constraint alice ∷ email_constraint bob ∷ [])
      ≡ ok tt)
    ↔ ((c : VerificationConstraint toy)
        → Memᴰ c (email_constraint alice ∷ email_constraint bob ∷ [])
        → IsSatisfied toy (unsigned_layer ∷ trusted_layer ∷ []) c)
verify_constraints_iff_example =
    verify_constraints_iff toy (unsigned_layer ∷ trusted_layer ∷ [])
      (email_constraint alice ∷ email_constraint bob ∷ [])

bob_missing :
    verify_constraints toy
      (unsigned_layer ∷ trusted_layer ∷ [])
      (email_constraint alice ∷ email_constraint bob ∷ [])
    ≡ err (email_constraint bob ∷ [])
unfolding verify_constraints verify_email
bob_missing = refl

verify_constraints-eq-err_example :
    (◌≢◌ {A = List (VerificationConstraint toy)} (email_constraint bob ∷ []) [])
    × ((c : VerificationConstraint toy)
        → Memᴰ c (email_constraint bob ∷ []) ↔ (
            Memᴰ c (email_constraint alice ∷ email_constraint bob ∷ [])
            × ¬ IsSatisfied toy (unsigned_layer ∷ trusted_layer ∷ []) c))
verify_constraints-eq-err_example =
    verify_constraints-eq-err toy (unsigned_layer ∷ trusted_layer ∷ [])
      (email_constraint alice ∷ email_constraint bob ∷ []) (email_constraint bob ∷ []) bob_missing

satisfies_annotations_iff_example :
    (Payload.satisfies_annotations marked_signing (("team", "release") ∷ []) ≡ true) ↔ (
      (name text : String)
      → Memᴰ {A = String × String} (name, text) (("team", "release") ∷ [])
      → HasAnnotation marked_signing name text)
satisfies_annotations_iff_example =
    satisfies_annotations_iff marked_signing (("team", "release") ∷ [])

marked : add_annotations toy marker unsigned_layer ≡ (ok true, marked_layer)
unfolding add_annotations HashMap.get HashMap.insert
marked = refl

add_annotations-IsMarked_example : IsMarked toy marker unsigned_layer marked_layer
add_annotations-IsMarked_example =
    add_annotations-IsMarked toy marker unsigned_layer marked_layer marked

signed : add_signature toy toy_json signer marked_layer ≡ (ok true, signed_layer)
unfolding add_signature as_bytes
signed = refl

abbrev verdict : Bool → Foreign (Unit {0})
verdict b = if b then ok tt else err "mismatch"

key_pair : IsKeyPair toy signer.key key
key_pair msg sig e = (
  sig,
  refl,
  ap verdict (subst (λ x. bytes_eq (1 ∷ msg) x ≡ true) (ok-injective e) (bytes_eq_refl (1 ∷ msg))),
)

base64 : IsBase64 toy
base64 bytes = ap ok (decode-encode bytes)

add_signature-HasBeenSigned_example : HasBeenSigned toy toy_json signer marked_layer signed_layer
add_signature-HasBeenSigned_example =
    add_signature-HasBeenSigned toy toy_json signer marked_layer signed_layer signed

apply_constraints_iff_example :
    (apply_constraints toy unsigned_layer
        (add_annotations toy marker ∷ add_signature toy toy_json signer ∷ [])
      ≡ (ok tt, signed_layer))
    ↔ Applied toy unsigned_layer
        (add_annotations toy marker ∷ add_signature toy toy_json signer ∷ [])
        signed_layer
apply_constraints_iff_example =
    apply_constraints_iff toy unsigned_layer signed_layer
      (add_annotations toy marker ∷ add_signature toy toy_json signer ∷ [])

applied :
    apply_constraints toy unsigned_layer
      (add_annotations toy marker ∷ add_signature toy toy_json signer ∷ [])
    ≡ (ok tt, signed_layer)
unfolding apply_constraints add_annotations add_signature HashMap.get HashMap.insert as_bytes
applied = refl

verify_constraints-apply_constraints_example :
    verify_constraints toy (signed_layer ∷ []) (
      verify_annotations toy (record { annotations = ("team", "release") ∷ [] })
      ∷ verify_public_key toy (record { key = key })
      ∷ [])
    ≡ ok tt
verify_constraints-apply_constraints_example =
    verify_constraints-apply_constraints toy toy_json marker signer key unsigned_layer signed_layer
      base64 key_pair applied
