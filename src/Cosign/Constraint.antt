-- ===== src/Cosign/Constraint.antt =====
-- src/cosign/constraint and `apply_constraints` of src/cosign/mod.rs. A constraint
-- (`dyn Constraint`) is its `add_constraint`: the layer is changed in place, so it comes back
-- beside the result, also where that is an error.
pub mod Marking
pub mod Signing
pub mod PrivateKey
use sigstore_rs.Prelude.{
  String, Bytes, Bool, true, false, not, ◌&&◌, ◌==◌, Option, none, some, List, [], ◌∷◌, Result, ok,
  err, ◌>>=◌, if◌then◌else◌, is_empty,
}
use sigstore_rs.HashMap
use sigstore_rs.HashMap.{HashMap}
use sigstore_rs.Errors.{Outcome, Foreign, serde_json_error}
use sigstore_rs.Crypto.Libs.{Libs}
use sigstore_rs.Cosign.Payload.{Value, string, Optional, default_optional}
use sigstore_rs.Cosign.Bundle.{Json}
use sigstore_rs.Cosign.SignatureLayer.{SignatureLayer}

abbrev pub Constraint : Libs → Type 0
Constraint L = SignatureLayer L → Outcome Bool × SignatureLayer L

pub record AnnotationMarker : Type 0 where
  pub annotations : HashMap String

-- `SigStoreSigner`, by the `sign` that it forwards to its inner `dyn Signer`
pub record Signer : Type 0 where
  pub sign : Bytes → Outcome Bytes

pub record PrivateKeySigner : Type 0 where
  pub key : Signer

-- `Value == String`
value_is : String → Value → Bool
value_is v (string s) = s == v
value_is v _ = false

-- `contains_key(k) && annotations[k] != *v`
conflicts : HashMap Value → String → String → Bool
unfolding value_is
conflicts annotations k v = elim (HashMap.get k annotations) [
  | none ↦ false
  | some found ↦ not (value_is v found)
]

-- the loop over the marker's annotations; `none` is the early return of `Ok(false)`
mark : HashMap Value → HashMap String → Option (HashMap Value)
unfolding conflicts
mark annotations [] = some annotations
mark annotations ((k, v) ∷ rest) =
    let marked = mark (HashMap.insert k (string v) annotations) rest in
    if conflicts annotations k v then none else marked

unfoldable pub extra_of : Option Optional → HashMap Value
extra_of none = []
extra_of (some opt) = opt.extra

or_default : Option Optional → Optional
or_default none = default_optional
or_default (some opt) = opt

module _ (L : Libs) where
  -- the writing back of the annotations, or the early return
  set_annotations : Option (HashMap Value) → Constraint L
  unfolding or_default
  set_annotations none sl = (ok false, sl)
  set_annotations (some annotations) sl = (
    ok true,
    record sl {
      simple_signing = record sl.simple_signing {
        optional = some (record (or_default sl.simple_signing.optional) { extra = annotations });
      };
    },
  )

  -- `AnnotationMarker::add_constraint`
  unfoldable pub add_annotations : AnnotationMarker → Constraint L
  unfolding mark extra_of set_annotations
  add_annotations self sl =
      set_annotations (mark (extra_of sl.simple_signing.optional) self.annotations) sl

  attach : Outcome Bytes → SignatureLayer L → Outcome Bool × SignatureLayer L
  attach (ok sig) sl = (ok true, record sl { signature = some (L.base64_encode sig) })
  attach (err e) sl = (err e, sl)

  -- the payload is stored before it is signed
  sign_payload :
      PrivateKeySigner → Foreign Bytes → SignatureLayer L → Outcome Bool × SignatureLayer L
  unfolding attach
  sign_payload self (ok payload) sl =
      attach (self.key.sign payload) (record sl { raw_data = payload })
  sign_payload self (err e) sl = (err (serde_json_error e), sl)

  sign_unsigned : Json → PrivateKeySigner → Option String → Constraint L
  unfolding sign_payload
  sign_unsigned J self (some _) sl = (ok false, sl)
  sign_unsigned J self none sl = sign_payload self (J.simple_signing_to_vec sl.simple_signing) sl

  -- `PrivateKeySigner::add_constraint`
  unfoldable pub add_signature : Json → PrivateKeySigner → Constraint L
  unfolding sign_unsigned
  add_signature J self sl = sign_unsigned J self sl.signature sl

  -- a constraint that fails, or that says that it was not applied
  unapplied : Outcome Bool → Bool
  unapplied (ok is_applied) = not is_applied
  unapplied (err e) = true

  -- the constraints in their order, every one on the layer that those before it left
  apply_all : SignatureLayer L → List (Constraint L) → List (Constraint L) × SignatureLayer L
  unfolding unapplied
  apply_all sl [] = ([], sl)
  apply_all sl (c ∷ constraints) =
      let (outcome, sl') = c sl in
      let (rest, sl'') = apply_all sl' constraints in
      (if unapplied outcome then c ∷ rest else rest, sl'')

  -- the error is `SigstoreApplicationConstraintsError`, by the constraints that it lists
  unfoldable pub apply_constraints :
      SignatureLayer L
      → List (Constraint L)
      → Result (List (Constraint L)) (Unit {0}) × SignatureLayer L
  unfolding apply_all
  apply_constraints sl constraints =
      let (unapplied_constraints, sl') = apply_all sl constraints in
      (if is_empty unapplied_constraints then ok tt else err unapplied_constraints, sl')
