-- ===== src/Cosign/Payload.antt =====
-- src/cosign/payload/simple_signing.rs: the object that cosign signs, and what a verifier asks of it.
pub mod Annotations
use sigstore_rs.Prelude.{
  String, Bool, true, false, ◌&&◌, ◌==◌, if◌then◌else◌, Option, none, some, [], ◌∷◌, ℤ, is_empty,
}
use sigstore_rs.HashMap
use sigstore_rs.HashMap.{HashMap}
use sigstore_rs.Registry.Libs.{OciLibs}
use sigstore_rs.Registry.OciReference
use sigstore_rs.Registry.OciReference.{OciReference}

-- `serde_json::Value`; a number is the text that `Number::to_string` gives
mutual
  pub data Value : Type 0 where
    null : Value
    bool : Bool → Value
    number : String → Value
    string : String → Value
    array : Values → Value
    object : Members → Value

  pub data Values : Type 0 where
    nil : Values
    cons : Value → Values → Values

  pub data Members : Type 0 where
    end : Members
    member : String → Value → Members → Members

pub record Optional : Type 0 where
  pub creator : Option String
  pub timestamp : Option ℤ
  pub extra : HashMap Value

-- `Optional::default()`
abbrev pub default_optional : Optional
default_optional = record { creator = none; timestamp = none; extra = [] }

pub record Image : Type 0 where
  pub docker_manifest_digest : String

pub record Identity : Type 0 where
  pub docker_reference : String

pub record Critical : Type 0 where
  pub identity : Identity
  pub image : Image
  pub type_name : String

pub record SimpleSigning : Type 0 where
  pub critical : Critical
  pub optional : Option Optional

abbrev pub critical_type_name : String
critical_type_name = "cosign container image signature"

-- `SimpleSigning::new`
unfoldable pub new : (O : OciLibs) → OciReference O → String → SimpleSigning
unfolding OciReference.to_string
new O image_ref manifest_digest = record {
  critical = record {
    identity = record { docker_reference = OciReference.to_string O image_ref };
    image = record { docker_manifest_digest = manifest_digest };
    type_name = critical_type_name;
  };
  optional = none;
}

-- one required annotation against the value found; arrays, objects and null are not handled
unfoldable pub value_matches : String → Value → Bool
value_matches req_val (string s) = req_val == s
value_matches req_val (number n) = req_val == n
value_matches req_val (bool b) = req_val == (if b then "true" else "false")
value_matches req_val _ = false

annotation_matches : HashMap Value → String → String → Bool
unfolding value_matches
annotation_matches extra req_key req_val = elim (HashMap.get req_key extra) [
  | some curr_val ↦ value_matches req_val curr_val
  | none ↦ false
]

-- the loop over the required annotations
all_match : HashMap Value → HashMap String → Bool
all_match extra [] = true
all_match extra ((req_key, req_val) ∷ rest) =
    annotation_matches extra req_key req_val && all_match extra rest

-- `Optional::satisfies_annotations`
optional_satisfies_annotations : Optional → HashMap String → Bool
unfolding all_match annotation_matches
optional_satisfies_annotations opt annotations =
    if is_empty opt.extra then false else all_match opt.extra annotations

-- `SimpleSigning::satisfies_annotations`
unfoldable pub satisfies_annotations : SimpleSigning → HashMap String → Bool
unfolding optional_satisfies_annotations
satisfies_annotations s annotations = if is_empty annotations then true else elim s.optional [
  | some opt ↦ optional_satisfies_annotations opt annotations
  | none ↦ false
]

unfoldable pub satisfies_manifest_digest : SimpleSigning → String → Bool
satisfies_manifest_digest s expected_digest =
    s.critical.image.docker_manifest_digest == expected_digest
