-- ===== src/Registry/OciReference.antt =====
-- src/registry/oci_reference.rs: a reference to an image, around the one of oci_distribution.
use sigstore_rs.Prelude.{String, Option, map_err, map_ok}
use sigstore_rs.Errors.{Outcome, oci_reference_not_valid_error}
use sigstore_rs.Registry.Libs.{OciLibs}

pub record OciReference (O : OciLibs) : Type 0 where
  pub oci_reference : O.Reference

module _ (O : OciLibs) where
  unfoldable pub from_str : String → Outcome (OciReference O)
  from_str s =
      map_ok (λ r. record { oci_reference = r })
        (map_err (λ _. oci_reference_not_valid_error s) (O.parse s))

  unfoldable pub with_tag : String → String → String → OciReference O
  with_tag registry repository tag = record { oci_reference = O.with_tag registry repository tag }

  unfoldable pub with_digest : String → String → String → OciReference O
  with_digest registry repository digest = record {
    oci_reference = O.with_digest registry repository digest;
  }

  unfoldable pub resolve_registry : OciReference O → String
  resolve_registry r = O.resolve_registry r.oci_reference

  unfoldable pub registry : OciReference O → String
  registry r = O.registry r.oci_reference

  unfoldable pub repository : OciReference O → String
  repository r = O.repository r.oci_reference

  unfoldable pub digest : OciReference O → Option String
  digest r = O.digest r.oci_reference

  unfoldable pub tag : OciReference O → Option String
  tag r = O.tag r.oci_reference

  unfoldable pub whole : OciReference O → String
  whole r = O.whole r.oci_reference

  -- `Display`
  unfoldable pub to_string : OciReference O → String
  to_string r = O.to_string r.oci_reference
