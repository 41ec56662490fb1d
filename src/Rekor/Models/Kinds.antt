-- ===== src/Rekor/Models/Kinds.antt =====
-- src/rekor/models/*_all_of.rs: the contents of a log entry, by its kind.
use sigstore_rs.Prelude.{String}
use sigstore_rs.Cosign.Payload.{Value}

pub record AlpineAllOf : Type 0 where
  pub api_version : String
  pub spec : Value

pub record HelmAllOf : Type 0 where
  pub api_version : String
  pub spec : Value

pub record JarAllOf : Type 0 where
  pub api_version : String
  pub spec : Value

pub record Rfc3161AllOf : Type 0 where
  pub api_version : String
  pub spec : Value

pub record RpmAllOf : Type 0 where
  pub api_version : String
  pub spec : Value

pub record TufAllOf : Type 0 where
  pub api_version : String
  pub spec : Value

pub record IntotoAllOf : Type 0 where
  pub api_version : String
  pub spec : Value

pub record HashedrekordAllOf : Type 0 where
  pub api_version : String
  pub spec : Value

pub record RekordAllOf : Type 0 where
  pub api_version : String
  pub spec : Value
