-- ===== src/Registry/Capabilities.antt =====
-- src/registry/mod.rs: the trait `ClientCapabilities`, as a record of functions over the state of the
-- client and of the world behind it.
use sigstore_rs.Prelude.{String, Option, List}
use sigstore_rs.Errors.{Outcome}
use sigstore_rs.Registry.Libs.{
  OciLibs, RegistryAuth, ImageLayer, OciImageManifest, OciManifest, ConfigLayer, PushReceipt,
}

-- an action on the registry client's state `S`
abbrev pub Action : Type 0 → Type 0 → Type 0
Action S A = S → Outcome A × S

pub record ClientCapabilities (O : OciLibs) (S : Type 0) : Type 0 where
  pub fetch_manifest_digest : O.Reference → RegistryAuth → Action S String
  -- the layers of the `ImageData`
  pub pull : O.Reference → RegistryAuth → List String → Action S (List ImageLayer)
  pub pull_manifest : O.Reference → RegistryAuth → Action S (OciManifest × String)
  pub push :
      O.Reference
      → List ImageLayer
      → ConfigLayer
      → RegistryAuth
      → Option OciImageManifest
      → Action S PushReceipt
