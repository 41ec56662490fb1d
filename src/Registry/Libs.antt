-- ===== src/Registry/Libs.antt =====
-- What src/registry and src/cosign use of the oci_distribution crate: its data types, by the fields
-- that the source reads or fills, and its functions, as a parameter of the model.
use sigstore_rs.Prelude.{String, Bytes, Bool, Option, List}
use sigstore_rs.HashMap.{HashMap}
use sigstore_rs.Errors.{Foreign}

-- `secrets::RegistryAuth`
pub data RegistryAuth : Type 0 where
  anonymous : RegistryAuth
  basic : String → String → RegistryAuth

-- `client::ClientProtocol`
pub data RegistryProtocol : Type 0 where
  http https : RegistryProtocol
  https_except : List String → RegistryProtocol

-- `client::CertificateEncoding`
pub data RegistryEncoding : Type 0 where
  der pem : RegistryEncoding

-- `client::Certificate`
pub record RegistryCertificate : Type 0 where
  pub encoding : RegistryEncoding
  pub data_bytes : Bytes

-- `client::ClientConfig`, by the fields that the source sets
pub record RegistryConfig : Type 0 where
  pub protocol : RegistryProtocol
  pub accept_invalid_certificates : Bool
  pub extra_root_certificates : List RegistryCertificate

-- `client::ImageLayer`
pub record ImageLayer : Type 0 where
  pub data_bytes : Bytes
  pub media_type : String
  pub annotations : Option (HashMap String)

-- `manifest::OciDescriptor`
pub record OciDescriptor : Type 0 where
  pub media_type : String
  pub digest : String
  pub annotations : Option (HashMap String)

-- `manifest::OciImageManifest`
pub record OciImageManifest : Type 0 where
  pub media_type : Option String
  pub layers : List OciDescriptor
  pub annotations : Option (HashMap String)

-- `manifest::OciManifest`; what an index holds is not read
pub data OciManifest : Type 0 where
  image : OciImageManifest → OciManifest
  image_index : OciManifest

-- `client::Config`
pub record ConfigLayer : Type 0 where
  pub data_bytes : Bytes

-- `client::PushResponse`
pub record PushReceipt : Type 0 where
  pub config_url : String
  pub manifest_url : String

-- `Reference` with its accessors and printers, and the pure functions on layers and manifests
pub record OciLibs : Type 1 where
  pub Reference : Type 0
  pub parse : String → Foreign Reference
  pub with_tag : String → String → String → Reference
  pub with_digest : String → String → String → Reference
  pub resolve_registry : Reference → String
  pub registry : Reference → String
  pub repository : Reference → String
  pub tag : Reference → Option String
  pub digest : Reference → Option String
  pub whole : Reference → String
  pub to_string : Reference → String
  -- `ImageLayer::sha256_digest`
  pub sha256_digest : ImageLayer → String
  -- `Config::oci_v1(data, None)`
  pub oci_v1 : Bytes → ConfigLayer
  -- `OciImageManifest::build`
  pub build : List ImageLayer → ConfigLayer → Option (HashMap String) → OciImageManifest
  pub image_media_type : String

-- the calls of the crate's `Client`, over the state `W` of the client and of the registry
pub record RegistryClient (O : OciLibs) (W : Type 0) : Type 0 where
  pub fetch_manifest_digest : O.Reference → RegistryAuth → W → Foreign String × W
  -- the layers of the `ImageData`
  pub pull : O.Reference → RegistryAuth → List String → W → Foreign (List ImageLayer) × W
  pub pull_manifest : O.Reference → RegistryAuth → W → Foreign (OciManifest × String) × W
  pub push :
      O.Reference
      → List ImageLayer
      → ConfigLayer
      → RegistryAuth
      → Option OciImageManifest
      → W
      → Foreign PushReceipt × W
