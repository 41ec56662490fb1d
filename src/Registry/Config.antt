-- ===== src/Registry/Config.antt =====
-- src/registry/config.rs: how to reach a registry, and the conversions to and from the types of
-- oci_distribution.
use sigstore_rs.Prelude.{String, Bytes, Bool, false, List, [], ◌∷◌, map, ltb, eqb, if◌then◌else◌}
use sigstore_rs.Registry.Libs.{
  RegistryAuth, RegistryProtocol, RegistryEncoding, RegistryCertificate, RegistryConfig,
  PushReceipt,
}

pub data Auth : Type 0 where
  anonymous : Auth
  basic : String → String → Auth

-- `From<&Auth> for RegistryAuth`
unfoldable pub to_registry_auth : Auth → RegistryAuth
to_registry_auth anonymous = RegistryAuth.anonymous
to_registry_auth (basic username pass) = RegistryAuth.basic username pass

-- `From<&RegistryAuth> for Auth`
unfoldable pub from_registry_auth : RegistryAuth → Auth
from_registry_auth RegistryAuth.anonymous = anonymous
from_registry_auth (RegistryAuth.basic username pass) = basic username pass

pub data ClientProtocol : Type 0 where
  http https : ClientProtocol
  https_except : List String → ClientProtocol

-- `From<ClientProtocol> for oci_distribution::client::ClientProtocol`
unfoldable pub to_registry_protocol : ClientProtocol → RegistryProtocol
to_registry_protocol http = RegistryProtocol.http
to_registry_protocol https = RegistryProtocol.https
to_registry_protocol (https_except exceptions) = RegistryProtocol.https_except exceptions

pub data CertificateEncoding : Type 0 where
  der pem : CertificateEncoding

-- `From<CertificateEncoding> for oci_distribution::client::CertificateEncoding`
unfoldable pub to_registry_encoding : CertificateEncoding → RegistryEncoding
to_registry_encoding der = RegistryEncoding.der
to_registry_encoding pem = RegistryEncoding.pem

-- a x509 certificate
pub record Certificate : Type 0 where
  pub encoding : CertificateEncoding
  pub data_bytes : Bytes

-- `Ordering`, and the order of `Vec<u8>`
pub data Ordering : Type 0 where
  less equal greater : Ordering

unfoldable pub compare_bytes : Bytes → Bytes → Ordering
compare_bytes [] [] = equal
compare_bytes [] (b ∷ other) = less
compare_bytes (a ∷ self) [] = greater
compare_bytes (a ∷ self) (b ∷ other) =
    let rest = compare_bytes self other in
    if ltb a b then less else if eqb a b then rest else greater

-- `Ord for Certificate`: the encoding is not compared
unfoldable pub cmp : Certificate → Certificate → Ordering
cmp self other = compare_bytes self.data_bytes other.data_bytes

-- `From<&Certificate> for oci_distribution::client::Certificate`
unfoldable pub to_registry_certificate : Certificate → RegistryCertificate
to_registry_certificate cert = record {
  encoding = to_registry_encoding cert.encoding;
  data_bytes = cert.data_bytes;
}

-- without the field of the feature native-tls
pub record ClientConfig : Type 0 where
  pub protocol : ClientProtocol
  pub accept_invalid_certificates : Bool
  pub extra_root_certificates : List Certificate

-- `ClientConfig::default()`
abbrev pub default_config : ClientConfig
default_config = record {
  protocol = https;
  accept_invalid_certificates = false;
  extra_root_certificates = [];
}

-- `From<ClientConfig> for oci_distribution::client::ClientConfig`
unfoldable pub to_registry_config : ClientConfig → RegistryConfig
to_registry_config config = record {
  protocol = to_registry_protocol config.protocol;
  accept_invalid_certificates = config.accept_invalid_certificates;
  extra_root_certificates = map to_registry_certificate config.extra_root_certificates;
}

pub record PushResponse : Type 0 where
  pub config_url : String
  pub manifest_url : String

-- `From<PushResponse> for oci_distribution::client::PushResponse`
unfoldable pub to_push_receipt : PushResponse → PushReceipt
to_push_receipt pr = record { config_url = pr.config_url; manifest_url = pr.manifest_url }

-- the other way round
unfoldable pub from_push_receipt : PushReceipt → PushResponse
from_push_receipt pr = record { config_url = pr.config_url; manifest_url = pr.manifest_url }
