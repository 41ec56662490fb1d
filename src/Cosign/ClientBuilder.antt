-- ===== src/Cosign/ClientBuilder.antt =====
-- src/cosign/client_builder.rs: the settings of a client, and the client made from them. What
-- connects to the registry is a parameter.
use sigstore_rs.Prelude.{
  String, Bytes, Bool, true, false, Option, none, some, List, [], ◌∷◌, ◌++◌, ok, map_ok, ◌>>=◌,
  is_empty, if◌then◌else◌, as_bytes,
}
use sigstore_rs.Errors.{Outcome}
use sigstore_rs.Registry.Libs.{OciLibs}
use sigstore_rs.Registry.Config.{Certificate, ClientConfig, default_config, pem}
use sigstore_rs.Crypto.Libs.{Libs}
use sigstore_rs.Crypto.Pki.{Pki}
use sigstore_rs.Crypto.Scheme
use sigstore_rs.Crypto.VerificationKey
use sigstore_rs.Crypto.VerificationKey.{CosignVerificationKey}
use sigstore_rs.Crypto.CertificatePool
use sigstore_rs.Crypto.CertificatePool.{CertificatePool}
use sigstore_rs.Cosign.Client.{Client, ClientCapabilities}

pub record ClientBuilder : Type 0 where
  pub oci_client_config : ClientConfig
  pub rekor_pub_key : Option String
  pub fulcio_certs : List Certificate
  pub enable_registry_caching : Bool

-- `ClientBuilder::default()`
abbrev pub default_builder : ClientBuilder
default_builder = record {
  oci_client_config = default_config;
  rekor_pub_key = none;
  fulcio_certs = [];
  enable_registry_caching = false;
}

unfoldable pub enable_registry_caching : ClientBuilder → ClientBuilder
enable_registry_caching self = record self { enable_registry_caching = true }

unfoldable pub with_rekor_pub_key : ClientBuilder → String → ClientBuilder
with_rekor_pub_key self key = record self { rekor_pub_key = some key }

unfoldable pub with_fulcio_cert : ClientBuilder → Bytes → ClientBuilder
with_fulcio_cert self cert = record self {
  fulcio_certs = self.fulcio_certs ++ record { encoding = pem; data_bytes = cert } ∷ [];
}

unfoldable pub with_fulcio_certs : ClientBuilder → List Certificate → ClientBuilder
with_fulcio_certs self certs = record self { fulcio_certs = certs }

unfoldable pub with_oci_client_config : ClientBuilder → ClientConfig → ClientBuilder
with_oci_client_config self config = record self { oci_client_config = config }

module _ (L : Libs) (P : Pki L) where
  rekor_key : Option String → Outcome (Option (CosignVerificationKey L))
  rekor_key none = ok none
  rekor_key (some pem_text) =
      map_ok some (VerificationKey.from_pem L (as_bytes pem_text) Scheme.default)

  cert_pool : List Certificate → Outcome (Option (CertificatePool L P))
  cert_pool certs =
      if is_empty certs then ok none else map_ok some (CertificatePool.from_certificates L P certs)

module _ (O : OciLibs) (L : Libs) (P : Pki L) {S : Type 0} where
  -- `connect caching config` is the registry client, of either kind
  unfoldable pub build :
      (Bool → ClientConfig → ClientCapabilities O S) → ClientBuilder → Outcome (Client O L P S)
  unfolding rekor_key cert_pool
  build connect self = do
    rekor_pub_key ← rekor_key L P self.rekor_pub_key
    fulcio_cert_pool ← cert_pool L P self.fulcio_certs
    ok (record {
      registry_client = connect self.enable_registry_caching self.oci_client_config;
      rekor_pub_key = rekor_pub_key;
      fulcio_cert_pool = fulcio_cert_pool;
    })
