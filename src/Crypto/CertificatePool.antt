-- ===== src/Crypto/CertificatePool.antt =====
-- src/crypto/certificate_pool.rs: the trusted roots and intermediates, and the chains that are tried
-- against a certificate.
pub mod Chains
pub mod Loading
use sigstore_rs.Prelude.{
  String, Bytes, List, [], ◌∷◌, ◌++◌, map, any, is_empty, is_ok, map_err, ok_or, ok, err, ◌>>=◌,
  if◌then◌else◌, concat, from_utf8,
}
use sigstore_rs.Errors.{
  Outcome, x509_error, cert_error, certificate_pool_error, certificate_validity_error,
  unexpected_error,
}
use sigstore_rs.Registry.Config.{Certificate, CertificateEncoding, der, pem}
use sigstore_rs.Crypto.Libs.{Libs}
use sigstore_rs.Crypto.Pki.{Pki, CertType, root, intermediate, other_type}

unfoldable pub fulcio_intermediate_v1 : String
fulcio_intermediate_v1 = concat (
    "-----BEGIN CERTIFICATE-----\n"
    ∷ "MIICGjCCAaGgAwIBAgIUALnViVfnU0brJasmRkHrn/UnfaQwCgYIKoZIzj0EAwMw\n"
    ∷ "KjEVMBMGA1UEChMMc2lnc3RvcmUuZGV2MREwDwYDVQQDEwhzaWdzdG9yZTAeFw0y\n"
    ∷ "MjA0MTMyMDA2MTVaFw0zMTEwMDUxMzU2NThaMDcxFTATBgNVBAoTDHNpZ3N0b3Jl\n"
    ∷ "LmRldjEeMBwGA1UEAxMVc2lnc3RvcmUtaW50ZXJtZWRpYXRlMHYwEAYHKoZIzj0C\n"
    ∷ "AQYFK4EEACIDYgAE8RVS/ysH+NOvuDZyPIZtilgUF9NlarYpAd9HP1vBBH1U5CV7\n"
    ∷ "7LSS7s0ZiH4nE7Hv7ptS6LvvR/STk798LVgMzLlJ4HeIfF3tHSaexLcYpSASr1kS\n"
    ∷ "0N/RgBJz/9jWCiXno3sweTAOBgNVHQ8BAf8EBAMCAQYwEwYDVR0lBAwwCgYIKwYB\n"
    ∷ "BQUHAwMwEgYDVR0TAQH/BAgwBgEB/wIBADAdBgNVHQ4EFgQU39Ppz1YkEZb5qNjp\n"
    ∷ "KFWixi4YZD8wHwYDVR0jBBgwFoAUWMAeX5FFpWapesyQoZMi0CrFxfowCgYIKoZI\n"
    ∷ "zj0EAwMDZwAwZAIwPCsQK4DYiZYDPIaDi5HFKnfxXx6ASSVmERfsynYBiX2X6SJR\n"
    ∷ "nZU84/9DZdnFvvxmAjBOt6QpBlc4J/0DxvkTCqpclvziL6BCCPnjdlIB3Pu3BxsP\n"
    ∷ "mygUY7Ii2zbdCdliiow=\n" ∷ "-----END CERTIFICATE-----" ∷ [])

pub record CertificatePool (L : Libs) (P : Pki L) : Type 0 where
  pub trusted_roots : List P.PickyCert
  pub intermediates : List P.PickyCert

module _ (L : Libs) (P : Pki L) where
  abbrev empty_pool : CertificatePool L P
  empty_pool = record { trusted_roots = []; intermediates = [] }

  unfoldable pub parse_certificate : CertificateEncoding → Bytes → Outcome P.PickyCert
  parse_certificate pem data_bytes = do
    pem_str ← ok_or (x509_error "certificate is not PEM encoded") (from_utf8 data_bytes)
    map_err cert_error (P.picky_from_pem_str pem_str)
  parse_certificate der data_bytes = map_err cert_error (P.picky_from_der data_bytes)

  -- the `match pc.ty()`
  add : CertType → P.PickyCert → CertificatePool L P → Outcome (CertificatePool L P)
  add root pc pool = ok (record pool { trusted_roots = pool.trusted_roots ++ pc ∷ [] })
  add intermediate pc pool = ok (record pool { intermediates = pool.intermediates ++ pc ∷ [] })
  add other_type pc pool =
      err (certificate_pool_error "Cannot add a certificate that is no root or intermediate")

  -- the loop over the certificates
  collect : CertificatePool L P → List Certificate → Outcome (CertificatePool L P)
  unfolding parse_certificate add
  collect pool [] = ok pool
  collect pool (c ∷ certs) = do
    pc ← parse_certificate c.encoding c.data_bytes
    pool' ← add (P.ty pc) pc pool
    collect pool' certs

  -- the built-in intermediate stands in where none was given
  complete : CertificatePool L P → Outcome (CertificatePool L P)
  complete pool =
      if is_empty pool.intermediates
      then (do
        pc ← map_err cert_error (P.picky_from_pem_str fulcio_intermediate_v1)
        ok (record pool { intermediates = pc ∷ [] }))
      else ok pool

  unfoldable pub from_certificates : List Certificate → Outcome (CertificatePool L P)
  unfolding collect complete
  from_certificates certs = do pool ← collect empty_pool certs; complete pool

  -- the loop over the roots for one intermediate
  chains_through : P.PickyCert → List P.PickyCert → List (List P.PickyCert)
  chains_through i [] = []
  chains_through i (r ∷ roots) =
      let rest = chains_through i roots in
      if is_ok (P.is_parent_of r i) then (i ∷ r ∷ []) ∷ rest else rest

  chains_through_all : List P.PickyCert → List P.PickyCert → List (List P.PickyCert)
  unfolding chains_through
  chains_through_all [] roots = []
  chains_through_all (i ∷ intermediates) roots =
      chains_through i roots ++ chains_through_all intermediates roots

  unfoldable pub create_chains_for_all_certificates : CertificatePool L P → List (List P.PickyCert)
  unfolding chains_through_all
  create_chains_for_all_certificates pool =
      map (λ r. r ∷ []) pool.trusted_roots
      ++ chains_through_all pool.intermediates pool.trusted_roots

  unfoldable pub verify : CertificatePool L P → P.PickyCert → Outcome (Unit {0})
  verify pool cert =
      if any (λ chain. is_ok (P.verify_chain cert chain (P.valid_not_before cert)))
        (create_chains_for_all_certificates pool)
      then ok tt
      else err (certificate_validity_error "Not issued by a trusted root")

  unfoldable pub verify_pem_cert : CertificatePool L P → Bytes → Outcome (Unit {0})
  verify_pem_cert pool cert_pem = do
    cert_pem_str ←
        ok_or (unexpected_error "Cannot convert cert back to string") (from_utf8 cert_pem)
    cert ← map_err cert_error (P.picky_from_pem_str cert_pem_str)
    verify pool cert

  unfoldable pub verify_der_cert : CertificatePool L P → Bytes → Outcome (Unit {0})
  verify_der_cert pool bytes = do
    cert ← map_err cert_error (P.picky_from_der bytes)
    verify pool cert
