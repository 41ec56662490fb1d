-- ===== src/Tests/Keys.antt =====
-- Examples: keys, signatures, certificates and certificate pools.
use sigstore_rs.Prelude.{pos, Bytes, List, [], ◌∷◌, Memᴰ, ok, ◌≡◌, ◌≢◌, ◌↔◌, ◌⊎◌, refl, ◌∙◌}
use sigstore_rs.Crypto.Pki.{root, intermediate}
use sigstore_rs.Crypto.Scheme
use sigstore_rs.Crypto.Scheme.{SigningScheme, rsa_pss_sha256}
use sigstore_rs.Crypto.Certificate
use sigstore_rs.Crypto.Certificate.Window.{IsTrusted, is_trusted_iff}
use sigstore_rs.Crypto.CertificatePool
use sigstore_rs.Crypto.CertificatePool.{from_certificates, fulcio_intermediate_v1}
use sigstore_rs.Crypto.CertificatePool.Chains.{IsIssued, verify_iff}
use sigstore_rs.Crypto.CertificatePool.Loading.{IsGiven, from_certificates-IsGiven}
use sigstore_rs.Crypto.VerificationKey.{
  base64_encoded, ed25519, from_der, from_pem, try_from_der, verify_signature,
}
use sigstore_rs.Crypto.VerificationKey.Accepts.{Accepts, Stands, verify_signature_iff}
use sigstore_rs.Crypto.VerificationKey.Detection.{EdParsersAgree}
use sigstore_rs.Registry.Config.{Certificate, der}
use sigstore_rs.Tests.Toy.{toy, toy_pki, toy_certificate, decode}
use sigstore_rs.Tests.Inputs.{key, pool}

parsed_name : Scheme.try_from "ED25519" ≡ ok SigningScheme.ed25519
unfolding Scheme.try_from
parsed_name = refl

verify_signature_iff_example :
    (verify_signature toy key (base64_encoded (97 ∷ 98 ∷ [])) [] ≡ ok tt)
    ↔ ((sig : Bytes) × Stands toy (base64_encoded (97 ∷ 98 ∷ [])) sig × Accepts toy key sig [])
verify_signature_iff_example = verify_signature_iff toy key (base64_encoded (97 ∷ 98 ∷ [])) []

signature_verified : verify_signature toy key (base64_encoded (97 ∷ 98 ∷ [])) [] ≡ ok tt
unfolding verify_signature decode
signature_verified = refl

pem_key : from_pem toy (6 ∷ 1 ∷ []) SigningScheme.ed25519 ≡ ok (ed25519 (1 ∷ []))
unfolding from_pem from_der
pem_key = refl

parsers_agree : EdParsersAgree toy
parsers_agree [] bytes k e f = cc
parsers_agree (b ∷ rest) bytes k e f = e ∙ f

found_key : try_from_der toy (6 ∷ 1 ∷ []) ≡ ok (ed25519 (1 ∷ []))
unfolding try_from_der
found_key = refl

is_trusted_iff_example :
    (Certificate.is_trusted toy toy_pki (pos 12) toy_certificate (pos 15) ≡ ok tt)
    ↔ IsTrusted toy toy_pki (pos 12) toy_certificate (pos 15)
is_trusted_iff_example = is_trusted_iff toy toy_pki (pos 12) toy_certificate (pos 15)

verify_iff_example :
    (CertificatePool.verify toy toy_pki pool (67 ∷ []) ≡ ok tt)
    ↔ IsIssued toy toy_pki pool (67 ∷ [])
verify_iff_example = verify_iff toy toy_pki pool (67 ∷ [])

abbrev given : List Certificate
given =
    record { encoding = der; data_bytes = 82 ∷ [] }
    ∷ record { encoding = der; data_bytes = 73 ∷ [] }
    ∷ []

loaded : from_certificates toy toy_pki given ≡ ok pool
unfolding from_certificates CertificatePool.parse_certificate
loaded = refl

from_certificates-IsGiven_example :
    ((pc : Bytes) → Memᴰ pc ((82 ∷ []) ∷ []) → IsGiven toy toy_pki given root pc)
    × ((pc : Bytes)
        → Memᴰ pc ((73 ∷ []) ∷ [])
        → IsGiven toy toy_pki given intermediate pc
          ⊎ (toy_pki.picky_from_pem_str fulcio_intermediate_v1 ≡ ok pc))
    × (◌≢◌ {A = List Bytes} ((73 ∷ []) ∷ []) [])
from_certificates-IsGiven_example = from_certificates-IsGiven toy toy_pki given pool loaded
