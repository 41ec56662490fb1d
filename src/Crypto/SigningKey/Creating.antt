-- ===== src/Crypto/SigningKey/Creating.antt =====
-- src/crypto/mod.rs: `SigningScheme::create_signer`, a signer of the scheme with a new key pair.
use sigstore_rs.Prelude.{ok, map_ok, ◌>>=◌}
use sigstore_rs.Errors.{Outcome}
use sigstore_rs.Crypto.Libs.{Libs}
use sigstore_rs.Crypto.Scheme
use sigstore_rs.Crypto.SigningKey.{p256, p384, Source, SigningLibs}
use sigstore_rs.Crypto.SigningKey.Ec
use sigstore_rs.Crypto.SigningKey.Ed25519
use sigstore_rs.Crypto.SigningKey.Rsa
use sigstore_rs.Crypto.SigningKey.Rsa.{sha256, sha384, sha512, pss, pkcs1v15}
use sigstore_rs.Crypto.SigningKey.Signer
use sigstore_rs.Crypto.SigningKey.Signer.{SigStoreSigner}

unfoldable pub create_signer :
    {L : Libs} (S : SigningLibs L) → Source → Scheme.SigningScheme → Outcome (SigStoreSigner S)
create_signer S source Scheme.ecdsa_p256_sha256_asn1 = do
  keys ← Ec.new S p256 source
  map_ok Signer.ecdsa_p256_sha256_asn1 (Ec.from_ecdsa_keys S p256 keys)
create_signer S source Scheme.ecdsa_p384_sha384_asn1 = do
  keys ← Ec.new S p384 source
  map_ok Signer.ecdsa_p384_sha384_asn1 (Ec.from_ecdsa_keys S p384 keys)
create_signer S source Scheme.ed25519 = do
  keys ← Ed25519.new S source
  map_ok Signer.ed25519 (Ed25519.from_ed25519_keys S keys)
create_signer S source (Scheme.rsa_pss_sha256 bit_size) = do
  keys ← Rsa.new S source bit_size
  ok (Signer.rsa_pss_sha256 (Rsa.from_rsa_keys S keys sha256 pss))
create_signer S source (Scheme.rsa_pss_sha384 bit_size) = do
  keys ← Rsa.new S source bit_size
  ok (Signer.rsa_pss_sha384 (Rsa.from_rsa_keys S keys sha384 pss))
create_signer S source (Scheme.rsa_pss_sha512 bit_size) = do
  keys ← Rsa.new S source bit_size
  ok (Signer.rsa_pss_sha512 (Rsa.from_rsa_keys S keys sha512 pss))
create_signer S source (Scheme.rsa_pkcs1_sha256 bit_size) = do
  keys ← Rsa.new S source bit_size
  ok (Signer.rsa_pkcs1_sha256 (Rsa.from_rsa_keys S keys sha256 pkcs1v15))
create_signer S source (Scheme.rsa_pkcs1_sha384 bit_size) = do
  keys ← Rsa.new S source bit_size
  ok (Signer.rsa_pkcs1_sha384 (Rsa.from_rsa_keys S keys sha384 pkcs1v15))
create_signer S source (Scheme.rsa_pkcs1_sha512 bit_size) = do
  keys ← Rsa.new S source bit_size
  ok (Signer.rsa_pkcs1_sha512 (Rsa.from_rsa_keys S keys sha512 pkcs1v15))
