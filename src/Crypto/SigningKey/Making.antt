-- ===== src/Crypto/SigningKey/Making.antt =====
-- src/crypto/signing_key/mod.rs and src/crypto/mod.rs: a signer that is made belongs to its keys.
use sigstore_rs.Prelude.{
  ℕ, ◌≡◌, refl, subst, ok, map_err, map_ok, >>=-eq-ok, map_err-eq-ok, map_ok-eq-ok, ok-injective,
}
use sigstore_rs.Errors.{Outcome}
use sigstore_rs.Crypto.Libs.{Libs}
use sigstore_rs.Crypto.Scheme
use sigstore_rs.Crypto.SigningKey.{EllipticCurve, p256, p384, Source, SigningLibs}
use sigstore_rs.Crypto.SigningKey.Ec
use sigstore_rs.Crypto.SigningKey.Ec.{EcdsaKeys, EcdsaSigner}
use sigstore_rs.Crypto.SigningKey.Ed25519
use sigstore_rs.Crypto.SigningKey.Rsa
use sigstore_rs.Crypto.SigningKey.Rsa.{
  DigestAlgorithm, PaddingScheme, sha256, sha384, sha512, pss, pkcs1v15,
}
use sigstore_rs.Crypto.SigningKey.Ecdsa.{on_p256, on_p384}
use sigstore_rs.Crypto.SigningKey.Signer
use sigstore_rs.Crypto.SigningKey.Signer.{SigStoreSigner}
use sigstore_rs.Crypto.SigningKey.KeyPair.{
  SigStoreKeyPair, ecdsa, ed25519, rsa, to_sigstore_signer, ecdsa_signer, ed25519_signer,
  rsa_signer, unmatched,
}
use sigstore_rs.Crypto.SigningKey.Creating.{create_signer}
use sigstore_rs.Crypto.SigningKey.Laws.{IsEcPair, IsEcSigner, IsRsaPair, IsSigner, IsPair}

-- a signer that belongs to its keys and is of the scheme, up to the size of an RSA key
abbrev pub IsSignerOf :
    {L : Libs} (S : SigningLibs L) → Scheme.SigningScheme → SigStoreSigner S → Type 0
IsSignerOf S scheme signer =
    IsSigner S signer × (Scheme.to_string (Signer.signing_scheme signer) ≡ Scheme.to_string scheme)

module _ {L : Libs} (S : SigningLibs L) where
  ec_signer :
      (c : EllipticCurve) (keys : EcdsaKeys S c) (signer : EcdsaSigner S c)
      → IsEcPair S c keys
      → Ec.from_ecdsa_keys S c keys ≡ ok signer
      → IsEcSigner S c signer
  unfolding Ec.from_ecdsa_keys Ec.private_key_to_der
  ec_signer c keys signer pair h =
      let (der, e, h₁) = >>=-eq-ok (map_err _ (S.secret_to_pkcs8_der c keys.ec_seckey)) _ h in
      let (k, f, h₂) = >>=-eq-ok (map_err _ (S.ec_signing_from_pkcs8_der c der)) _ h₁ in
      subst (IsEcSigner S c) (ok-injective h₂) (record {
        pair = pair;
        der = der;
        exported = map_err-eq-ok _ _ e;
        imported = map_err-eq-ok _ _ f;
      })

  of_curve :
      (c : EllipticCurve) (keys : EcdsaKeys S c) (make : EcdsaSigner S c → SigStoreSigner S)
      (scheme : Scheme.SigningScheme) (signer : SigStoreSigner S)
      → IsEcPair S c keys
      → ((inner : EcdsaSigner S c) → IsEcSigner S c inner → IsSignerOf S scheme (make inner))
      → map_ok make (Ec.from_ecdsa_keys S c keys) ≡ ok signer
      → IsSignerOf S scheme signer
  of_curve c keys make scheme signer pair each h =
      let (inner, e, same) = map_ok-eq-ok make (Ec.from_ecdsa_keys S c keys) h in
      subst (IsSignerOf S scheme) same (each inner (ec_signer c keys inner pair e))

  exactly :
      (scheme : Scheme.SigningScheme) (made signer : SigStoreSigner S)
      → IsSignerOf S scheme made
      → ◌≡◌ {A = Outcome (SigStoreSigner S)} (ok made) (ok signer)
      → IsSignerOf S scheme signer
  exactly scheme made signer p h = subst (IsSignerOf S scheme) (ok-injective h) p

  -- A signer made from a key pair belongs to it and is of the scheme asked for.
  pub to_sigstore_signer-IsSignerOf :
      (keys : SigStoreKeyPair S) (scheme : Scheme.SigningScheme) (signer : SigStoreSigner S)
      → IsPair S keys
      → to_sigstore_signer S keys scheme ≡ ok signer
      → IsSignerOf S scheme signer
  unfolding to_sigstore_signer ecdsa_signer ed25519_signer rsa_signer unmatched
      Ed25519.from_ed25519_keys Signer.signing_scheme Scheme.to_string
  to_sigstore_signer-IsSignerOf (ecdsa (on_p256 keys)) Scheme.ecdsa_p256_sha256_asn1 signer pair h =
      of_curve p256 keys Signer.ecdsa_p256_sha256_asn1 Scheme.ecdsa_p256_sha256_asn1 signer pair
        (λ inner q. (q, refl)) h
  to_sigstore_signer-IsSignerOf (ecdsa (on_p256 keys)) Scheme.ecdsa_p384_sha384_asn1 signer pair h =
      cc
  to_sigstore_signer-IsSignerOf (ecdsa (on_p256 keys)) Scheme.ed25519 signer pair h = cc
  to_sigstore_signer-IsSignerOf (ecdsa (on_p256 keys)) (Scheme.rsa_pss_sha256 n) signer pair h = cc
  to_sigstore_signer-IsSignerOf (ecdsa (on_p256 keys)) (Scheme.rsa_pss_sha384 n) signer pair h = cc
  to_sigstore_signer-IsSignerOf (ecdsa (on_p256 keys)) (Scheme.rsa_pss_sha512 n) signer pair h = cc
  to_sigstore_signer-IsSignerOf (ecdsa (on_p256 keys)) (Scheme.rsa_pkcs1_sha256 n) signer pair h =
      cc
  to_sigstore_signer-IsSignerOf (ecdsa (on_p256 keys)) (Scheme.rsa_pkcs1_sha384 n) signer pair h =
      cc
  to_sigstore_signer-IsSignerOf (ecdsa (on_p256 keys)) (Scheme.rsa_pkcs1_sha512 n) signer pair h =
      cc
  to_sigstore_signer-IsSignerOf (ecdsa (on_p384 keys)) Scheme.ecdsa_p256_sha256_asn1 signer pair h =
      cc
  to_sigstore_signer-IsSignerOf (ecdsa (on_p384 keys)) Scheme.ecdsa_p384_sha384_asn1 signer pair h =
      of_curve p384 keys Signer.ecdsa_p384_sha384_asn1 Scheme.ecdsa_p384_sha384_asn1 signer pair
        (λ inner q. (q, refl)) h
  to_sigstore_signer-IsSignerOf (ecdsa (on_p384 keys)) Scheme.ed25519 signer pair h = cc
  to_sigstore_signer-IsSignerOf (ecdsa (on_p384 keys)) (Scheme.rsa_pss_sha256 n) signer pair h = cc
  to_sigstore_signer-IsSignerOf (ecdsa (on_p384 keys)) (Scheme.rsa_pss_sha384 n) signer pair h = cc
  to_sigstore_signer-IsSignerOf (ecdsa (on_p384 keys)) (Scheme.rsa_pss_sha512 n) signer pair h = cc
  to_sigstore_signer-IsSignerOf (ecdsa (on_p384 keys)) (Scheme.rsa_pkcs1_sha256 n) signer pair h =
      cc
  to_sigstore_signer-IsSignerOf (ecdsa (on_p384 keys)) (Scheme.rsa_pkcs1_sha384 n) signer pair h =
      cc
  to_sigstore_signer-IsSignerOf (ecdsa (on_p384 keys)) (Scheme.rsa_pkcs1_sha512 n) signer pair h =
      cc
  to_sigstore_signer-IsSignerOf (ed25519 keys) Scheme.ecdsa_p256_sha256_asn1 signer pair h = cc
  to_sigstore_signer-IsSignerOf (ed25519 keys) Scheme.ecdsa_p384_sha384_asn1 signer pair h = cc
  to_sigstore_signer-IsSignerOf (ed25519 keys) Scheme.ed25519 signer pair h =
      exactly Scheme.ed25519 _ signer (pair, refl) h
  to_sigstore_signer-IsSignerOf (ed25519 keys) (Scheme.rsa_pss_sha256 n) signer pair h = cc
  to_sigstore_signer-IsSignerOf (ed25519 keys) (Scheme.rsa_pss_sha384 n) signer pair h = cc
  to_sigstore_signer-IsSignerOf (ed25519 keys) (Scheme.rsa_pss_sha512 n) signer pair h = cc
  to_sigstore_signer-IsSignerOf (ed25519 keys) (Scheme.rsa_pkcs1_sha256 n) signer pair h = cc
  to_sigstore_signer-IsSignerOf (ed25519 keys) (Scheme.rsa_pkcs1_sha384 n) signer pair h = cc
  to_sigstore_signer-IsSignerOf (ed25519 keys) (Scheme.rsa_pkcs1_sha512 n) signer pair h = cc
  to_sigstore_signer-IsSignerOf (rsa keys) Scheme.ecdsa_p256_sha256_asn1 signer pair h = cc
  to_sigstore_signer-IsSignerOf (rsa keys) Scheme.ecdsa_p384_sha384_asn1 signer pair h = cc
  to_sigstore_signer-IsSignerOf (rsa keys) Scheme.ed25519 signer pair h = cc
  to_sigstore_signer-IsSignerOf (rsa keys) (Scheme.rsa_pss_sha256 n) signer pair h =
      exactly (Scheme.rsa_pss_sha256 n) _ signer
        (record { keys = keys; pair = pair; same = refl }, refl) h
  to_sigstore_signer-IsSignerOf (rsa keys) (Scheme.rsa_pss_sha384 n) signer pair h =
      exactly (Scheme.rsa_pss_sha384 n) _ signer
        (record { keys = keys; pair = pair; same = refl }, refl) h
  to_sigstore_signer-IsSignerOf (rsa keys) (Scheme.rsa_pss_sha512 n) signer pair h =
      exactly (Scheme.rsa_pss_sha512 n) _ signer
        (record { keys = keys; pair = pair; same = refl }, refl) h
  to_sigstore_signer-IsSignerOf (rsa keys) (Scheme.rsa_pkcs1_sha256 n) signer pair h =
      exactly (Scheme.rsa_pkcs1_sha256 n) _ signer
        (record { keys = keys; pair = pair; same = refl }, refl) h
  to_sigstore_signer-IsSignerOf (rsa keys) (Scheme.rsa_pkcs1_sha384 n) signer pair h =
      exactly (Scheme.rsa_pkcs1_sha384 n) _ signer
        (record { keys = keys; pair = pair; same = refl }, refl) h
  to_sigstore_signer-IsSignerOf (rsa keys) (Scheme.rsa_pkcs1_sha512 n) signer pair h =
      exactly (Scheme.rsa_pkcs1_sha512 n) _ signer
        (record { keys = keys; pair = pair; same = refl }, refl) h

  rsa_new :
      (source : Source) (n : ℕ) (keys : Rsa.RsaKeys S)
      → Rsa.new S source n ≡ ok keys
      → IsRsaPair S keys
  unfolding Rsa.new
  rsa_new source n keys h =
      let (k, e, h₁) = >>=-eq-ok (map_err _ (S.rsa_new source n)) _ h in
      subst (IsRsaPair S) (ok-injective h₁) refl

  -- So is a signer that is created with new keys.
  pub create_signer-IsSignerOf :
      (source : Source) (scheme : Scheme.SigningScheme) (signer : SigStoreSigner S)
      → create_signer S source scheme ≡ ok signer
      → IsSignerOf S scheme signer
  unfolding create_signer Ec.new Ed25519.new Ed25519.of_signing_key Ed25519.from_ed25519_keys
      Signer.signing_scheme Scheme.to_string
  create_signer-IsSignerOf source Scheme.ecdsa_p256_sha256_asn1 signer h =
      of_curve p256 _ Signer.ecdsa_p256_sha256_asn1 Scheme.ecdsa_p256_sha256_asn1 signer refl
        (λ inner q. (q, refl)) h
  create_signer-IsSignerOf source Scheme.ecdsa_p384_sha384_asn1 signer h =
      of_curve p384 _ Signer.ecdsa_p384_sha384_asn1 Scheme.ecdsa_p384_sha384_asn1 signer refl
        (λ inner q. (q, refl)) h
  create_signer-IsSignerOf source Scheme.ed25519 signer h =
      exactly Scheme.ed25519 _ signer (refl, refl) h
  create_signer-IsSignerOf source (Scheme.rsa_pss_sha256 n) signer h =
      let (keys, e, h₁) = >>=-eq-ok (Rsa.new S source n) _ h in
      exactly (Scheme.rsa_pss_sha256 n) _ signer
        (record { keys = keys; pair = rsa_new source n keys e; same = refl }, refl) h₁
  create_signer-IsSignerOf source (Scheme.rsa_pss_sha384 n) signer h =
      let (keys, e, h₁) = >>=-eq-ok (Rsa.new S source n) _ h in
      exactly (Scheme.rsa_pss_sha384 n) _ signer
        (record { keys = keys; pair = rsa_new source n keys e; same = refl }, refl) h₁
  create_signer-IsSignerOf source (Scheme.rsa_pss_sha512 n) signer h =
      let (keys, e, h₁) = >>=-eq-ok (Rsa.new S source n) _ h in
      exactly (Scheme.rsa_pss_sha512 n) _ signer
        (record { keys = keys; pair = rsa_new source n keys e; same = refl }, refl) h₁
  create_signer-IsSignerOf source (Scheme.rsa_pkcs1_sha256 n) signer h =
      let (keys, e, h₁) = >>=-eq-ok (Rsa.new S source n) _ h in
      exactly (Scheme.rsa_pkcs1_sha256 n) _ signer
        (record { keys = keys; pair = rsa_new source n keys e; same = refl }, refl) h₁
  create_signer-IsSignerOf source (Scheme.rsa_pkcs1_sha384 n) signer h =
      let (keys, e, h₁) = >>=-eq-ok (Rsa.new S source n) _ h in
      exactly (Scheme.rsa_pkcs1_sha384 n) _ signer
        (record { keys = keys; pair = rsa_new source n keys e; same = refl }, refl) h₁
  create_signer-IsSignerOf source (Scheme.rsa_pkcs1_sha512 n) signer h =
      let (keys, e, h₁) = >>=-eq-ok (Rsa.new S source n) _ h in
      exactly (Scheme.rsa_pkcs1_sha512 n) _ signer
        (record { keys = keys; pair = rsa_new source n keys e; same = refl }, refl) h₁
