-- ===== src/Crypto/SigningKey/Matching.antt =====
-- src/crypto/signing_key/mod.rs: which signers are made from which key pairs.
use sigstore_rs.Prelude.{
  String, Bool, true, false, ◌≡◌, refl, ap, ◌↔◌, ok, err, map_err, map_ok, ◌>>=◌,
}
use sigstore_rs.Errors.{
  Outcome, Foreign, SigstoreError, unmatched_key_and_signing_scheme, pkcs8_error,
}
use sigstore_rs.Crypto.Libs.{Libs}
use sigstore_rs.Crypto.Scheme
use sigstore_rs.Crypto.SigningKey.{EllipticCurve, p256, p384, SigningLibs}
use sigstore_rs.Crypto.SigningKey.Ec
use sigstore_rs.Crypto.SigningKey.Ec.{EcdsaKeys, EcdsaSigner}
use sigstore_rs.Crypto.SigningKey.Ed25519
use sigstore_rs.Crypto.SigningKey.Ecdsa.{on_p256, on_p384}
use sigstore_rs.Crypto.SigningKey.KeyPair.{
  SigStoreKeyPair, ecdsa, ed25519, rsa, to_sigstore_signer, ecdsa_signer, ed25519_signer, unmatched,
}

-- which kind of key signs by which scheme
abbrev pub fits : {L : Libs} {S : SigningLibs L} → SigStoreKeyPair S → Scheme.SigningScheme → Bool
fits (ecdsa (on_p256 keys)) Scheme.ecdsa_p256_sha256_asn1 = true
fits (ecdsa (on_p384 keys)) Scheme.ecdsa_p384_sha384_asn1 = true
fits (ed25519 keys) Scheme.ed25519 = true
fits (rsa keys) (Scheme.rsa_pss_sha256 n) = true
fits (rsa keys) (Scheme.rsa_pss_sha384 n) = true
fits (rsa keys) (Scheme.rsa_pss_sha512 n) = true
fits (rsa keys) (Scheme.rsa_pkcs1_sha256 n) = true
fits (rsa keys) (Scheme.rsa_pkcs1_sha384 n) = true
fits (rsa keys) (Scheme.rsa_pkcs1_sha512 n) = true
fits _ _ = false

-- the error of a key and a scheme that do not go together
abbrev pub IsMismatch : {A : Type 0} → Outcome A → Type 0
IsMismatch r =
    (key_typ scheme : String) × (r ≡ err (unmatched_key_and_signing_scheme key_typ scheme))

err_of : {A : Type 0} {x y : SigstoreError} → ◌≡◌ {A = Outcome A} (err x) (err y) → x ≡ y
err_of h = cc

refused :
    {A : Type 0} (key_typ scheme : String)
    → IsMismatch {A = A} (err (unmatched_key_and_signing_scheme key_typ scheme))
      ↔ (◌≡◌ {A = Bool} false false)
refused key_typ scheme = (λ p. refl, λ h. (key_typ, scheme, refl))

made : {A : Type 0} (a : A) → IsMismatch (ok a) ↔ (◌≡◌ {A = Bool} true false)
made a = (λ p. let (k, s, e) = p in cc, λ h. cc)

-- what is made, or fails for another reason, is no mismatch
no_mismatch :
    {A : Type 0} (r : Outcome A) → ¬ IsMismatch r → IsMismatch r ↔ (◌≡◌ {A = Bool} true false)
no_mismatch r h = (λ p. elim (h p) [ ], λ e. cc)

pkcs8_only :
    {A : Type 0} (f : String → String) (r : Foreign A)
    → ¬ IsMismatch {A = A} (map_err (λ e. pkcs8_error (f e)) r)
pkcs8_only f (ok a) p = let (k, s, e) = p in cc
pkcs8_only f (err x) p = let (k, s, e) = p in cc

step_mismatch :
    {A B : Type 0} (r : Outcome A) (f : A → Outcome B)
    → ¬ IsMismatch r
    → ((a : A) → ¬ IsMismatch (f a))
    → ¬ IsMismatch (r >>= f)
step_mismatch (ok a) f first next p = next a p
step_mismatch (err x) f first next p = let (k, s, e) = p in first (k, s, ap err (err_of e))

map_mismatch :
    {A B : Type 0} (f : A → B) (r : Outcome A) → ¬ IsMismatch r → ¬ IsMismatch (map_ok f r)
map_mismatch f (ok a) h p = let (k, s, e) = p in cc
map_mismatch f (err x) h p = let (k, s, e) = p in h (k, s, ap err (err_of e))

module _ {L : Libs} (S : SigningLibs L) where
  ec_no_mismatch :
      (c : EllipticCurve) (keys : EcdsaKeys S c) → ¬ IsMismatch (Ec.from_ecdsa_keys S c keys)
  unfolding Ec.from_ecdsa_keys Ec.private_key_to_der
  ec_no_mismatch c keys =
      step_mismatch (map_err _ (S.secret_to_pkcs8_der c keys.ec_seckey)) _
        (pkcs8_only (λ e. e) (S.secret_to_pkcs8_der c keys.ec_seckey))
        (λ der.
          step_mismatch (map_err _ (S.ec_signing_from_pkcs8_der c der)) _
            (pkcs8_only _ (S.ec_signing_from_pkcs8_der c der)) (λ k p. let (x, y, e) = p in cc))

  -- The mismatch of key and scheme is reported exactly when the kind of the key does not sign by
  -- the scheme.
  pub to_sigstore_signer-IsMismatch :
      (keys : SigStoreKeyPair S) (scheme : Scheme.SigningScheme)
      → IsMismatch (to_sigstore_signer S keys scheme) ↔ (fits keys scheme ≡ false)
  unfolding to_sigstore_signer ecdsa_signer ed25519_signer unmatched Ed25519.from_ed25519_keys
  to_sigstore_signer-IsMismatch (ecdsa (on_p256 keys)) Scheme.ecdsa_p256_sha256_asn1 =
      no_mismatch _ (map_mismatch _ (Ec.from_ecdsa_keys S p256 keys) (ec_no_mismatch p256 keys))
  to_sigstore_signer-IsMismatch (ecdsa (on_p256 keys)) Scheme.ecdsa_p384_sha384_asn1 = refused _ _
  to_sigstore_signer-IsMismatch (ecdsa (on_p256 keys)) Scheme.ed25519 = refused _ _
  to_sigstore_signer-IsMismatch (ecdsa (on_p256 keys)) (Scheme.rsa_pss_sha256 n) = refused _ _
  to_sigstore_signer-IsMismatch (ecdsa (on_p256 keys)) (Scheme.rsa_pss_sha384 n) = refused _ _
  to_sigstore_signer-IsMismatch (ecdsa (on_p256 keys)) (Scheme.rsa_pss_sha512 n) = refused _ _
  to_sigstore_signer-IsMismatch (ecdsa (on_p256 keys)) (Scheme.rsa_pkcs1_sha256 n) = refused _ _
  to_sigstore_signer-IsMismatch (ecdsa (on_p256 keys)) (Scheme.rsa_pkcs1_sha384 n) = refused _ _
  to_sigstore_signer-IsMismatch (ecdsa (on_p256 keys)) (Scheme.rsa_pkcs1_sha512 n) = refused _ _
  to_sigstore_signer-IsMismatch (ecdsa (on_p384 keys)) Scheme.ecdsa_p256_sha256_asn1 = refused _ _
  to_sigstore_signer-IsMismatch (ecdsa (on_p384 keys)) Scheme.ecdsa_p384_sha384_asn1 =
      no_mismatch _ (map_mismatch _ (Ec.from_ecdsa_keys S p384 keys) (ec_no_mismatch p384 keys))
  to_sigstore_signer-IsMismatch (ecdsa (on_p384 keys)) Scheme.ed25519 = refused _ _
  to_sigstore_signer-IsMismatch (ecdsa (on_p384 keys)) (Scheme.rsa_pss_sha256 n) = refused _ _
  to_sigstore_signer-IsMismatch (ecdsa (on_p384 keys)) (Scheme.rsa_pss_sha384 n) = refused _ _
  to_sigstore_signer-IsMismatch (ecdsa (on_p384 keys)) (Scheme.rsa_pss_sha512 n) = refused _ _
  to_sigstore_signer-IsMismatch (ecdsa (on_p384 keys)) (Scheme.rsa_pkcs1_sha256 n) = refused _ _
  to_sigstore_signer-IsMismatch (ecdsa (on_p384 keys)) (Scheme.rsa_pkcs1_sha384 n) = refused _ _
  to_sigstore_signer-IsMismatch (ecdsa (on_p384 keys)) (Scheme.rsa_pkcs1_sha512 n) = refused _ _
  to_sigstore_signer-IsMismatch (ed25519 keys) Scheme.ecdsa_p256_sha256_asn1 = refused _ _
  to_sigstore_signer-IsMismatch (ed25519 keys) Scheme.ecdsa_p384_sha384_asn1 = refused _ _
  to_sigstore_signer-IsMismatch (ed25519 keys) Scheme.ed25519 = made _
  to_sigstore_signer-IsMismatch (ed25519 keys) (Scheme.rsa_pss_sha256 n) = refused _ _
  to_sigstore_signer-IsMismatch (ed25519 keys) (Scheme.rsa_pss_sha384 n) = refused _ _
  to_sigstore_signer-IsMismatch (ed25519 keys) (Scheme.rsa_pss_sha512 n) = refused _ _
  to_sigstore_signer-IsMismatch (ed25519 keys) (Scheme.rsa_pkcs1_sha256 n) = refused _ _
  to_sigstore_signer-IsMismatch (ed25519 keys) (Scheme.rsa_pkcs1_sha384 n) = refused _ _
  to_sigstore_signer-IsMismatch (ed25519 keys) (Scheme.rsa_pkcs1_sha512 n) = refused _ _
  to_sigstore_signer-IsMismatch (rsa keys) Scheme.ecdsa_p256_sha256_asn1 = refused _ _
  to_sigstore_signer-IsMismatch (rsa keys) Scheme.ecdsa_p384_sha384_asn1 = refused _ _
  to_sigstore_signer-IsMismatch (rsa keys) Scheme.ed25519 = refused _ _
  to_sigstore_signer-IsMismatch (rsa keys) (Scheme.rsa_pss_sha256 n) = made _
  to_sigstore_signer-IsMismatch (rsa keys) (Scheme.rsa_pss_sha384 n) = made _
  to_sigstore_signer-IsMismatch (rsa keys) (Scheme.rsa_pss_sha512 n) = made _
  to_sigstore_signer-IsMismatch (rsa keys) (Scheme.rsa_pkcs1_sha256 n) = made _
  to_sigstore_signer-IsMismatch (rsa keys) (Scheme.rsa_pkcs1_sha384 n) = made _
  to_sigstore_signer-IsMismatch (rsa keys) (Scheme.rsa_pkcs1_sha512 n) = made _
