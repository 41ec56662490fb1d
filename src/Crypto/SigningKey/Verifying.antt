-- ===== src/Crypto/SigningKey/Verifying.antt =====
-- src/crypto/signing_key/mod.rs with src/crypto/verification_key.rs: the verification key that a signer
-- derives accepts what the signer signs.
use sigstore_rs.Prelude.{
  String, Bytes, ◌≡◌, refl, sym, ap, ◌∙◌, subst, ok, map_err, map_ok, as_bytes, >>=-eq-ok,
  map_err-eq-ok, map_ok-eq-ok, ok-injective,
}
use sigstore_rs.Errors.{SigstoreError, Outcome, Foreign}
use sigstore_rs.Crypto.Libs.{Libs, Pem}
use sigstore_rs.Crypto.Libs
use sigstore_rs.Crypto.Scheme
use sigstore_rs.Crypto.VerificationKey
use sigstore_rs.Crypto.VerificationKey.{CosignVerificationKey, raw, verify_signature, rsa_key}
use sigstore_rs.Crypto.VerificationKey.Accepts.{Accepts, verify_signature_iff}
use sigstore_rs.Crypto.SigningKey.{EllipticCurve, p256, p384, Source, SigningLibs}
use sigstore_rs.Crypto.SigningKey.Ec
use sigstore_rs.Crypto.SigningKey.Ec.{EcdsaKeys, EcdsaSigner}
use sigstore_rs.Crypto.SigningKey.Ed25519
use sigstore_rs.Crypto.SigningKey.Ed25519.{Ed25519Keys}
use sigstore_rs.Crypto.SigningKey.Rsa
use sigstore_rs.Crypto.SigningKey.Rsa.{
  RsaKeys, RsaSigner, DigestAlgorithm, PaddingScheme, sha256, sha384, sha512, pss, pkcs1v15,
}
use sigstore_rs.Crypto.SigningKey.Signer
use sigstore_rs.Crypto.SigningKey.Signer.{SigStoreSigner}
use sigstore_rs.Crypto.SigningKey.Laws.{IsSigner, IsEcSigner, IsEdPair, IsRsaPair, SignVerifies}

module _ {L : Libs} (S : SigningLibs L) where
  -- the two encodings that a verification key of a curve is read through
  ec_read :
      (c : EllipticCurve) (keys : EcdsaKeys S c) (scheme : Scheme.SigningScheme)
      {key : CosignVerificationKey L}
      → Ec.to_verification_key S c keys scheme ≡ ok key
      → (pem : String) × (parsed : Pem) × (S.ec_public_to_pem c keys.public_key ≡ ok pem)
        × (L.pem_parse (as_bytes pem) ≡ ok parsed)
        × (VerificationKey.from_der L parsed.contents scheme ≡ ok key)
  unfolding Ec.to_verification_key Ec.public_key_to_pem VerificationKey.from_pem
  ec_read c keys scheme h =
      let (pem, e, h₁) = >>=-eq-ok (map_err _ (S.ec_public_to_pem c keys.public_key)) _ h in
      let (parsed, f, h₂) = >>=-eq-ok (map_err _ (L.pem_parse (as_bytes pem))) _ h₁ in
      (pem, parsed, map_err-eq-ok _ _ e, map_err-eq-ok _ _ f, h₂)

  -- a key made from what a library read
  read_key :
      {A : Type 0} (make : A → CosignVerificationKey L) (fail : String → SigstoreError)
      (r : Foreign A) {key : CosignVerificationKey L}
      → map_ok make (map_err fail r) ≡ ok key
      → (a : A) × (r ≡ ok a) × (make a ≡ key)
  read_key make fail r h =
      let (a, e, same) = map_ok-eq-ok make (map_err fail r) h in (a, map_err-eq-ok fail r e, same)

  module _ (laws : SignVerifies S) (rng : Source) (msg sig : Bytes) where
    p256-Accepts :
        (inner : EcdsaSigner S p256) (key : CosignVerificationKey L)
        → IsEcSigner S p256 inner
        → Ec.to_verification_key S p256 inner.ecdsa_keys Scheme.ecdsa_p256_sha256_asn1 ≡ ok key
        → Ec.sign S p256 inner msg ≡ ok sig
        → Accepts L key sig msg
    unfolding Ec.sign VerificationKey.from_der
    p256-Accepts inner key fits h signed =
        let (pem, parsed, printed, read, h₁) = ec_read p256 inner.ecdsa_keys _ h in
        let (k, e, same) =
          read_key VerificationKey.ecdsa_p256_sha256_asn1 _ (L.p256_from_der parsed.contents) h₁ in
        subst (λ v. Accepts L v sig msg) same
          (laws.on_p256 inner.ecdsa_keys.ec_seckey fits.der inner.signing_key pem parsed k
            (L.sha256_digest msg) sig fits.exported fits.imported
            (ap (S.ec_public_to_pem p256) (sym fits.pair) ∙ printed) read e
            (map_err-eq-ok _ _ signed))

    p384-Accepts :
        (inner : EcdsaSigner S p384) (key : CosignVerificationKey L)
        → IsEcSigner S p384 inner
        → Ec.to_verification_key S p384 inner.ecdsa_keys Scheme.ecdsa_p384_sha384_asn1 ≡ ok key
        → Ec.sign S p384 inner msg ≡ ok sig
        → Accepts L key sig msg
    unfolding Ec.sign VerificationKey.from_der
    p384-Accepts inner key fits h signed =
        let (pem, parsed, printed, read, h₁) = ec_read p384 inner.ecdsa_keys _ h in
        let (k, e, same) =
          read_key VerificationKey.ecdsa_p384_sha384_asn1 _ (L.p384_from_der parsed.contents) h₁ in
        subst (λ v. Accepts L v sig msg) same
          (laws.on_p384 inner.ecdsa_keys.ec_seckey fits.der inner.signing_key pem parsed k
            (L.sha384_digest msg) sig fits.exported fits.imported
            (ap (S.ec_public_to_pem p384) (sym fits.pair) ∙ printed) read e
            (map_err-eq-ok _ _ signed))

    ed-Accepts :
        (keys : Ed25519Keys S) (key : CosignVerificationKey L)
        → IsEdPair S keys
        → Ed25519.to_verification_key S keys Scheme.ed25519 ≡ ok key
        → Ed25519.sign S (record { key_pair = keys }) msg ≡ ok sig
        → Accepts L key sig msg
    unfolding Ed25519.sign Ed25519.to_verification_key Ed25519.public_key_to_der
        VerificationKey.from_der
    ed-Accepts keys key pair h signed =
        let (der, printed, h₁) =
          >>=-eq-ok (map_err _ (S.ed_public_to_der keys.verifying_key)) _ h in
        let (k, e, same) = read_key VerificationKey.ed25519 _ (L.ed25519_from_der der) h₁ in
        subst (λ v. Accepts L v sig msg) same
          (laws.on_ed25519 keys.signing_key der k msg sig
            (ap S.ed_public_to_der (sym pair) ∙ map_err-eq-ok _ _ printed) e
            (map_err-eq-ok _ _ signed))

    -- the public key that an RSA verification key is made from
    rsa_read :
        (keys : RsaKeys S) (scheme : Scheme.SigningScheme)
        (make : L.RsaPublicKey → CosignVerificationKey L) {key : CosignVerificationKey L}
        → IsRsaPair S keys
        → ((der : Bytes) → VerificationKey.from_der L der scheme ≡ map_ok make (rsa_key L der))
        → Rsa.to_verification_key S keys scheme ≡ ok key
        → (der : Bytes) × (k : L.RsaPublicKey) × (S.rsa_public_to_der
              (S.rsa_public keys.private_key)
            ≡ ok der)
          × (L.rsa_from_der der ≡ ok k)
          × (make k ≡ key)
    unfolding Rsa.to_verification_key Rsa.public_key_to_der rsa_key
    rsa_read keys scheme make pair reads h =
        let (der, printed, h₁) = >>=-eq-ok (map_err _ (S.rsa_public_to_der keys.public_key)) _ h in
        let (k, e, same) = read_key make _ (L.rsa_from_der der) (sym (reads der) ∙ h₁) in
        (der, k, ap S.rsa_public_to_der (sym pair) ∙ map_err-eq-ok _ _ printed, e, same)

    rsa-Accepts :
        (keys : RsaKeys S) (scheme : Scheme.SigningScheme)
        (make : L.RsaPublicKey → CosignVerificationKey L) (made : Bytes)
        (key : CosignVerificationKey L)
        → IsRsaPair S keys
        → ((der : Bytes) → VerificationKey.from_der L der scheme ≡ map_ok make (rsa_key L der))
        → Rsa.to_verification_key S keys scheme ≡ ok key
        → ◌≡◌ {A = Outcome Bytes} (ok made) (ok sig)
        → ((der : Bytes) (k : L.RsaPublicKey)
            → S.rsa_public_to_der (S.rsa_public keys.private_key) ≡ ok der
            → L.rsa_from_der der ≡ ok k
            → Accepts L (make k) made msg)
        → Accepts L key sig msg
    rsa-Accepts keys scheme make made key pair reads h signed accepts =
        let (der, k, printed, read, same) = rsa_read keys scheme make pair reads h in
        subst (λ v. Accepts L v sig msg) same
          (subst (λ x. Accepts L (make k) x msg) (ok-injective signed) (accepts der k printed read))

    -- A signer whose signing key belongs to its key pair: the verification key derived from it
    -- accepts its signatures.
    pub to_verification_key-Accepts :
        (signer : SigStoreSigner S) (key : CosignVerificationKey L)
        → IsSigner S signer
        → Signer.to_verification_key signer ≡ ok key
        → Signer.sign signer rng msg ≡ ok sig
        → Accepts L key sig msg
    unfolding Signer.to_verification_key Signer.signing_scheme Signer.inner_verification_key
        Signer.sign Rsa.sign Rsa.from_rsa_keys Rsa.rsa_keys VerificationKey.from_der
    to_verification_key-Accepts (Signer.ecdsa_p256_sha256_asn1 inner) key fits h signed =
        p256-Accepts inner key fits h signed
    to_verification_key-Accepts (Signer.ecdsa_p384_sha384_asn1 inner) key fits h signed =
        p384-Accepts inner key fits h signed
    to_verification_key-Accepts (Signer.ed25519 inner) key fits h signed =
        ed-Accepts inner.key_pair key fits h signed
    to_verification_key-Accepts (Signer.rsa_pss_sha256 inner) key fits h signed =
        rsa-Accepts fits.keys (Scheme.rsa_pss_sha256 0)
          (λ k. VerificationKey.rsa_pss_sha256 (L.pss_new Libs.sha256 k)) _ key fits.pair
          (λ der. refl)
          (subst
            (λ i. Rsa.to_verification_key S (Rsa.rsa_keys S i) (Scheme.rsa_pss_sha256 0) ≡ ok key)
            fits.same h)
          (subst (λ i. Rsa.sign S i rng msg ≡ ok sig) fits.same signed)
          (λ der k printed read.
            laws.on_pss Libs.sha256 fits.keys.private_key der k rng msg printed read)
    to_verification_key-Accepts (Signer.rsa_pss_sha384 inner) key fits h signed =
        rsa-Accepts fits.keys (Scheme.rsa_pss_sha384 0)
          (λ k. VerificationKey.rsa_pss_sha384 (L.pss_new Libs.sha384 k)) _ key fits.pair
          (λ der. refl)
          (subst
            (λ i. Rsa.to_verification_key S (Rsa.rsa_keys S i) (Scheme.rsa_pss_sha384 0) ≡ ok key)
            fits.same h)
          (subst (λ i. Rsa.sign S i rng msg ≡ ok sig) fits.same signed)
          (λ der k printed read.
            laws.on_pss Libs.sha384 fits.keys.private_key der k rng msg printed read)
    to_verification_key-Accepts (Signer.rsa_pss_sha512 inner) key fits h signed =
        rsa-Accepts fits.keys (Scheme.rsa_pss_sha512 0)
          (λ k. VerificationKey.rsa_pss_sha512 (L.pss_new Libs.sha512 k)) _ key fits.pair
          (λ der. refl)
          (subst
            (λ i. Rsa.to_verification_key S (Rsa.rsa_keys S i) (Scheme.rsa_pss_sha512 0) ≡ ok key)
            fits.same h)
          (subst (λ i. Rsa.sign S i rng msg ≡ ok sig) fits.same signed)
          (λ der k printed read.
            laws.on_pss Libs.sha512 fits.keys.private_key der k rng msg printed read)
    to_verification_key-Accepts (Signer.rsa_pkcs1_sha256 inner) key fits h signed =
        rsa-Accepts fits.keys (Scheme.rsa_pkcs1_sha256 0)
          (λ k. VerificationKey.rsa_pkcs1_sha256 (L.pkcs1_new_with_prefix Libs.sha256 k)) _ key
          fits.pair (λ der. refl)
          (subst
            (λ i. Rsa.to_verification_key S (Rsa.rsa_keys S i) (Scheme.rsa_pkcs1_sha256 0) ≡ ok key)
            fits.same h)
          (subst (λ i. Rsa.sign S i rng msg ≡ ok sig) fits.same signed)
          (λ der k printed read.
            laws.on_pkcs1 Libs.sha256 fits.keys.private_key der k rng msg printed read)
    to_verification_key-Accepts (Signer.rsa_pkcs1_sha384 inner) key fits h signed =
        rsa-Accepts fits.keys (Scheme.rsa_pkcs1_sha384 0)
          (λ k. VerificationKey.rsa_pkcs1_sha384 (L.pkcs1_new_with_prefix Libs.sha384 k)) _ key
          fits.pair (λ der. refl)
          (subst
            (λ i. Rsa.to_verification_key S (Rsa.rsa_keys S i) (Scheme.rsa_pkcs1_sha384 0) ≡ ok key)
            fits.same h)
          (subst (λ i. Rsa.sign S i rng msg ≡ ok sig) fits.same signed)
          (λ der k printed read.
            laws.on_pkcs1 Libs.sha384 fits.keys.private_key der k rng msg printed read)
    to_verification_key-Accepts (Signer.rsa_pkcs1_sha512 inner) key fits h signed =
        rsa-Accepts fits.keys (Scheme.rsa_pkcs1_sha512 0)
          (λ k. VerificationKey.rsa_pkcs1_sha512 (L.pkcs1_new_with_prefix Libs.sha512 k)) _ key
          fits.pair (λ der. refl)
          (subst
            (λ i. Rsa.to_verification_key S (Rsa.rsa_keys S i) (Scheme.rsa_pkcs1_sha512 0) ≡ ok key)
            fits.same h)
          (subst (λ i. Rsa.sign S i rng msg ≡ ok sig) fits.same signed)
          (λ der k printed read.
            laws.on_pkcs1 Libs.sha512 fits.keys.private_key der k rng msg printed read)

    pub verify_signature-sign :
        (signer : SigStoreSigner S) (key : CosignVerificationKey L)
        → IsSigner S signer
        → Signer.from_sigstore_signer signer ≡ ok key
        → Signer.sign signer rng msg ≡ ok sig
        → verify_signature L key (raw sig) msg ≡ ok tt
    unfolding Signer.from_sigstore_signer
    verify_signature-sign signer key fits h signed =
        (verify_signature_iff L key (raw sig) msg).1
          (sig, refl, to_verification_key-Accepts signer key fits h signed)
