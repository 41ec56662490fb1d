-- ===== src/Crypto/SigningKey/Roundtrip.antt =====
-- src/crypto/signing_key: a key pair that is exported under a password is imported again.
use sigstore_rs.Prelude.{
  ℕ, String, Bytes, ◌≡◌, refl, ap, ◌∙◌, subst, Option, some, ◌∷◌, ok, err, map_err, as_bytes,
  map_err-eq-ok, ok-injective,
}
use sigstore_rs.Errors.{SigstoreError, Outcome, Foreign}
use sigstore_rs.Crypto.Libs.{Libs, Pem}
use sigstore_rs.Crypto.Kdf
use sigstore_rs.Crypto.Kdf.{KdfLibs, when_ok}
use sigstore_rs.Crypto.Kdf.Sealing.{IsSerialisation, IsBox, decrypt-encrypt, when_ok-some}
use sigstore_rs.Crypto.SigningKey.{
  EllipticCurve, p256, p384, Source, SigningLibs, then_try, decrypted_der, encrypted_pem,
  sigstore_private_key_pem_label,
}
use sigstore_rs.Crypto.SigningKey.Ec
use sigstore_rs.Crypto.SigningKey.Ec.{EcdsaKeys}
use sigstore_rs.Crypto.SigningKey.Ed25519
use sigstore_rs.Crypto.SigningKey.Ed25519.{Ed25519Keys}
use sigstore_rs.Crypto.SigningKey.Rsa
use sigstore_rs.Crypto.SigningKey.Rsa.{RsaKeys}
use sigstore_rs.Crypto.SigningKey.Ecdsa
use sigstore_rs.Crypto.SigningKey.Ecdsa.{on_p256, on_p384, or_try_panicking}
use sigstore_rs.Crypto.SigningKey.KeyPair
use sigstore_rs.Crypto.SigningKey.KeyPair.{SigStoreKeyPair, ecdsa, ed25519, rsa}
use sigstore_rs.Crypto.SigningKey.Laws.{IsPair}
use sigstore_rs.Crypto.SigningKey.Importing.{
  IsPkcs8, Refuses, when-ok, then_try-some, first_succeeds, first_fails, ec_reads, ec-Refuses,
  ed_reads, ed-Refuses, rsa_reads,
}

module _ {L : Libs} (S : SigningLibs L) where
  module _ (K : KdfLibs) (laws : IsPkcs8 S) (json : IsSerialisation K) (box : IsBox K) where
    -- a file written under a password that is not empty decrypts to the document
    opens :
        (source : Source) (plain : Outcome Bytes) (der : Bytes) (b : ℕ) (password : Bytes)
        (pem : String)
        → encrypted_pem S K source plain der (b ∷ password) ≡ some (ok pem)
        → decrypted_der L K (as_bytes pem) (b ∷ password) ≡ some (ok der)
    unfolding encrypted_pem decrypted_der
    opens source plain der b password pem h =
        let (contents, e, f) = then_try-some (Kdf.encrypt K source der (b ∷ password)) _ h in
        let file : Pem = record { tag = sigstore_private_key_pem_label; contents = contents } in
        subst (λ p. decrypted_der L K (as_bytes p) (b ∷ password) ≡ some (ok der)) (ok-injective f)
          (when-ok _ (L.pem_parse (as_bytes (S.pem_encode file))) _ file (laws.armored contents)
            (decrypt-encrypt K source der (b ∷ password) contents json box e))

    -- the document that an export encrypts
    exported :
        (r : Foreign Bytes) (fail : String → SigstoreError) (source : Source)
        (plain : Bytes → Outcome Bytes) (b : ℕ) (password : Bytes) (pem : String)
        → when_ok (map_err fail r) (λ der. encrypted_pem S K source (plain der) der (b ∷ password))
          ≡ some (ok pem)
        → (der : Bytes) × (r ≡ ok der)
          × (decrypted_der L K (as_bytes pem) (b ∷ password) ≡ some (ok der))
    exported r fail source plain b password pem h =
        let (der, e, f) = when_ok-some (map_err fail r) _ h in
        (der, map_err-eq-ok fail r e, opens source (plain der) der b password pem f)

    module _ (pem : Bytes) (password : Bytes) (der : Bytes)
        (read : decrypted_der L K pem password ≡ some (ok der)) where
      -- what each kind makes of the decrypted document
      imports :
          {A : Type 0} (f : Bytes → Outcome A) (a : Outcome A)
          → f der ≡ a
          → then_try (decrypted_der L K pem password) f ≡ some a
      imports f a e = ap (λ o. then_try o f) read ∙ ap some e

    -- a document that neither curve reads is passed on to the other kinds
    no_ecdsa :
        (pem password der : Bytes) (info : S.PrivateKeyInfo)
        {next x : Option (Outcome (SigStoreKeyPair S))}
        → decrypted_der L K pem password ≡ some (ok der)
        → S.private_key_info der ≡ ok info
        → ((c : EllipticCurve) → Refuses S (S.secret_from_sec1_der c (S.private_key info)))
        → next ≡ x
        → or_try_panicking (Ecdsa.from_encrypted_pem S K pem password) ecdsa next ≡ x
    unfolding Ecdsa.from_encrypted_pem Ec.from_encrypted_pem
    no_ecdsa pem password der info read i others h =
        let opened = imports pem password der read in
        let (x, f) = ec-Refuses S p256 der info i (others p256) in
        let (y, g) = ec-Refuses S p384 der info i (others p384) in
        first_fails _ ecdsa _ _
          (first_fails _ on_p256 _ x (opened (Ec.read_sec1 S p256) (err x) f) (
            first_fails _ on_p384 _ y
              (imports pem password der read (Ec.read_sec1 S p384) (err y) g) refl))
          h

    -- A key pair whose halves belong together, written under a password that is not empty, is read
    -- back under that password.
    pub from_encrypted_pem-private_key_to_encrypted_pem :
        (keys : SigStoreKeyPair S) (source : Source) (b : ℕ) (password : Bytes) (pem : String)
        → IsPair S keys
        → KeyPair.private_key_to_encrypted_pem S K source keys (b ∷ password) ≡ some (ok pem)
        → KeyPair.from_encrypted_pem S K (as_bytes pem) (b ∷ password) ≡ some (ok keys)
    unfolding KeyPair.private_key_to_encrypted_pem Ecdsa.private_key_to_encrypted_pem
        Ec.private_key_to_encrypted_pem Ec.private_key_to_der Ed25519.private_key_to_encrypted_pem
        Ed25519.private_key_to_der Rsa.private_key_to_encrypted_pem Rsa.private_key_to_der
        KeyPair.from_encrypted_pem Ecdsa.from_encrypted_pem Ec.from_encrypted_pem
        Ed25519.from_encrypted_pem Rsa.from_encrypted_pem
    from_encrypted_pem-private_key_to_encrypted_pem (ecdsa (on_p256 k)) source b password pem pair
          h =
        let (der, e, read) =
          exported (S.secret_to_pkcs8_der p256 k.ec_seckey) _ source _ b password pem h in
        let (info, i, s) = laws.on_ec p256 k.ec_seckey der e in
        let opened = imports (as_bytes pem) (b ∷ password) der read in
        first_succeeds _ ecdsa _ (on_p256 k) (
          first_succeeds _ on_p256 _ k
            (opened (Ec.read_sec1 S p256) (ok k) (ec_reads S p256 k der info pair i s)))
    from_encrypted_pem-private_key_to_encrypted_pem (ecdsa (on_p384 k)) source b password pem pair
          h =
        let (der, e, read) =
          exported (S.secret_to_pkcs8_der p384 k.ec_seckey) _ source _ b password pem h in
        let (info, i, s) = laws.on_ec p384 k.ec_seckey der e in
        let opened = imports (as_bytes pem) (b ∷ password) der read in
        let (x, f) = ec-Refuses S p256 der info i (laws.p384_apart k.ec_seckey der info e i) in
        first_succeeds _ ecdsa _ (on_p384 k) (
          first_fails _ on_p256 _ x (opened (Ec.read_sec1 S p256) (err x) f) (
            first_succeeds _ on_p384 _ k (
              imports (as_bytes pem) (b ∷ password) der read (Ec.read_sec1 S p384) (ok k)
                (ec_reads S p384 k der info pair i s))))
    from_encrypted_pem-private_key_to_encrypted_pem (ed25519 k) source b password pem pair h =
        let (der, e, read) =
          exported (S.ed_to_pkcs8_der k.signing_key) _ source _ b password pem h in
        let (info, kp, bytes, i, s, t, u) = laws.on_ed25519 k.signing_key der e in
        no_ecdsa (as_bytes pem) (b ∷ password) der info read i
          (λ c. laws.ed25519_apart k.signing_key der info c e i)
          (first_succeeds _ ed25519 _ k (
            imports (as_bytes pem) (b ∷ password) der read (Ed25519.read_pkcs8 S) (ok k)
              (ed_reads S k der info kp bytes pair i s t u)))
    from_encrypted_pem-private_key_to_encrypted_pem (rsa k) source b password pem pair h =
        let (der, e, read) =
          exported (S.rsa_to_pkcs8_der k.private_key) _ source _ b password pem h in
        let (info, i, s) = laws.on_rsa k.private_key der e in
        let (others, ed_refused) = laws.rsa_apart k.private_key der info e i in
        let opened = imports (as_bytes pem) (b ∷ password) der read in
        let (x, f) = ed-Refuses S der info i ed_refused in
        no_ecdsa (as_bytes pem) (b ∷ password) der info read i others (
          first_fails _ ed25519 _ x (opened (Ed25519.read_pkcs8 S) (err x) f) (
            first_succeeds _ rsa _ k (
              imports (as_bytes pem) (b ∷ password) der read (Rsa.read_pkcs8 S) (ok k)
                (rsa_reads S k der info pair i s))))
