-- ===== src/Crypto/SigningKey/Importing.antt =====
-- src/crypto/signing_key: what reading makes of a PKCS#8 document, by the kind of its key.
use sigstore_rs.Prelude.{
  String, Bytes, ◌≡◌, sym, ap, ◌∙◌, Option, none, some, ok, err, map_err, ok_or, ◌>>=◌, as_bytes,
  >>=-eq-ok, ok-injective, some-injective,
}
use sigstore_rs.Errors.{SigstoreError, Outcome, Foreign}
use sigstore_rs.Crypto.Libs.{Libs, Pem}
use sigstore_rs.Crypto.Kdf.{when_ok}
use sigstore_rs.Crypto.SigningKey.{
  EllipticCurve, p256, p384, SigningLibs, then_try, read_info, sigstore_private_key_pem_label,
}
use sigstore_rs.Crypto.SigningKey.Ec
use sigstore_rs.Crypto.SigningKey.Ec.{EcdsaKeys}
use sigstore_rs.Crypto.SigningKey.Ed25519
use sigstore_rs.Crypto.SigningKey.Ed25519.{Ed25519Keys}
use sigstore_rs.Crypto.SigningKey.Rsa
use sigstore_rs.Crypto.SigningKey.Rsa.{RsaKeys}
use sigstore_rs.Crypto.SigningKey.Ecdsa.{or_try_panicking}
use sigstore_rs.Crypto.SigningKey.Laws.{IsEcPair, IsEdPair, IsRsaPair}

-- steps of a chain whose result is known
step_ok :
    {A B : Type 0} (fail : String → SigstoreError) (r : Foreign A) (f : A → Outcome B) (a : A)
    {x : Outcome B}
    → r ≡ ok a
    → f a ≡ x
    → (map_err fail r >>= f) ≡ x
step_ok fail (ok b) f a e h = ap f (ok-injective e) ∙ h
step_ok fail (err y) f a e h = cc

step_some :
    {A B : Type 0} (fail : SigstoreError) (o : Option A) (f : A → Outcome B) (a : A) {x : Outcome B}
    → o ≡ some a
    → f a ≡ x
    → (ok_or fail o >>= f) ≡ x
step_some fail (some b) f a e h = ap f (some-injective e) ∙ h
step_some fail none f a e h = cc

pub when-ok :
    {A B : Type 0} (fail : String → SigstoreError) (r : Foreign A) (f : A → Option (Outcome B))
    (a : A) {x : Option (Outcome B)}
    → r ≡ ok a
    → f a ≡ x
    → when_ok (map_err fail r) f ≡ x
when-ok fail (ok b) f a e h = ap f (ok-injective e) ∙ h
when-ok fail (err y) f a e h = cc

pub then_try-some :
    {A B : Type 0} (o : Option (Outcome A)) (f : A → Outcome B) {b : B}
    → then_try o f ≡ some (ok b)
    → (a : A) × (o ≡ some (ok a)) × (f a ≡ ok b)
then_try-some (some r) f h = let (a, e, g) = >>=-eq-ok r f (some-injective h) in (a, ap some e, g)
then_try-some none f h = cc

-- the tries, by what the first gives
pub first_succeeds :
    {A B : Type 0} (o : Option (Outcome A)) (f : A → B) (next : Option (Outcome B)) (a : A)
    → o ≡ some (ok a)
    → or_try_panicking o f next ≡ some (ok (f a))
first_succeeds o f next a e = ap (λ x. or_try_panicking x f next) e

pub first_fails :
    {A B : Type 0} (o : Option (Outcome A)) (f : A → B) (next : Option (Outcome B))
    (e : SigstoreError) {x : Option (Outcome B)}
    → o ≡ some (err e)
    → next ≡ x
    → or_try_panicking o f next ≡ x
first_fails o f next e h g = ap (λ y. or_try_panicking y f next) h ∙ g

module _ {L : Libs} (S : SigningLibs L) where
  abbrev pub Refuses : {A : Type 0} → Foreign A → Type 0
  Refuses r = (e : String) × (r ≡ err e)

  -- A PKCS#8 document is read back by its own algorithm, and refused by those tried before.
  pub record IsPkcs8 : Type 0 where
    pub armored :
        (contents : Bytes)
        → let file : Pem = record { tag = sigstore_private_key_pem_label; contents = contents } in
          L.pem_parse (as_bytes (S.pem_encode file)) ≡ ok file
    pub on_ec :
        (c : EllipticCurve) (k : S.SecretKey c) (der : Bytes)
        → S.secret_to_pkcs8_der c k ≡ ok der
        → (info : S.PrivateKeyInfo) × (S.private_key_info der ≡ ok info)
          × (S.secret_from_sec1_der c (S.private_key info) ≡ ok k)
    pub p384_apart :
        (k : S.SecretKey p384) (der : Bytes) (info : S.PrivateKeyInfo)
        → S.secret_to_pkcs8_der p384 k ≡ ok der
        → S.private_key_info der ≡ ok info
        → Refuses (S.secret_from_sec1_der p256 (S.private_key info))
    pub on_ed25519 :
        (k : S.EdSigningKey) (der : Bytes)
        → S.ed_to_pkcs8_der k ≡ ok der
        → (info : S.PrivateKeyInfo) × (pair : S.KeypairBytes) × (bytes : Bytes)
          × (S.private_key_info der ≡ ok info)
          × (S.keypair_from_info info ≡ ok pair)
          × (S.keypair_to_bytes pair ≡ some bytes)
          × (S.ed_from_keypair_bytes bytes ≡ ok k)
    pub ed25519_apart :
        (k : S.EdSigningKey) (der : Bytes) (info : S.PrivateKeyInfo) (c : EllipticCurve)
        → S.ed_to_pkcs8_der k ≡ ok der
        → S.private_key_info der ≡ ok info
        → Refuses (S.secret_from_sec1_der c (S.private_key info))
    pub on_rsa :
        (k : S.RsaPrivateKey) (der : Bytes)
        → S.rsa_to_pkcs8_der k ≡ ok der
        → (info : S.PrivateKeyInfo) × (S.private_key_info der ≡ ok info)
          × (S.rsa_from_info info ≡ ok k)
    pub rsa_apart :
        (k : S.RsaPrivateKey) (der : Bytes) (info : S.PrivateKeyInfo)
        → S.rsa_to_pkcs8_der k ≡ ok der
        → S.private_key_info der ≡ ok info
        → ((c : EllipticCurve) → Refuses (S.secret_from_sec1_der c (S.private_key info)))
          × Refuses (S.keypair_from_info info)

  step_err :
      {A B : Type 0} (fail : String → SigstoreError) (r : Foreign A) (f : A → Outcome B)
      → Refuses r
      → (e : SigstoreError) × ((map_err fail r >>= f) ≡ err e)
  step_err fail r f refuses = let (e, h) = refuses in (fail e, ap (λ x. map_err fail x >>= f) h)

  -- reading fails
  abbrev pub Fails : {A : Type 0} → Outcome A → Type 0
  Fails r = (e : SigstoreError) × (r ≡ err e)

  pub ec_reads :
      (c : EllipticCurve) (keys : EcdsaKeys S c) (der : Bytes) (info : S.PrivateKeyInfo)
      → IsEcPair S c keys
      → S.private_key_info der ≡ ok info
      → S.secret_from_sec1_der c (S.private_key info) ≡ ok keys.ec_seckey
      → Ec.read_sec1 S c der ≡ ok keys
  unfolding Ec.read_sec1 Ec.from_private_key read_info
  ec_reads c keys der info pair e f = step_ok _ (S.private_key_info der) _ info e (
      step_ok _ (S.secret_from_sec1_der c (S.private_key info)) _ keys.ec_seckey f
        (ap (λ p. ok (record { ec_seckey = keys.ec_seckey; public_key = p })) (sym pair)))

  pub ec-Refuses :
      (c : EllipticCurve) (der : Bytes) (info : S.PrivateKeyInfo)
      → S.private_key_info der ≡ ok info
      → Refuses (S.secret_from_sec1_der c (S.private_key info))
      → Fails (Ec.read_sec1 S c der)
  unfolding Ec.read_sec1 read_info
  ec-Refuses c der info e refuses =
      let (x, h) = step_err _ (S.secret_from_sec1_der c (S.private_key info)) _ refuses in
      (x, step_ok _ (S.private_key_info der) _ info e h)

  pub ed_reads :
      (keys : Ed25519Keys S) (der : Bytes) (info : S.PrivateKeyInfo) (pair : S.KeypairBytes)
      (bytes : Bytes)
      → IsEdPair S keys
      → S.private_key_info der ≡ ok info
      → S.keypair_from_info info ≡ ok pair
      → S.keypair_to_bytes pair ≡ some bytes
      → S.ed_from_keypair_bytes bytes ≡ ok keys.signing_key
      → Ed25519.read_pkcs8 S der ≡ ok keys
  unfolding Ed25519.read_pkcs8 Ed25519.from_key_pair_bytes Ed25519.of_signing_key read_info
  ed_reads keys der info pair bytes same e f g h = step_ok _ (S.private_key_info der) _ info e (
      step_ok _ (S.keypair_from_info info) _ pair f (
        step_some _ (S.keypair_to_bytes pair) _ bytes g (
          step_ok _ (S.ed_from_keypair_bytes bytes) _ keys.signing_key h (
            ap (λ v. ok (record { signing_key = keys.signing_key; verifying_key = v }))
              (sym same)))))

  pub ed-Refuses :
      (der : Bytes) (info : S.PrivateKeyInfo)
      → S.private_key_info der ≡ ok info
      → Refuses (S.keypair_from_info info)
      → Fails (Ed25519.read_pkcs8 S der)
  unfolding Ed25519.read_pkcs8 read_info
  ed-Refuses der info e refuses =
      let (x, h) = step_err _ (S.keypair_from_info info) _ refuses in
      (x, step_ok _ (S.private_key_info der) _ info e h)

  pub rsa_reads :
      (keys : RsaKeys S) (der : Bytes) (info : S.PrivateKeyInfo)
      → IsRsaPair S keys
      → S.private_key_info der ≡ ok info
      → S.rsa_from_info info ≡ ok keys.private_key
      → Rsa.read_pkcs8 S der ≡ ok keys
  unfolding Rsa.read_pkcs8 Rsa.from_private_key read_info
  rsa_reads keys der info pair e f = step_ok _ (S.private_key_info der) _ info e (
      step_ok _ (S.rsa_from_info info) _ keys.private_key f
        (ap (λ p. ok (record { private_key = keys.private_key; public_key = p })) (sym pair)))
