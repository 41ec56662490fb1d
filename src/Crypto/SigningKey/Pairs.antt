-- ===== src/Crypto/SigningKey/Pairs.antt =====
-- src/crypto/signing_key: every way to read a key pair gives halves that belong together.
use sigstore_rs.Prelude.{
  String, Bytes, Bool, true, false, ◌==◌, ◌≡◌, refl, subst, Option, none, some, ok, err, map_err,
  ok_or, ◌>>=◌, >>=-eq-ok, ok-injective, some-injective, if◌then◌else◌,
}
use sigstore_rs.Errors.{SigstoreError, Outcome}
use sigstore_rs.Crypto.Libs.{Libs}
use sigstore_rs.Crypto.Kdf.{KdfLibs}
use sigstore_rs.Crypto.SigningKey.{
  EllipticCurve, p256, p384, SigningLibs, then_try, unsupported_tag, decrypted_der, read_info,
  read_document, private_key_pem_label, rsa_private_key_pem_label,
}
use sigstore_rs.Crypto.SigningKey.Ec
use sigstore_rs.Crypto.SigningKey.Ec.{EcdsaKeys}
use sigstore_rs.Crypto.SigningKey.Ed25519
use sigstore_rs.Crypto.SigningKey.Ed25519.{Ed25519Keys}
use sigstore_rs.Crypto.SigningKey.Rsa
use sigstore_rs.Crypto.SigningKey.Rsa.{RsaKeys}
use sigstore_rs.Crypto.SigningKey.Ecdsa
use sigstore_rs.Crypto.SigningKey.Ecdsa.{
  WrappedEcdsaKeys, on_p256, on_p384, or_try, or_try_panicking,
}
use sigstore_rs.Crypto.SigningKey.KeyPair
use sigstore_rs.Crypto.SigningKey.KeyPair.{SigStoreKeyPair, ecdsa, ed25519, rsa}
use sigstore_rs.Crypto.SigningKey.Laws.{IsEcPair, IsEdPair, IsRsaPair, IsWrappedPair, IsPair}

-- `Every P r`: the value of a successful result has P
abbrev Every : {A : Type 0} → (A → Type 0) → Outcome A → Type 0
Every {A} P r = (a : A) → r ≡ ok a → P a

abbrev EveryRun : {A : Type 0} → (A → Type 0) → Option (Outcome A) → Type 0
EveryRun {A} P r = (a : A) → r ≡ some (ok a) → P a

module _ {B : Type 0} (P : B → Type 0) where
  Every-ok : (b : B) → P b → Every P (ok b)
  Every-ok b p a h = subst P (ok-injective h) p

  Every-err : (e : SigstoreError) → Every P (err e)
  Every-err e a h = cc

module _ {A B : Type 0} where
  -- the last step of a chain decides
  Every-chain :
      (P : B → Type 0) (r : Outcome A) (f : A → Outcome B)
      → ((a : A) → Every P (f a))
      → Every P (r >>= f)
  Every-chain P r f each b h = let (a, e, g) = >>=-eq-ok r f h in each a b g

  EveryRun-try :
      (P : B → Type 0) (o : Option (Outcome A)) (f : A → Outcome B)
      → ((a : A) → Every P (f a))
      → EveryRun P (then_try o f)
  EveryRun-try P none f each b h = cc
  EveryRun-try P (some r) f each b h = Every-chain P r f each b (some-injective h)

  Every-or :
      (P : B → Type 0) (r : Outcome A) (f : A → B) (next : Outcome B)
      → Every (λ a. P (f a)) r
      → Every P next
      → Every P (or_try r f next)
  Every-or P (ok a) f next first second b h = subst P (ok-injective h) (first a refl)
  Every-or P (err e) f next first second b h = second b h

  EveryRun-or :
      (P : B → Type 0) (r : Option (Outcome A)) (f : A → B) (next : Option (Outcome B))
      → EveryRun (λ a. P (f a)) r
      → EveryRun P next
      → EveryRun P (or_try_panicking r f next)
  EveryRun-or P none f next first second b h = cc
  EveryRun-or P (some (ok a)) f next first second b h =
      subst P (ok-injective (some-injective h)) (first a refl)
  EveryRun-or P (some (err e)) f next first second b h = second b h

Every-if :
    {B : Type 0} (P : B → Type 0) (test : Bool) (r s : Outcome B)
    → Every P r
    → Every P s
    → Every P (if test then r else s)
Every-if P true r s first second = first
Every-if P false r s first second = second

module _ {L : Libs} (S : SigningLibs L) where
  module _ (c : EllipticCurve) where
    ec_made : (k : S.SecretKey c) → Every (IsEcPair S c) (Ec.from_private_key S c k)
    unfolding Ec.from_private_key
    ec_made k = Every-ok (IsEcPair S c) _ refl

    ec_pkcs8 : (what : String) (der : Bytes) → Every (IsEcPair S c) (Ec.read_pkcs8 S c what der)
    unfolding Ec.read_pkcs8
    ec_pkcs8 what der =
        Every-chain (IsEcPair S c) (map_err _ (S.secret_from_pkcs8_der c der)) _ ec_made

    ec_sec1 : (der : Bytes) → Every (IsEcPair S c) (Ec.read_sec1 S c der)
    unfolding Ec.read_sec1
    ec_sec1 der = Every-chain (IsEcPair S c) (read_info S der) _ (λ pkcs8.
        Every-chain (IsEcPair S c) (map_err _ (S.secret_from_sec1_der c (S.private_key pkcs8))) _
          ec_made)

    ec_labelled : (found : String × Bytes) → Every (IsEcPair S c) (Ec.labelled S c found)
    unfolding Ec.labelled unsupported_tag
    ec_labelled (label, document) =
        Every-if (IsEcPair S c) (label == private_key_pem_label) _ _ (ec_pkcs8 _ document)
          (Every-err (IsEcPair S c) _)

  ed_bytes : (bytes : S.KeypairBytes) → Every (IsEdPair S) (Ed25519.from_key_pair_bytes S bytes)
  unfolding Ed25519.from_key_pair_bytes Ed25519.of_signing_key
  ed_bytes bytes = Every-chain (IsEdPair S) (ok_or _ (S.keypair_to_bytes bytes)) _ (λ b.
      Every-chain (IsEdPair S) (map_err _ (S.ed_from_keypair_bytes b)) _
        (λ k. Every-ok (IsEdPair S) _ refl))

  ed_pkcs8 : (document : Bytes) → Every (IsEdPair S) (Ed25519.read_pkcs8 S document)
  unfolding Ed25519.read_pkcs8
  ed_pkcs8 document =
      Every-chain (IsEdPair S) (read_info S document) _
        (λ pkcs8. Every-chain (IsEdPair S) (map_err _ (S.keypair_from_info pkcs8)) _ ed_bytes)

  ed_labelled : (found : String × Bytes) → Every (IsEdPair S) (Ed25519.labelled S found)
  unfolding Ed25519.labelled unsupported_tag
  ed_labelled (label, document) =
      Every-if (IsEdPair S) (label == private_key_pem_label) _ _ (ed_pkcs8 document)
        (Every-err (IsEdPair S) _)

  rsa_made : (k : S.RsaPrivateKey) → Every (IsRsaPair S) (ok (Rsa.from_private_key S k))
  unfolding Rsa.from_private_key
  rsa_made k = Every-ok (IsRsaPair S) _ refl

  rsa_pkcs8 : (document : Bytes) → Every (IsRsaPair S) (Rsa.read_pkcs8 S document)
  unfolding Rsa.read_pkcs8
  rsa_pkcs8 document =
      Every-chain (IsRsaPair S) (read_info S document) _
        (λ pkcs8. Every-chain (IsRsaPair S) (map_err _ (S.rsa_from_info pkcs8)) _ rsa_made)

  rsa_labelled : (found : String × Bytes) → Every (IsRsaPair S) (Rsa.labelled S found)
  unfolding Rsa.labelled Rsa.read_pkcs1 unsupported_tag
  rsa_labelled (label, document) =
      Every-if (IsRsaPair S) (label == private_key_pem_label) _ _ (rsa_pkcs8 document) (
        Every-if (IsRsaPair S) (label == rsa_private_key_pem_label) _ _
          (Every-chain (IsRsaPair S) (map_err _ (S.rsa_from_pkcs1_der document)) _ rsa_made)
          (Every-err (IsRsaPair S) _))

  wrapped_pem : (pem : Bytes) → Every (IsWrappedPair S) (Ecdsa.from_pem S pem)
  unfolding Ecdsa.from_pem Ec.from_pem
  wrapped_pem pem =
      Every-or (IsWrappedPair S) (Ec.from_pem S p256 pem) on_p256 _
        (Every-chain (IsEcPair S p256) (read_document S pem) _ (ec_labelled p256))
        (Every-or (IsWrappedPair S) (Ec.from_pem S p384 pem) on_p384 _
          (Every-chain (IsEcPair S p384) (read_document S pem) _ (ec_labelled p384))
          (Every-err (IsWrappedPair S) _))

  wrapped_der : (der : Bytes) → Every (IsWrappedPair S) (Ecdsa.from_der S der)
  unfolding Ecdsa.from_der Ec.from_der
  wrapped_der der =
      Every-or (IsWrappedPair S) (Ec.from_der S p256 der) on_p256 _ (ec_pkcs8 p256 _ der) (
        Every-or (IsWrappedPair S) (Ec.from_der S p384 der) on_p384 _ (ec_pkcs8 p384 _ der)
          (Every-err (IsWrappedPair S) _))

  pub from_pem-IsPair :
      (pem_data : Bytes) (keys : SigStoreKeyPair S)
      → KeyPair.from_pem S pem_data ≡ ok keys
      → IsPair S keys
  unfolding KeyPair.from_pem Ed25519.from_pem Rsa.from_pem
  from_pem-IsPair pem_data =
      Every-or (IsPair S) (Ecdsa.from_pem S pem_data) ecdsa _ (wrapped_pem pem_data) (
        Every-or (IsPair S) (Ed25519.from_pem S pem_data) ed25519 _
          (Every-chain (IsEdPair S) (read_document S pem_data) _ ed_labelled)
          (Every-or (IsPair S) (Rsa.from_pem S pem_data) rsa _
            (Every-chain (IsRsaPair S) (read_document S pem_data) _ rsa_labelled)
            (Every-err (IsPair S) _)))

  pub from_der-IsPair :
      (private_key : Bytes) (keys : SigStoreKeyPair S)
      → KeyPair.from_der S private_key ≡ ok keys
      → IsPair S keys
  unfolding KeyPair.from_der Ed25519.from_der Rsa.from_der
  from_der-IsPair private_key =
      Every-or (IsPair S) (Ecdsa.from_der S private_key) ecdsa _ (wrapped_der private_key) (
        Every-or (IsPair S) (Ed25519.from_der S private_key) ed25519 _
          (Every-chain (IsEdPair S) (map_err _ (S.keypair_from_pkcs8_der private_key)) _ ed_bytes)
          (Every-or (IsPair S) (Rsa.from_der S private_key) rsa _
            (Every-chain (IsRsaPair S) (map_err _ (S.rsa_from_pkcs8_der private_key)) _ rsa_made)
            (Every-err (IsPair S) _)))

  pub from_encrypted_pem-IsPair :
      (K : KdfLibs) (pem_data password : Bytes) (keys : SigStoreKeyPair S)
      → KeyPair.from_encrypted_pem S K pem_data password ≡ some (ok keys)
      → IsPair S keys
  unfolding KeyPair.from_encrypted_pem Ecdsa.from_encrypted_pem Ec.from_encrypted_pem
      Ed25519.from_encrypted_pem Rsa.from_encrypted_pem
  from_encrypted_pem-IsPair K pem_data password =
      let der = decrypted_der L K pem_data password in
      EveryRun-or (IsPair S) (Ecdsa.from_encrypted_pem S K pem_data password) ecdsa _
        (EveryRun-or (IsWrappedPair S) (Ec.from_encrypted_pem S p256 K pem_data password) on_p256 _
          (EveryRun-try (IsEcPair S p256) der _ (ec_sec1 p256))
          (EveryRun-or (IsWrappedPair S) (Ec.from_encrypted_pem S p384 K pem_data password) on_p384
            _ (EveryRun-try (IsEcPair S p384) der _ (ec_sec1 p384)) (λ a h. cc)))
        (EveryRun-or (IsPair S) (Ed25519.from_encrypted_pem S K pem_data password) ed25519 _
          (EveryRun-try (IsEdPair S) der _ ed_pkcs8)
          (EveryRun-or (IsPair S) (Rsa.from_encrypted_pem S K pem_data password) rsa _
            (EveryRun-try (IsRsaPair S) der _ rsa_pkcs8) (λ a h. cc)))
