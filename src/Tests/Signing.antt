-- ===== src/Tests/Signing.antt =====
-- Examples: key pairs and signers over byte strings. A key is its bytes, an encoded key has the mark of
-- its kind before them, and a signature is the key followed by the message.
use sigstore_rs.Prelude.{
  ℕ, String, Bytes, ◌≡◌, refl, sym, ap, ◌∙◌, subst, ◌↔◌, some, [], ◌∷◌, ◌++◌, ok, err, as_bytes,
  from_utf8, ok-injective, bytes_eq_refl, Bool, false,
}
use sigstore_rs.Errors.{Foreign}
use sigstore_rs.Crypto.Libs.{Libs}
use sigstore_rs.Crypto.Scheme
use sigstore_rs.Crypto.Kdf
use sigstore_rs.Crypto.VerificationKey
use sigstore_rs.Crypto.VerificationKey.{raw, verify_signature}
use sigstore_rs.Crypto.SigningKey.{
  EllipticCurve, p256, p384, SigningLibs, sigstore_private_key_pem_label, private_key_pem_label,
  read_document, encrypted_pem,
}
use sigstore_rs.Crypto.SigningKey.Ec
use sigstore_rs.Crypto.SigningKey.Ecdsa
use sigstore_rs.Crypto.SigningKey.Ecdsa.{on_p256, on_p384}
use sigstore_rs.Crypto.SigningKey.Signer
use sigstore_rs.Crypto.SigningKey.KeyPair
use sigstore_rs.Crypto.SigningKey.KeyPair.{SigStoreKeyPair, ecdsa, ed25519, rsa}
use sigstore_rs.Crypto.SigningKey.Laws.{SignVerifies, IsPair}
use sigstore_rs.Crypto.SigningKey.Importing.{IsPkcs8}
use sigstore_rs.Crypto.SigningKey.Pairs.{from_encrypted_pem-IsPair}
use sigstore_rs.Crypto.SigningKey.Matching.{IsMismatch, to_sigstore_signer-IsMismatch}
use sigstore_rs.Crypto.SigningKey.Roundtrip.{from_encrypted_pem-private_key_to_encrypted_pem}
use sigstore_rs.Crypto.SigningKey.Using.{verify_signature-from_pem}
use sigstore_rs.Tests.Toy.{toy, keyed, toy_verify, encode, decode, decode-encode}
use sigstore_rs.Tests.Storage.{kdf_libs, serialisation, box, no_random, zeros}

abbrev pub libs : Libs
libs = record toy {
  pem_parse = λ b. ok (record { tag = sigstore_private_key_pem_label; contents = decode b });
}

abbrev pub mark : EllipticCurve → ℕ
mark p256 = 4
mark p384 = 5

abbrev pub signing : SigningLibs libs
signing = record {
  utf8_failure = λ b. "not utf-8";
  secret_document_from_pem = λ s. ok (private_key_pem_label, decode (as_bytes s));
  PrivateKeyInfo = Bytes;
  private_key_info = ok;
  private_key = λ i. i;
  pem_encode = λ p. encode p.contents;
  encode_to_vec = λ b. ok (48 ∷ b);
  SecretKey = λ c. Bytes;
  PublicKey = λ c. Bytes;
  secret_random = λ c source. source 0 ∷ [];
  secret_public = λ c k. k;
  secret_from_sec1_der = λ c. keyed (mark c);
  secret_from_pkcs8_der = λ c. keyed (mark c);
  secret_to_pkcs8_pem = λ c k. ok (encode (mark c ∷ k));
  secret_to_pkcs8_der = λ c k. ok (mark c ∷ k);
  ec_public_to_pem = λ c k. ok (encode (mark c ∷ k));
  ec_public_to_der = λ c k. ok (mark c ∷ k);
  EcSigningKey = λ c. Bytes;
  ec_signing_from_pkcs8_der = λ c. keyed (mark c);
  try_sign_digest = λ c k m. ok (k ++ m);
  EdSigningKey = Bytes;
  ed_generate = λ source. source 0 ∷ [];
  ed_verifying_key = λ k. k;
  KeypairBytes = Bytes;
  keypair_from_info = keyed 6;
  keypair_from_pkcs8_der = keyed 6;
  keypair_to_bytes = some;
  ed_from_keypair_bytes = ok;
  ed_to_pkcs8_pem = λ k. ok (encode (6 ∷ k));
  ed_to_pkcs8_der = λ k. ok (6 ∷ k);
  ed_public_to_pem = λ k. ok (encode (6 ∷ k));
  ed_public_to_der = λ k. ok (6 ∷ k);
  ed_try_sign = λ k m. ok (k ++ m);
  RsaPrivateKey = Bytes;
  rsa_new = λ source n. ok (source 0 ∷ []);
  rsa_public = λ k. k;
  rsa_from_info = keyed 7;
  rsa_from_pkcs1_der = keyed 7;
  rsa_from_pkcs8_der = keyed 7;
  rsa_to_pkcs8_pem = λ k. ok (encode (7 ∷ k));
  rsa_to_pkcs8_der = λ k. ok (7 ∷ k);
  rsa_public_to_pem = λ k. ok (encode (7 ∷ k));
  rsa_public_to_der = λ k. ok (7 ∷ k);
  PssSigningKey = λ d. Bytes;
  pss_signing_new = λ d k. k;
  pss_verifying_key = λ d k. k;
  pss_sign = λ d k source m. k ++ m;
  Pkcs1SigningKey = λ d. Bytes;
  pkcs1_signing_new = λ d k. k;
  pkcs1_verifying_key = λ d k. k;
  pkcs1_sign = λ d k source m. k ++ m;
}

-- a marked key reads back
reads :
    (m : ℕ) (k der x : Bytes)
    → ◌≡◌ {A = Foreign Bytes} (ok (m ∷ k)) (ok der)
    → keyed m der ≡ ok x
    → k ≡ x
reads m k der x e f =
    let marked : keyed m (m ∷ k) ≡ ok k = rw (bytes_eq_refl (m ∷ [])) refl in
    ok-injective (sym marked ∙ ap (keyed m) (ok-injective e) ∙ f)

verifies : (key msg sig : Bytes) → key ++ msg ≡ sig → toy_verify key msg sig ≡ ok tt
verifies key msg sig e =
    subst (λ s. toy_verify key msg s ≡ ok tt) e (rw (bytes_eq_refl (key ++ msg)) refl)

-- what is printed and parsed is the marked key
printed :
    (m : ℕ) (k : Bytes) (pem : String) (parsed : _)
    → ◌≡◌ {A = Foreign String} (ok (encode (m ∷ k))) (ok pem)
    → libs.pem_parse (as_bytes pem) ≡ ok parsed
    → ◌≡◌ {A = Foreign Bytes} (ok (m ∷ k)) (ok parsed.contents)
printed m k pem parsed e f = ap ok (
    sym (decode-encode (m ∷ k))
    ∙ ap (λ s. decode (as_bytes s)) (ok-injective e)
    ∙ ap (λ p. p.contents) (ok-injective f))

on_curve :
    (m : ℕ) (secret der inner : Bytes) (pem : String) (parsed : _) (key digest sig : Bytes)
    → ◌≡◌ {A = Foreign Bytes} (ok (m ∷ secret)) (ok der)
    → keyed m der ≡ ok inner
    → ◌≡◌ {A = Foreign String} (ok (encode (m ∷ secret))) (ok pem)
    → libs.pem_parse (as_bytes pem) ≡ ok parsed
    → keyed m parsed.contents ≡ ok key
    → ◌≡◌ {A = Foreign Bytes} (ok (inner ++ digest)) (ok sig)
    → (s : Bytes) × (◌≡◌ {A = Foreign Bytes} (ok sig) (ok s)) × (toy_verify key digest s ≡ ok tt)
on_curve m secret der inner pem parsed key digest sig a b c d e f =
    let same =
      sym (reads m secret _ key (printed m secret pem parsed c d) e)
      ∙ reads m secret der inner a b in
    (sig, refl, verifies key digest sig (ap (λ k. k ++ digest) same ∙ ok-injective f))

pub sign_verifies : SignVerifies signing
sign_verifies = record {
  on_p256 = on_curve 4;
  on_p384 = on_curve 5;
  on_ed25519 = λ k der key msg sig a b c. (
    sig,
    refl,
    verifies key msg sig (ap (λ x. x ++ msg) (sym (reads 6 k der key a b)) ∙ ok-injective c),
  );
  on_pss = λ d k der key rng msg a b. (
    k ++ msg,
    refl,
    verifies key msg (k ++ msg) (ap (λ x. x ++ msg) (sym (reads 7 k der key a b))),
  );
  on_pkcs1 = λ d k der key rng msg a b. (
    k ++ msg,
    refl,
    verifies key msg (k ++ msg) (ap (λ x. x ++ msg) (sym (reads 7 k der key a b))),
  );
}

back : (m : ℕ) (k der : Bytes) → ◌≡◌ {A = Foreign Bytes} (ok (m ∷ k)) (ok der) → keyed m der ≡ ok k
back m k der e =
    let marked : keyed m (m ∷ k) ≡ ok k = rw (bytes_eq_refl (m ∷ [])) refl in
    subst (λ d. keyed m d ≡ ok k) (ok-injective e) marked

-- a document whose first byte is another mark
apart :
    (m n : ℕ) (k der info : Bytes)
    → keyed n (m ∷ k) ≡ err "another kind"
    → ◌≡◌ {A = Foreign Bytes} (ok (m ∷ k)) (ok der)
    → ◌≡◌ {A = Foreign Bytes} (ok der) (ok info)
    → (e : String) × (keyed n info ≡ err e)
apart m n k der info h e f = (
  "another kind",
  subst (λ d. keyed n d ≡ err "another kind") (ok-injective e ∙ ok-injective f) h,
)

not_ec_6 : (c : EllipticCurve) (k : Bytes) → keyed (mark c) (6 ∷ k) ≡ err "another kind"
not_ec_6 p256 k = refl
not_ec_6 p384 k = refl

not_ec_7 : (c : EllipticCurve) (k : Bytes) → keyed (mark c) (7 ∷ k) ≡ err "another kind"
not_ec_7 p256 k = refl
not_ec_7 p384 k = refl

pub pkcs8 : IsPkcs8 signing
pkcs8 = record {
  armored = λ contents.
      ap (λ c. ok (record { tag = sigstore_private_key_pem_label; contents = c }))
        (decode-encode contents);
  on_ec = λ c k der e. (der, refl, back (mark c) k der e);
  p384_apart = λ k der info e f. apart 5 4 k der info refl e f;
  on_ed25519 = λ k der e. (der, k, k, refl, back 6 k der e, refl, refl);
  ed25519_apart = λ k der info c e f. apart 6 (mark c) k der info (not_ec_6 c k) e f;
  on_rsa = λ k der e. (der, refl, back 7 k der e);
  rsa_apart = λ k der info e f.
      (λ c. apart 7 (mark c) k der info (not_ec_7 c k) e f, apart 7 6 k der info refl e f);
}

abbrev pub p384_pair : SigStoreKeyPair signing
p384_pair = ecdsa (on_p384 (record { ec_seckey = 9 ∷ []; public_key = 9 ∷ [] }))

abbrev pub password : Bytes
password = 1 ∷ []

abbrev pub pem : String
pem = encode (5 ∷ 9 ∷ [])

pub written :
    KeyPair.private_key_to_encrypted_pem signing kdf_libs no_random p384_pair password
    ≡ some (ok pem)
unfolding KeyPair.private_key_to_encrypted_pem Ecdsa.private_key_to_encrypted_pem
    Ec.private_key_to_encrypted_pem Ec.private_key_to_der encrypted_pem Kdf.encrypt Kdf.encrypt_box
    Kdf.key Kdf.generate_random zeros
written = refl

from_encrypted_pem-private_key_to_encrypted_pem_example :
    KeyPair.from_encrypted_pem signing kdf_libs (as_bytes pem) password ≡ some (ok p384_pair)
from_encrypted_pem-private_key_to_encrypted_pem_example =
    from_encrypted_pem-private_key_to_encrypted_pem signing kdf_libs pkcs8 serialisation box
      p384_pair no_random 1 [] pem refl written

-- the unencrypted file of an ECDSA key does not hold the key's document
unencrypted :
    KeyPair.private_key_to_encrypted_pem signing kdf_libs no_random p384_pair []
    ≡ some (ok (encode (48 ∷ 5 ∷ 9 ∷ [])))
unfolding KeyPair.private_key_to_encrypted_pem Ecdsa.private_key_to_encrypted_pem
    Ec.private_key_to_encrypted_pem Ec.private_key_to_der encrypted_pem
unencrypted = refl

abbrev pub p384_signer : Signer.SigStoreSigner signing
p384_signer = Signer.ecdsa_p384_sha384_asn1 (record {
  signing_key = 9 ∷ [];
  ecdsa_keys = record { ec_seckey = 9 ∷ []; public_key = 9 ∷ [] };
})

abbrev pem_bytes : Bytes
pem_bytes = as_bytes pem

read : KeyPair.from_pem signing pem_bytes ≡ ok p384_pair
unfolding KeyPair.from_pem Ecdsa.from_pem Ec.from_pem Ec.labelled Ec.read_pkcs8 Ec.from_private_key
    read_document from_utf8 as_bytes encode decode
read = refl

pub converted :
    KeyPair.to_sigstore_signer signing p384_pair Scheme.ecdsa_p384_sha384_asn1 ≡ ok p384_signer
unfolding KeyPair.to_sigstore_signer KeyPair.ecdsa_signer Ec.from_ecdsa_keys Ec.private_key_to_der
converted = refl

pub derived :
    Signer.from_sigstore_signer p384_signer ≡ ok (VerificationKey.ecdsa_p384_sha384_asn1 (9 ∷ []))
unfolding Signer.from_sigstore_signer Signer.to_verification_key Signer.signing_scheme
    Signer.inner_verification_key Ec.to_verification_key Ec.public_key_to_pem
    VerificationKey.from_pem VerificationKey.from_der as_bytes encode decode
derived = refl

signed : Signer.sign p384_signer no_random (3 ∷ []) ≡ ok (9 ∷ 3 ∷ [])
unfolding Signer.sign Ec.sign
signed = refl

verify_signature-from_pem_example :
    verify_signature libs
      (VerificationKey.ecdsa_p384_sha384_asn1 (9 ∷ []))
      (raw (9 ∷ 3 ∷ []))
      (3 ∷ [])
    ≡ ok tt
verify_signature-from_pem_example =
    verify_signature-from_pem signing sign_verifies no_random (3 ∷ []) (9 ∷ 3 ∷ [])
      Scheme.ecdsa_p384_sha384_asn1 p384_signer (VerificationKey.ecdsa_p384_sha384_asn1 (9 ∷ []))
      pem_bytes p384_pair read converted derived signed

to_sigstore_signer-IsMismatch_example :
    IsMismatch (KeyPair.to_sigstore_signer signing p384_pair Scheme.ecdsa_p256_sha256_asn1)
    ↔ (◌≡◌ {A = Bool} false false)
to_sigstore_signer-IsMismatch_example =
    to_sigstore_signer-IsMismatch signing p384_pair Scheme.ecdsa_p256_sha256_asn1

from_encrypted_pem-IsPair_example : IsPair signing p384_pair
from_encrypted_pem-IsPair_example =
    from_encrypted_pem-IsPair signing kdf_libs (as_bytes pem) password p384_pair (
      from_encrypted_pem-private_key_to_encrypted_pem signing kdf_libs pkcs8 serialisation box
        p384_pair no_random 1 [] pem refl written)
