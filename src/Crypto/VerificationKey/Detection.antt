-- ===== src/Crypto/VerificationKey/Detection.antt =====
-- How the key builders choose the kind of a key.
use sigstore_rs.Prelude.{
  Bytes, String, ◌≡◌, refl, sym, subst, ap, ◌∙◌, ok, err, map_err, map_ok, >>=-eq-ok, map_err-eq-ok,
  map_ok-eq-ok, ok-injective,
}
use sigstore_rs.Errors.{from_pem_error, Outcome, Foreign}
use sigstore_rs.Crypto.Libs.{Libs}
use sigstore_rs.Crypto.Scheme
use sigstore_rs.Crypto.Scheme.{SigningScheme}
use sigstore_rs.Crypto.VerificationKey.{
  CosignVerificationKey, rsa_pss_sha256, rsa_pss_sha384, rsa_pss_sha512, rsa_pkcs1_sha256,
  rsa_pkcs1_sha384, rsa_pkcs1_sha512, ecdsa_p256_sha256_asn1, ecdsa_p384_sha384_asn1, ed25519,
  from_der, from_pem, try_from_der, rsa_key, try_p256, try_p384, try_ed25519, try_rsa,
}

module _ (L : Libs) where
  -- the scheme of a key; an RSA key does not tell its size
  abbrev pub scheme_of : CosignVerificationKey L → SigningScheme
  scheme_of (rsa_pss_sha256 k) = SigningScheme.rsa_pss_sha256 2048
  scheme_of (rsa_pss_sha384 k) = SigningScheme.rsa_pss_sha384 2048
  scheme_of (rsa_pss_sha512 k) = SigningScheme.rsa_pss_sha512 2048
  scheme_of (rsa_pkcs1_sha256 k) = SigningScheme.rsa_pkcs1_sha256 2048
  scheme_of (rsa_pkcs1_sha384 k) = SigningScheme.rsa_pkcs1_sha384 2048
  scheme_of (rsa_pkcs1_sha512 k) = SigningScheme.rsa_pkcs1_sha512 2048
  scheme_of (ecdsa_p256_sha256_asn1 k) = SigningScheme.ecdsa_p256_sha256_asn1
  scheme_of (ecdsa_p384_sha384_asn1 k) = SigningScheme.ecdsa_p384_sha384_asn1
  scheme_of (ed25519 k) = SigningScheme.ed25519

  of_map :
      {A : Type 0} (f : A → CosignVerificationKey L) (r : Outcome A) {key : CosignVerificationKey L}
      (name : String)
      → ((a : A) → Scheme.to_string (scheme_of (f a)) ≡ name)
      → map_ok f r ≡ ok key
      → Scheme.to_string (scheme_of key) ≡ name
  of_map f r name named h =
      let (a, e, same) = map_ok-eq-ok f r h in
      ap (λ k. Scheme.to_string (scheme_of k)) (sym same) ∙ named a

  from_der-scheme :
      (der : Bytes) (scheme : SigningScheme) (key : CosignVerificationKey L)
      → from_der L der scheme ≡ ok key
      → Scheme.to_string (scheme_of key) ≡ Scheme.to_string scheme
  unfolding from_der Scheme.to_string
  from_der-scheme der (SigningScheme.rsa_pss_sha256 n) key h = of_map _ _ _ (λ a. refl) h
  from_der-scheme der (SigningScheme.rsa_pss_sha384 n) key h = of_map _ _ _ (λ a. refl) h
  from_der-scheme der (SigningScheme.rsa_pss_sha512 n) key h = of_map _ _ _ (λ a. refl) h
  from_der-scheme der (SigningScheme.rsa_pkcs1_sha256 n) key h = of_map _ _ _ (λ a. refl) h
  from_der-scheme der (SigningScheme.rsa_pkcs1_sha384 n) key h = of_map _ _ _ (λ a. refl) h
  from_der-scheme der (SigningScheme.rsa_pkcs1_sha512 n) key h = of_map _ _ _ (λ a. refl) h
  from_der-scheme der SigningScheme.ecdsa_p256_sha256_asn1 key h = of_map _ _ _ (λ a. refl) h
  from_der-scheme der SigningScheme.ecdsa_p384_sha384_asn1 key h = of_map _ _ _ (λ a. refl) h
  from_der-scheme der SigningScheme.ed25519 key h = of_map _ _ _ (λ a. refl) h

  -- A key read from PEM under a scheme is of that scheme, up to the size of an RSA key.
  pub from_pem-scheme :
      (pem_data : Bytes) (scheme : SigningScheme) (key : CosignVerificationKey L)
      → from_pem L pem_data scheme ≡ ok key
      → Scheme.to_string (scheme_of key) ≡ Scheme.to_string scheme
  unfolding from_pem
  from_pem-scheme pem_data scheme key h =
      let (pem, e, f) =
        >>=-eq-ok (map_err from_pem_error (L.pem_parse pem_data))
          (λ key_pem. from_der L key_pem.contents scheme) h in
      from_der-scheme pem.contents scheme key f

-- what the two Ed25519 parsers share: reading the key at once is reading its bytes and then the key
abbrev pub EdParsersAgree : Libs → Type 0
EdParsersAgree L =
    (der bytes : Bytes) (k : L.Ed25519Key)
    → L.ed25519_public_key_bytes_from_der der ≡ ok bytes
    → L.ed25519_from_bytes bytes ≡ ok k
    → L.ed25519_from_der der ≡ ok k

module _ (L : Libs) (agree : EdParsersAgree L) (der : Bytes) where
  try_rsa-from_der :
      (r : Foreign L.RsaPublicKey) (key : CosignVerificationKey L)
      → L.rsa_from_der der ≡ r
      → try_rsa L r ≡ ok key
      → from_der L der (scheme_of L key) ≡ ok key
  unfolding try_rsa from_der rsa_key
  try_rsa-from_der (ok k) key e h =
      subst (λ x. from_der L der (scheme_of L x) ≡ ok x) (ok-injective h) (rw e refl)
  try_rsa-from_der (err x) key e h = cc

  try_ed25519-from_der :
      (r : Foreign Bytes) (key : CosignVerificationKey L)
      → L.ed25519_public_key_bytes_from_der der ≡ r
      → try_ed25519 L der r ≡ ok key
      → from_der L der (scheme_of L key) ≡ ok key
  unfolding try_ed25519 from_der
  try_ed25519-from_der (ok bytes) key e h =
      let (k, f, same) = map_ok-eq-ok _ _ h in
      subst (λ x. from_der L der (scheme_of L x) ≡ ok x) same
        (rw (agree der bytes k e (map_err-eq-ok _ _ f)) refl)
  try_ed25519-from_der (err x) key e h = try_rsa-from_der (L.rsa_from_der der) key refl h

  try_p384-from_der :
      (r : Foreign L.P384Key) (key : CosignVerificationKey L)
      → L.p384_from_der der ≡ r
      → try_p384 L der r ≡ ok key
      → from_der L der (scheme_of L key) ≡ ok key
  unfolding try_p384 from_der
  try_p384-from_der (ok k) key e h =
      subst (λ x. from_der L der (scheme_of L x) ≡ ok x) (ok-injective h) (rw e refl)
  try_p384-from_der (err x) key e h =
      try_ed25519-from_der (L.ed25519_public_key_bytes_from_der der) key refl h

  try_p256-from_der :
      (r : Foreign L.P256Key) (key : CosignVerificationKey L)
      → L.p256_from_der der ≡ r
      → try_p256 L der r ≡ ok key
      → from_der L der (scheme_of L key) ≡ ok key
  unfolding try_p256 from_der
  try_p256-from_der (ok k) key e h =
      subst (λ x. from_der L der (scheme_of L x) ≡ ok x) (ok-injective h) (rw e refl)
  try_p256-from_der (err x) key e h = try_p384-from_der (L.p384_from_der der) key refl h

  -- Where the two Ed25519 parsers agree, a key whose kind is found by trying the parsers in turn is
  -- the key that `from_der` reads under the scheme of that kind.
  pub try_from_der-from_der :
      (key : CosignVerificationKey L)
      → try_from_der L der ≡ ok key
      → from_der L der (scheme_of L key) ≡ ok key
  unfolding try_from_der
  try_from_der-from_der key h = try_p256-from_der (L.p256_from_der der) key refl h
