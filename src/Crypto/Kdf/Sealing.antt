-- ===== src/Crypto/Kdf/Sealing.antt =====
-- src/crypto/signing_key/kdf.rs: encryption and decryption together, and the panic of decryption.
use sigstore_rs.Prelude.{
  ℕ, Bytes, Bool, true, false, not, ◌&&◌, ◌==◌, eq_iff, eqb, eqb_iff, ◌≡◌, ◌≢◌, refl, sym, subst,
  ap, ◌∙◌, ◌↔◌, ◌⊎◌, inl, inr, Option, none, some, ok, err, map_err, fail_if, length, >>=-eq-ok,
  >>-eq-ok, map_err-eq-ok, fail_if-eq-ok, not-eq-false, ok-injective, some-injective, test_of_ok,
  Bool-cases,
}
use sigstore_rs.Errors.{scrypt_kdf_invalid_params_error, Outcome, serde_json_error}
use sigstore_rs.Crypto.Kdf.{
  Data, ScryptKdf, SecretBoxCipher, KdfLibs, name_scrypt, name_secret_box, scrypt_n, scrypt_r,
  scrypt_p, salt_size, default_kdf, box_nonce_size, box_key_size, generate_random, check_params,
  when_ok, of_length, key, encrypt_box, decrypt_box, serialise, encrypt, read_data, decrypt,
}

-- reading undoes writing, but for the flag that is not written
abbrev pub IsSerialisation : KdfLibs → Type 0
IsSerialisation K =
    (d : Data) (v : Bytes)
    → K.to_vec d ≡ ok v
    → K.from_slice v ≡ ok (record d { cipher = record d.cipher { encrypted = false } })

-- unsealing undoes sealing under the same key and nonce
abbrev pub IsBox : KdfLibs → Type 0
IsBox K = (k nonce m c : Bytes) → K.seal k nonce m ≡ ok c → K.unseal k nonce c ≡ ok m

-- the output of scrypt has the length asked for
abbrev pub HasLength : KdfLibs → Type 0
HasLength K =
    (password salt : Bytes) (params : K.Params) (size : ℕ) (out : Bytes)
    → K.scrypt password salt params size ≡ ok out
    → length out ≡ size

-- data that passes the checks before a key is derived
pub record IsChecked (d : Data) : Type 0 where
  pub cipher_name : d.cipher.name ≡ name_secret_box
  pub kdf_name : d.kdf.name ≡ name_scrypt
  pub n : d.kdf.params.n ≡ scrypt_n
  pub r : d.kdf.params.r ≡ scrypt_r
  pub p : d.kdf.params.p ≡ scrypt_p

both : (a b : Bool) → a && b ≡ true → (a ≡ true) × (b ≡ true)
both true b h = (refl, h)
both false b h = cc

of_length-some :
    {A : Type 0} (size : ℕ) (bytes : Bytes) (next : Option A) {a : A}
    → of_length size bytes next ≡ some a
    → (length bytes ≡ size) × (next ≡ some a)
of_length-some size bytes next h = elim (Bool-cases (eqb (length bytes) size)) [
  | inl e ↦ ((eqb_iff _ _).0 e, rw e at h)
  | inr e ↦ let g = rw e at h in cc
]

of_length-none :
    {A : Type 0} (size : ℕ) (bytes : Bytes) (next : Option A)
    → of_length size bytes next ≡ none
    → (length bytes ≢ size) ⊎ ((length bytes ≡ size) × (next ≡ none))
of_length-none size bytes next h = elim (Bool-cases (eqb (length bytes) size)) [
  | inl e ↦ inr ((eqb_iff _ _).0 e, rw e at h)
  | inr e ↦ inl (λ q. let g = sym e ∙ (eqb_iff _ _).1 q in cc)
]

pub when_ok-some :
    {A B : Type 0} (r : Outcome A) (f : A → Option (Outcome B)) {b : B}
    → when_ok r f ≡ some (ok b)
    → (a : A) × (r ≡ ok a) × (f a ≡ some (ok b))
when_ok-some (ok a) f h = (a, refl, h)
when_ok-some (err e) f h = cc

when_ok-none :
    {A B : Type 0} (r : Outcome A) (f : A → Option (Outcome B))
    → when_ok r f ≡ none
    → (a : A) × (r ≡ ok a) × (f a ≡ none)
when_ok-none (ok a) f h = (a, refl, h)
when_ok-none (err e) f h = cc

module _ (K : KdfLibs) where
  read_data-IsChecked :
      (v : Bytes) (d : Data) → read_data K v ≡ ok d → (K.from_slice v ≡ ok d) × IsChecked d
  unfolding read_data check_params
  read_data-IsChecked v d h =
      let (d', e, h₁) = >>=-eq-ok (map_err serde_json_error (K.from_slice v)) _ h in
      let (a, h₂) = >>-eq-ok (fail_if (not (d'.cipher.name == name_secret_box)) _) _ h₁ in
      let (b, h₃) = >>-eq-ok (fail_if (not (d'.kdf.name == name_scrypt)) _) _ h₂ in
      let (c, h₄) = >>-eq-ok (check_params d'.kdf) _ h₃ in
      let (n, rest) = both _ _ (test_of_ok _ _ c) in
      let (r, p) = both _ _ rest in
      let same = ok-injective h₄ in
      (
        map_err-eq-ok _ _ e ∙ ap ok same,
        subst IsChecked same (record {
          cipher_name = (eq_iff _ _).0 (not-eq-false _ (fail_if-eq-ok _ _ a));
          kdf_name = (eq_iff _ _).0 (not-eq-false _ (fail_if-eq-ok _ _ b));
          n = (eqb_iff _ _).0 n;
          r = (eqb_iff _ _).0 r;
          p = (eqb_iff _ _).0 p;
        }),
      )

  read_data_complete :
      (v : Bytes) (d : Data) → K.from_slice v ≡ ok d → IsChecked d → read_data K v ≡ ok d
  unfolding read_data check_params
  read_data_complete v d e c =
      rw
        (
          e,
          (eq_iff _ _).1 c.cipher_name,
          (eq_iff _ _).1 c.kdf_name,
          (eqb_iff _ _).1 c.n,
          (eqb_iff _ _).1 c.r,
          (eqb_iff _ _).1 c.p,
        )
        refl

  -- what a decryption that succeeds has gone through
  pub record IsOpened (v password m : Bytes) : Type 0 where
    pub sealed : Data
    pub read : K.from_slice v ≡ ok sealed
    pub checked : IsChecked sealed
    pub box_key : Bytes
    pub derived : key K sealed.kdf password ≡ ok box_key
    pub nonce : length sealed.cipher.nonce ≡ box_nonce_size
    pub opened : K.unseal box_key sealed.cipher.nonce sealed.cipher_text ≡ ok m

  -- A decryption that succeeds has read data with the two known names and the default scrypt
  -- parameters only, and has unsealed its text with the key derived from the password.
  pub decrypt-IsOpened :
      (v password m : Bytes) → decrypt K v password ≡ some (ok m) → IsOpened v password m
  unfolding decrypt decrypt_box
  decrypt-IsOpened v password m h =
      let (d, e, h₁) = when_ok-some (read_data K v) _ h in
      let (k, f, h₂) = when_ok-some (key K d.kdf password) _ h₁ in
      let (nonce, h₃) = of_length-some box_nonce_size d.cipher.nonce _ h₂ in
      let (size, h₄) = of_length-some box_key_size k _ h₃ in
      let (read, checked) = read_data-IsChecked v d e in
      record {
        sealed = d;
        read = read;
        checked = checked;
        box_key = k;
        derived = f;
        nonce = nonce;
        opened = map_err-eq-ok _ _ (some-injective h₄);
      }

  key-length :
      (kdf : ScryptKdf) (password k : Bytes)
      → HasLength K
      → key K kdf password ≡ ok k
      → length k ≡ box_key_size
  unfolding key
  key-length kdf password k law h =
      let (params, e, f) =
        >>=-eq-ok
          (map_err scrypt_kdf_invalid_params_error
            (K.params_new (K.log2 kdf.params.n) kdf.params.r kdf.params.p))
          _ h in
      law password kdf.salt params box_key_size k (map_err-eq-ok _ _ f)

  decrypt_box-none :
      (cipher : SecretBoxCipher) (text k : Bytes)
      → length k ≡ box_key_size
      → decrypt_box K cipher text k ≡ none
      → length cipher.nonce ≢ box_nonce_size
  unfolding decrypt_box
  decrypt_box-none cipher text k size h = elim (of_length-none box_nonce_size cipher.nonce _ h) [
    | inl other ↦ other
    | inr p ↦ elim (of_length-none box_key_size k _ p.1) [
      | inl other ↦ elim (other size) [ ]
      | inr q ↦ let g = q.1 in cc
    ]
  ]

  decrypt_box-panics :
      (cipher : SecretBoxCipher) (text k : Bytes)
      → length cipher.nonce ≢ box_nonce_size
      → decrypt_box K cipher text k ≡ none
  unfolding decrypt_box
  decrypt_box-panics cipher text k other =
      elim (Bool-cases (eqb (length cipher.nonce) box_nonce_size)) [
        | inl e ↦ elim (other ((eqb_iff _ _).0 e)) [ ]
        | inr e ↦ rw e refl
      ]

  -- Where scrypt gives as many bytes as are asked for, decryption panics exactly on data that passes
  -- the checks, gives a key, and has a nonce of another length than 24.
  pub decrypt-panics_iff :
      (v password : Bytes)
      → HasLength K
      → (decrypt K v password ≡ none) ↔ (
          (d : Data) × (K.from_slice v ≡ ok d)
          × IsChecked d
          × ((k : Bytes) × (key K d.kdf password ≡ ok k))
          × (length d.cipher.nonce ≢ box_nonce_size))
  unfolding decrypt
  decrypt-panics_iff v password law = (
    λ h.
        let (d, e, h₁) = when_ok-none (read_data K v) _ h in
        let (k, f, h₂) = when_ok-none (key K d.kdf password) _ h₁ in
        let (read, checked) = read_data-IsChecked v d e in
        (
          d,
          read,
          checked,
          (k, f),
          decrypt_box-none d.cipher d.cipher_text k (key-length d.kdf password k law f) h₂,
        ),
    λ p.
        let (d, read, checked, derived, other) = p in
        rw (read_data_complete v d read checked, derived.1)
          (decrypt_box-panics d.cipher d.cipher_text derived.0 other),
  )

  serialise-some :
      (kdf : ScryptKdf) (sealed : Option (Outcome Bytes) × SecretBoxCipher) (v : Bytes)
      → serialise K kdf sealed ≡ some (ok v)
      → (t : Bytes) × (sealed.0 ≡ some (ok t))
        × (K.to_vec (record { kdf = kdf; cipher = sealed.1; cipher_text = t }) ≡ ok v)
  unfolding serialise
  serialise-some kdf (none, cipher) v h = cc
  serialise-some kdf (some (err e), cipher) v h = cc
  serialise-some kdf (some (ok t), cipher) v h = (t, refl, map_err-eq-ok _ _ (some-injective h))

  -- Where reading undoes writing and unsealing undoes sealing, decrypting with the same password gives
  -- back what was encrypted.
  pub decrypt-encrypt :
      (source : ℕ → ℕ) (plaintext password v : Bytes)
      → IsSerialisation K
      → IsBox K
      → encrypt K source plaintext password ≡ some (ok v)
      → decrypt K v password ≡ some (ok plaintext)
  unfolding encrypt encrypt_box decrypt decrypt_box
  decrypt-encrypt source plaintext password v json box h =
      let kdf = default_kdf (generate_random source 0 salt_size) in
      let nonce = generate_random source salt_size box_nonce_size in
      let (k, e, h₁) = when_ok-some (key K kdf password) _ h in
      let (t, sealed, written) = serialise-some kdf _ v h₁ in
      let (n, h₂) = of_length-some box_nonce_size nonce _ sealed in
      let (size, h₃) = of_length-some box_key_size k _ h₂ in
      let opened = box k nonce plaintext t (map_err-eq-ok _ _ (some-injective h₃)) in
      rw
        (
          read_data_complete v _ (json _ v written)
              (record { cipher_name = refl; kdf_name = refl; n = refl; r = refl; p = refl }),
          e,
          (eqb_iff (length nonce) box_nonce_size).1 n,
          (eqb_iff (length k) box_key_size).1 size,
          opened,
        )
        refl
