-- ===== src/Crypto/Kdf.antt =====
-- src/crypto/signing_key/kdf.rs: the encryption of a private key under a password. The crates scrypt,
-- xsalsa20poly1305, rand and serde_json are parameters.
pub mod Sealing
use sigstore_rs.Prelude.{
  ℕ, zero, suc, ◌+◌, String, Bytes, Bool, true, false, not, ◌&&◌, ◌==◌, eqb, Option, none, some, [],
  ◌∷◌, ok, err, map_err, fail_if, ◌>>=◌, ◌>>◌, concat, length, if◌then◌else◌,
}
use sigstore_rs.Errors.{
  Outcome, Foreign, scrypt_kdf_invalid_params_error, scrypt_kdf_invalid_output_len_error,
  private_key_encrypt_error, private_key_decrypt_error, serde_json_error,
}

abbrev pub salt_size : ℕ
salt_size = 32

abbrev pub name_scrypt : String
name_scrypt = "scrypt"

abbrev pub scrypt_n : ℕ
scrypt_n = 32768

abbrev pub scrypt_r : ℕ
scrypt_r = 8

abbrev pub scrypt_p : ℕ
scrypt_p = 1

abbrev pub name_secret_box : String
name_secret_box = "nacl/secretbox"

abbrev pub box_key_size : ℕ
box_key_size = 32

abbrev pub box_nonce_size : ℕ
box_nonce_size = 24

pub record ScryptParams : Type 0 where
  pub n : ℕ
  pub r : ℕ
  pub p : ℕ

pub record ScryptKdf : Type 0 where
  pub name : String
  pub params : ScryptParams
  pub salt : Bytes

-- `encrypted` is not serialised: it is false after reading
pub record SecretBoxCipher : Type 0 where
  pub name : String
  pub nonce : Bytes
  pub encrypted : Bool

pub record Data : Type 0 where
  pub kdf : ScryptKdf
  pub cipher : SecretBoxCipher
  pub cipher_text : Bytes

pub record KdfLibs : Type 1 where
  -- `(n as f64).log2() as u8`
  pub log2 : ℕ → ℕ
  -- `scrypt::Params::new(log_n, r, p)`
  pub Params : Type 0
  pub params_new : ℕ → ℕ → ℕ → Foreign Params
  -- `scrypt(password, salt, params, output)` by the length of the output
  pub scrypt : Bytes → Bytes → Params → ℕ → Foreign Bytes
  -- `XSalsa20Poly1305::new(key)` with `encrypt` and `decrypt`: key, nonce, text
  pub seal : Bytes → Bytes → Bytes → Foreign Bytes
  pub unseal : Bytes → Bytes → Bytes → Foreign Bytes
  -- serde_json
  pub to_vec : Data → Foreign Bytes
  pub from_slice : Bytes → Foreign Data

-- the random bytes that the thread's generator gives from the place on
unfoldable pub generate_random : (ℕ → ℕ) → ℕ → ℕ → Bytes
generate_random source place zero = []
generate_random source place (suc len) = source place ∷ generate_random source (suc place) len

-- `ScryptKDF::default()`
abbrev pub default_kdf : Bytes → ScryptKdf
default_kdf salt = record {
  name = name_scrypt;
  params = record { n = scrypt_n; r = scrypt_r; p = scrypt_p };
  salt = salt;
}

-- `SecretBoxCipher::default()`
abbrev pub default_cipher : Bytes → SecretBoxCipher
default_cipher nonce = record { name = name_secret_box; nonce = nonce; encrypted = false }

unfoldable pub check_params : ScryptKdf → Outcome (Unit {0})
check_params self =
    if eqb self.params.n scrypt_n && (eqb self.params.r scrypt_r && eqb self.params.p scrypt_p)
    then ok tt
    else err (private_key_decrypt_error "Unexpected kdf parameters")

-- a call that may panic, which is `none`
abbrev pub when_ok : {A B : Type 0} → Outcome A → (A → Option (Outcome B)) → Option (Outcome B)
when_ok (ok a) f = f a
when_ok (err e) f = some (err e)

-- `GenericArray::from_slice` panics on another length
abbrev pub of_length : {A : Type 0} → ℕ → Bytes → Option A → Option A
of_length size bytes next = if eqb (length bytes) size then next else none

module _ (K : KdfLibs) where
  -- `ScryptKDF::key`
  unfoldable pub key : ScryptKdf → Bytes → Outcome Bytes
  key self password = do
    params ←
        map_err scrypt_kdf_invalid_params_error
          (K.params_new (K.log2 self.params.n) self.params.r self.params.p)
    map_err scrypt_kdf_invalid_output_len_error (K.scrypt password self.salt params box_key_size)

  -- `SecretBoxCipher::encrypt`, with the cipher that it leaves
  unfoldable pub encrypt_box :
      SecretBoxCipher → Bytes → Bytes → Option (Outcome Bytes) × SecretBoxCipher
  encrypt_box self plaintext box_key =
      let sealed = of_length box_nonce_size self.nonce (
        of_length box_key_size box_key
          (some (map_err private_key_encrypt_error (K.seal box_key self.nonce plaintext)))) in
      if self.encrypted
      then (
        some (
            err (
              private_key_encrypt_error
                "Encrypt must only be called once for each cipher instance")),
        self,
      )
      else (sealed, record self { encrypted = true })

  -- `SecretBoxCipher::decrypt`
  unfoldable pub decrypt_box : SecretBoxCipher → Bytes → Bytes → Option (Outcome Bytes)
  decrypt_box self ciphertext box_key = of_length box_nonce_size self.nonce (
      of_length box_key_size box_key
        (some (map_err private_key_encrypt_error (K.unseal box_key self.nonce ciphertext))))

  serialise : ScryptKdf → Option (Outcome Bytes) × SecretBoxCipher → Option (Outcome Bytes)
  serialise kdf (none, cipher) = none
  serialise kdf (some (err e), cipher) = some (err e)
  serialise kdf (some (ok cipher_text), cipher) = some (
      map_err serde_json_error
        (K.to_vec (record { kdf = kdf; cipher = cipher; cipher_text = cipher_text })))

  unfoldable pub encrypt : (ℕ → ℕ) → Bytes → Bytes → Option (Outcome Bytes)
  unfolding serialise
  encrypt source plaintext password =
      let kdf = default_kdf (generate_random source 0 salt_size) in
      let cipher = default_cipher (generate_random source salt_size box_nonce_size) in
      when_ok (key kdf password) (λ box_key. serialise kdf (encrypt_box cipher plaintext box_key))

  -- the checks before a key is derived
  read_data : Bytes → Outcome Data
  unfolding check_params
  read_data ciphertext = do
    data_read ← map_err serde_json_error (K.from_slice ciphertext)
    fail_if (not (data_read.cipher.name == name_secret_box))
        (private_key_decrypt_error (concat ("Unknown cipher name: " ∷ data_read.cipher.name ∷ [])))
    fail_if (not (data_read.kdf.name == name_scrypt))
        (private_key_decrypt_error (concat ("Unknown kdf name: " ∷ data_read.kdf.name ∷ [])))
    check_params data_read.kdf
    ok data_read

  unfoldable pub decrypt : Bytes → Bytes → Option (Outcome Bytes)
  unfolding read_data
  decrypt ciphertext password = when_ok (read_data ciphertext) (λ data_read.
      when_ok (key data_read.kdf password)
        (λ box_key. decrypt_box data_read.cipher data_read.cipher_text box_key))
