-- ===== src/Tests/Storage.antt =====
-- Examples: the cache of TUF targets, and encrypted private keys.
use sigstore_rs.Prelude.{
  ℕ, zero, suc, String, Bytes, Bool, true, false, ◌&&◌, ◌==◌, eq_iff, eqb, eqb_iff, ◌≡◌, ◌≢◌, ◌↔◌,
  ◌⊎◌, refl, sym, ap, ◌∙◌, none, some, [], ◌∷◌, ok, err, length, bytes_eq, bytes_eq_sound, as_bytes,
  if◌then◌else◌, Bool-cases, inl, inr, ok-injective,
}
use sigstore_rs.Crypto.Kdf.{
  Data, KdfLibs, default_kdf, default_cipher, encrypt, decrypt, key, generate_random, encrypt_box,
  decrypt_box, check_params, name_scrypt, name_secret_box, scrypt_n, scrypt_r, scrypt_p,
  box_nonce_size,
}
use sigstore_rs.Crypto.Kdf.Sealing.{
  IsSerialisation, IsBox, HasLength, IsChecked, IsOpened, decrypt-IsOpened, decrypt-panics_iff,
  decrypt-encrypt,
}
use sigstore_rs.Tuf.{
  Repository, Files, fetch_target_or_reuse_local_cache, fetch_target, is_local_file_outdated,
}
use sigstore_rs.Tuf.Caching.{
  IsReused, IsDownloaded, fetch_target_or_reuse_local_cache-sources,
  fetch_target_or_reuse_local_cache-returns,
}
use sigstore_rs.Tests.Toy.{toy}

abbrev key_bytes : Bytes
key_bytes = 107 ∷ []

abbrev repository : Repository
repository = record {
  target_names = "rekor.pub" ∷ [];
  target_hash = λ name. some key_bytes;
  read_target = λ name. ok (some (ok key_bytes));
}

-- a directory of one file, by its text
abbrev files : Files String
files = record {
  exists = λ path s. true;
  read_to_string = λ path s. ok s;
  write = λ path bytes s. (ok tt, "k");
}

downloaded :
    fetch_target_or_reuse_local_cache toy files repository "rekor.pub" (some "dir/rekor.pub") "old"
    ≡ (some (ok key_bytes), "k")
unfolding fetch_target_or_reuse_local_cache fetch_target is_local_file_outdated as_bytes
downloaded = refl

fetch_target_or_reuse_local_cache-sources_example :
    ((text : String) × (key_bytes ≡ as_bytes text)
      × (◌≡◌ {A = String} "k" "old")
      × IsReused toy files repository "rekor.pub" (some "dir/rekor.pub") "old" text)
    ⊎ IsDownloaded toy files repository "rekor.pub" (some "dir/rekor.pub") "old" key_bytes "k"
fetch_target_or_reuse_local_cache-sources_example =
    fetch_target_or_reuse_local_cache-sources toy files repository "rekor.pub"
      (some "dir/rekor.pub") "old" key_bytes "k" downloaded

fetch_target_or_reuse_local_cache-returns_example :
    (fetch_target_or_reuse_local_cache toy files repository "rekor.pub"
      (some "dir/rekor.pub")
      "old").0
    ≢ none
fetch_target_or_reuse_local_cache-returns_example =
    fetch_target_or_reuse_local_cache-returns toy files repository "rekor.pub"
      (some "dir/rekor.pub") "old"

reusable : IsReused toy files repository "rekor.pub" (some "dir/rekor.pub") "k" "k"
unfolding as_bytes
reusable = record {
  path = "dir/rekor.pub";
  given = refl;
  exists = refl;
  read = refl;
  expected = key_bytes;
  reported = refl;
  same = refl;
}

unfoldable pub zeros : ℕ → Bytes
zeros zero = []
zeros (suc n) = 0 ∷ zeros n

length-zeros : (n : ℕ) → length (zeros n) ≡ n
unfolding zeros
length-zeros zero = refl
length-zeros (suc n) = ap suc (length-zeros n)

abbrev pub no_random : ℕ → ℕ
no_random place = 0

abbrev data_of : Bytes → Bytes → Data
data_of nonce text = record {
  kdf = default_kdf (generate_random no_random 0 32);
  cipher = default_cipher nonce;
  cipher_text = text;
}

abbrev good_nonce : Bytes
good_nonce = generate_random no_random 32 24

-- the data that the example writes, all but its text
abbrev is_written : Data → Bool
is_written d =
    (d.kdf.name == name_scrypt)
    && ((d.cipher.name == name_secret_box)
        && (bytes_eq d.kdf.salt (generate_random no_random 0 32)
            && (bytes_eq d.cipher.nonce good_nonce
                && (eqb d.kdf.params.n scrypt_n
                    && (eqb d.kdf.params.r scrypt_r && eqb d.kdf.params.p scrypt_p)))))

abbrev pub kdf_libs : KdfLibs
kdf_libs = record {
  log2 = λ n. 15;
  Params = Unit {0};
  params_new = λ n r p. ok tt;
  scrypt = λ password salt params size. ok (zeros size);
  seal = λ k nonce m. ok m;
  unseal = λ k nonce c. ok c;
  to_vec = λ d. if is_written d then ok d.cipher_text else err "other data";
  from_slice = λ v. ok (data_of good_nonce v);
}

-- the same, reading data whose nonce is empty
abbrev short_nonce : KdfLibs
short_nonce = record kdf_libs { from_slice = λ v. ok (data_of [] v) }

both : (a b : Bool) → a && b ≡ true → (a ≡ true) × (b ≡ true)
both true b h = (refl, h)
both false b h = cc

written :
    (d : Data) (v : Bytes) → kdf_libs.to_vec d ≡ ok v → (is_written d ≡ true) × (d.cipher_text ≡ v)
written d v h = elim (Bool-cases (is_written d)) [
  | inl e ↦ (e, ok-injective (rw e at h))
  | inr e ↦ let g = rw e at h in cc
]

pub serialisation : IsSerialisation kdf_libs
serialisation d v h =
    let (w, text) = written d v h in
    let (a, w₁) = both _ _ w in
    let (b, w₂) = both _ _ w₁ in
    let (c, w₃) = both _ _ w₂ in
    let (e, w₄) = both _ _ w₃ in
    let (n, w₅) = both _ _ w₄ in
    let (r, p) = both _ _ w₅ in
    let kdf_name = (eq_iff d.kdf.name name_scrypt).0 a in
    let cipher_name = (eq_iff d.cipher.name name_secret_box).0 b in
    let salt = bytes_eq_sound d.kdf.salt _ c in
    let nonce = bytes_eq_sound d.cipher.nonce _ e in
    let eq_n = (eqb_iff d.kdf.params.n scrypt_n).0 n in
    let eq_r = (eqb_iff d.kdf.params.r scrypt_r).0 r in
    let eq_p = (eqb_iff d.kdf.params.p scrypt_p).0 p in cc

pub box : IsBox kdf_libs
box k nonce m c h = sym h

lengths : HasLength kdf_libs
lengths password salt params size out h = ap length (sym (ok-injective h)) ∙ length-zeros size

encrypted : encrypt kdf_libs no_random key_bytes [] ≡ some (ok key_bytes)
unfolding encrypt encrypt_box key generate_random zeros
encrypted = refl

decrypted : decrypt kdf_libs key_bytes [] ≡ some (ok key_bytes)
unfolding decrypt decrypt_box key check_params generate_random zeros
decrypted = refl

decrypt-encrypt_example : decrypt kdf_libs key_bytes [] ≡ some (ok key_bytes)
decrypt-encrypt_example =
    decrypt-encrypt kdf_libs no_random key_bytes [] key_bytes serialisation box encrypted

decrypt-IsOpened_example : IsOpened kdf_libs key_bytes [] key_bytes
decrypt-IsOpened_example = decrypt-IsOpened kdf_libs key_bytes [] key_bytes decrypted

decrypt-panics_iff_example : (decrypt short_nonce key_bytes [] ≡ none) ↔ (
    (d : Data) × (short_nonce.from_slice key_bytes ≡ ok d)
    × IsChecked d
    × ((k : Bytes) × (key short_nonce d.kdf [] ≡ ok k))
    × (length d.cipher.nonce ≢ box_nonce_size))
decrypt-panics_iff_example = decrypt-panics_iff short_nonce key_bytes [] lengths

panic : decrypt short_nonce key_bytes [] ≡ none
unfolding decrypt decrypt_box key check_params generate_random zeros
panic = refl
