-- ===== src/Tuf.antt =====
-- src/tuf: Rekor's public key and Fulcio's certificates out of sigstore's TUF repository, with the
-- cache of a local directory. The crates tough and url and the file system `S` are parameters.
pub mod Caching
use sigstore_rs.Prelude.{
  String, Bytes, Bool, true, false, Option, none, some, List, [], ◌∷◌, ok, err, map_err, ok_or,
  ◌>>=◌, filter, bytes_eq, as_bytes, from_utf8, if◌then◌else◌,
}
use mathlib.Core.Option
use sigstore_rs.Errors.{
  Outcome, Foreign, tuf_error, tuf_target_not_found_error, io_error, unexpected_error,
}
use sigstore_rs.Crypto.Libs.{Libs}
use sigstore_rs.Registry.Config.{Certificate, pem}

-- tough: a loaded repository, by what the source reads of it; the names are those of its targets
pub record Repository : Type 0 where
  pub target_names : List String
  -- `targets.get(name)`, by the SHA-256 hash that the metadata reports
  pub target_hash : String → Option Bytes
  -- `read_target(name)`: no such target, or the reader with what reading it to the end gives
  pub read_target : String → Foreign (Option (Foreign Bytes))

pub record Tough : Type 0 where
  -- `TargetName::new` by the raw name, the test of the Fulcio regex, and `Path::join`
  pub target_name : String → Foreign String
  pub is_fulcio : String → Bool
  pub join : String → String → String
  -- `Url::parse`, and the loader of the repository from its root and its two addresses
  pub parse_url : String → Foreign String
  pub load : Bytes → String → String → Foreign Repository

-- std::fs on a state
pub record Files (S : Type 0) : Type 0 where
  pub exists : String → S → Bool
  pub read_to_string : String → S → Foreign String
  pub write : String → Bytes → S → Foreign (Unit {0}) × S

-- a run on the file system; `none` is a panic
abbrev pub Run : Type 0 → Type 0 → Type 0
Run S A = S → Option (Outcome A) × S

abbrev pub then_run :
    {S A B : Type 0} → Option (Outcome A) × S → (A → Run S B) → Option (Outcome B) × S
then_run (some (ok a), s) f = f a s
then_run (some (err e), s) f = (some (err e), s)
then_run (none, s) f = (none, s)

abbrev pub return : {S A : Type 0} → Outcome A → Run S A
return r s = (some r, s)

-- src/tuf/constants.rs: SIGSTORE_REKOR_PUB_KEY_TARGET
abbrev pub rekor_pub_key_target : String
rekor_pub_key_target = "rekor.pub"

read_to_end : Foreign Bytes → Outcome Bytes
read_to_end reader = map_err io_error reader

fetch_reader : String → Option (Foreign Bytes) → Outcome Bytes
unfolding read_to_end
fetch_reader name none = err (tuf_target_not_found_error name)
fetch_reader name (some reader) = read_to_end reader

unfoldable pub fetch_target : Repository → String → Outcome Bytes
unfolding fetch_reader
fetch_target repository target_name = do
  found ← map_err tuf_error (repository.read_target target_name)
  fetch_reader target_name found

module _ (L : Libs) {S : Type 0} (F : Files S) where
  -- the comparison of the two digests
  compare_digests : Bytes → String → Bool × Option String
  compare_digests expected_digest text =
      if bytes_eq (L.sha256_digest (as_bytes text)) expected_digest
      then (false, some text)
      else (true, none)

  unfoldable pub is_local_file_outdated :
      Repository → String → String → S → Outcome (Bool × Option String)
  unfolding compare_digests
  is_local_file_outdated repository target_name local_file s = do
    expected_digest ←
        ok_or (tuf_target_not_found_error target_name) (repository.target_hash target_name)
    let compared = (do
      text ← map_err io_error (F.read_to_string local_file s)
      ok (compare_digests expected_digest text))
    if F.exists local_file s then compared else ok (true, none)

  -- the `if let Some(path)` around it
  check_local : Repository → String → Option String → S → Outcome (Bool × Option String)
  unfolding is_local_file_outdated
  check_local repository target_name none s = ok (true, none)
  check_local repository target_name (some path) s =
      is_local_file_outdated repository target_name path s

  store : Option String → Bytes → Run S Bytes
  store none data_bytes s = (some (ok data_bytes), s)
  store (some path) data_bytes s =
      let (written, s') = F.write path data_bytes s in
      (some (map_err io_error written >>= (λ _. ok data_bytes)), s')

  -- the two branches on the flag; `expect` panics where the contents are missing
  use_local : Repository → String → Option String → Bool × Option String → Run S Bytes
  unfolding store
  use_local repository target_name local_file (true, contents) s =
      then_run (return (fetch_target repository target_name) s) (store local_file)
  use_local repository target_name local_file (false, some contents) s =
      (some (ok (as_bytes contents)), s)
  use_local repository target_name local_file (false, none) s = (none, s)

  unfoldable pub fetch_target_or_reuse_local_cache :
      Repository → String → Option String → Run S Bytes
  unfolding check_local use_local
  fetch_target_or_reuse_local_cache repository target_name local_file s =
      then_run (return (check_local repository target_name local_file s) s)
        (use_local repository target_name local_file)

module _ (L : Libs) (T : Tough) {S : Type 0} (F : Files S) where
  unfoldable pub fulcio_cert_target_names : Repository → List String
  fulcio_cert_target_names repository = filter T.is_fulcio repository.target_names

  -- the loop over the names
  fetch_certs : Repository → Option String → List String → Run S (List Certificate)
  fetch_certs repository checkout_dir [] s = (some (ok []), s)
  fetch_certs repository checkout_dir (name ∷ names) s =
      then_run
        (fetch_target_or_reuse_local_cache L F repository name
          (Option.map (λ d. T.join d name) checkout_dir) s)
        (λ data_bytes s'.
          then_run (fetch_certs repository checkout_dir names s')
            (λ certs. return (ok (record { encoding = pem; data_bytes = data_bytes } ∷ certs))))

  unfoldable pub fulcio_certs : Repository → Option String → Run S (List Certificate)
  unfolding fetch_certs
  fulcio_certs repository checkout_dir =
      fetch_certs repository checkout_dir (fulcio_cert_target_names repository)

  unfoldable pub rekor_pub_key : Repository → Option String → Run S Bytes
  rekor_pub_key repository checkout_dir s =
      then_run (return (map_err tuf_error (T.target_name rekor_pub_key_target)) s) (λ name.
        fetch_target_or_reuse_local_cache L F repository name
          (Option.map (λ d. T.join d rekor_pub_key_target) checkout_dir))

pub record SigstoreRepository : Type 0 where
  pub rekor_pub_key : String
  pub fulcio_certs : List Certificate

module _ (L : Libs) (T : Tough) {S : Type 0} (F : Files S) where
  key_text : Bytes → Outcome String
  key_text bytes =
      ok_or (unexpected_error "Cannot parse Rekor's public key obtained from TUF repository")
        (from_utf8 bytes)

  -- `SigstoreRepository::fetch`; `root`, `metadata` and `target` are the embedded root and addresses
  unfoldable pub fetch : Bytes → String → String → Option String → Run S SigstoreRepository
  unfolding key_text
  fetch root metadata target checkout_dir s =
      let loaded : Outcome Repository = (do
        metadata_base ←
            map_err (λ _. unexpected_error "Cannot convert metadata_base to URL")
              (T.parse_url metadata)
        target_base ←
            map_err (λ _. unexpected_error "Cannot convert target_base to URL") (T.parse_url target)
        map_err tuf_error (T.load root metadata_base target_base)) in
      then_run (return loaded s) (λ repository s₁.
        then_run (fulcio_certs L T F repository checkout_dir s₁) (λ certs s₂.
          then_run (rekor_pub_key L T F repository checkout_dir s₂) (λ bytes. return (
            key_text bytes
            >>= (λ text. ok (record { rekor_pub_key = text; fulcio_certs = certs }))))))
