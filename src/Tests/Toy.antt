-- ===== src/Tests/Toy.antt =====
-- Small concrete libraries in place of the crates: keys and signatures are byte strings, a digest is
-- its input, and a signature is the key followed by the message.
use sigstore_rs.Prelude.{
  ℕ, zero, suc, eqb, ◌+◌, pos, String, Bytes, ◌||◌, ◌≡◌, refl, ap, ◌∙◌, none, some, [], ◌∷◌, ◌++◌,
  ok, err, bytes_eq, as_bytes, from_utf8, concat, if◌then◌else◌, arith,
}
use sigstore_rs.Errors.{Foreign}
use sigstore_rs.Crypto.Libs.{Libs}
use sigstore_rs.Crypto.Pki.{
  Pki, X509Certificate, CertType, root, intermediate, other_type, rfc822_name,
}
use sigstore_rs.Registry.Libs.{OciLibs}
use sigstore_rs.Cosign.Payload.{SimpleSigning, critical_type_name}
use sigstore_rs.Cosign.Bundle.{Json, Bundle}

-- a byte n is n letters `a` and one `b`
letters : ℕ → String → String
letters zero s = String.◌∷◌ "b" s
letters (suc n) s = String.◌∷◌ "a" (letters n s)

unfoldable pub encode : Bytes → String
unfolding letters
encode [] = ""
encode (n ∷ ns) = letters n (encode ns)

decode_from : ℕ → Bytes → Bytes
decode_from n [] = []
decode_from n (b ∷ bytes) = if eqb b 97 then decode_from (suc n) bytes else n ∷ decode_from 0 bytes

unfoldable pub decode : Bytes → Bytes
unfolding decode_from
decode bytes = decode_from 0 bytes

decode_from-letters :
    (n m : ℕ) (s : String)
    → decode_from n (as_bytes (letters m s)) ≡ (n + m) ∷ decode_from 0 (as_bytes s)
unfolding decode_from letters as_bytes
decode_from-letters n zero s = ap (λ x. x ∷ decode_from 0 (as_bytes s)) (omega arith)
decode_from-letters n (suc m) s =
    decode_from-letters (suc n) m s ∙ ap (λ x. x ∷ decode_from 0 (as_bytes s)) (omega arith)

pub decode-encode : (bytes : Bytes) → decode (as_bytes (encode bytes)) ≡ bytes
unfolding decode encode as_bytes
decode-encode [] = refl
decode-encode (n ∷ ns) =
    decode_from-letters 0 n (encode ns)
    ∙ ap (λ k. k ∷ decode (as_bytes (encode ns))) (omega arith)
    ∙ ap (λ xs. n ∷ xs) (decode-encode ns)

-- a key's bytes follow the mark of its kind
abbrev pub keyed : ℕ → Bytes → Foreign Bytes
keyed mark [] = err "empty key"
keyed mark (b ∷ bytes) = if bytes_eq (b ∷ []) (mark ∷ []) then ok bytes else err "another kind"

abbrev pub toy_verify : Bytes → Bytes → Bytes → Foreign (Unit {0})
toy_verify key msg sig = if bytes_eq (key ++ msg) sig then ok tt else err "mismatch"

abbrev pub toy : Libs
toy = record {
  sha256_digest = λ m. m;
  sha384_digest = λ m. m;
  base64_decode = λ b. ok (decode b);
  base64_encode = encode;
  pem_parse = λ b. ok (record { tag = "PUBLIC KEY"; contents = b });
  Spki = String × Bytes;
  spki_algorithm = λ s. s.0;
  spki_public_key = λ s. s.1;
  id_ec_public_key = "1.2.840.10045.2.1";
  rsa_encryption = "1.2.840.113549.1.1.1";
  RsaPublicKey = Bytes;
  rsa_from_der = keyed 7;
  rsa_from_spki = λ s. ok s.1;
  PssKey = λ d. Bytes;
  pss_new = λ d k. k;
  PssSignature = Bytes;
  pss_signature = ok;
  pss_verify = λ d. toy_verify;
  Pkcs1Key = λ d. Bytes;
  pkcs1_new_with_prefix = λ d k. k;
  pkcs1_from = λ d k. k;
  Pkcs1Signature = Bytes;
  pkcs1_signature = ok;
  pkcs1_verify = λ d. toy_verify;
  P256Key = Bytes;
  p256_from_der = keyed 4;
  p256_from_spki = λ s. ok s.1;
  P256Signature = Bytes;
  p256_signature_from_der = ok;
  p256_verify_digest = toy_verify;
  P384Key = Bytes;
  p384_from_der = keyed 5;
  p384_from_spki = λ s. ok s.1;
  P384Signature = Bytes;
  p384_signature_from_der = ok;
  p384_verify_digest = toy_verify;
  Ed25519Key = Bytes;
  ed25519_from_der = keyed 6;
  ed25519_from_spki = λ s. ok s.1;
  ed25519_public_key_bytes_from_der = keyed 6;
  ed25519_from_bytes = ok;
  Ed25519Signature = Bytes;
  ed25519_signature_from_slice = ok;
  ed25519_verify = toy_verify;
}

abbrev pub toy_certificate : X509Certificate toy
toy_certificate = record {
  key_usage = ok (some 0);
  extended_key_usage = ok (some ("code signing" ∷ []));
  subject_alt_name = ok (some (rfc822_name "alice" ∷ []));
  validity = record {
    not_before = record { instant = pos 10; text = "ten" };
    not_after = record { instant = pos 20; text = "twenty" };
  };
  subject_public_key_info = ("1.3.101.112", 1 ∷ []);
  extensions = some [];
}

-- a root starts with `R`, an intermediate with `I` or `-`
abbrev toy_type : Bytes → CertType
toy_type [] = other_type
toy_type (b ∷ bytes) =
    if eqb b 82 then root else if eqb b 73 || eqb b 45 then intermediate else other_type

abbrev pub toy_pki : Pki toy
toy_pki = record {
  certificate_from_der = λ b. ok toy_certificate;
  digital_signature = 1;
  id_kp_code_signing = "code signing";
  from_timestamp_opt = some;
  show_time = λ t. "a time";
  PickyCert = Bytes;
  Date = Unit {0};
  picky_from_pem_str = λ s. ok (as_bytes s);
  picky_from_der = ok;
  ty = toy_type;
  is_parent_of = λ parent child. ok tt;
  valid_not_before = λ c. tt;
  verify_chain = λ cert chain date. ok tt;
}

abbrev text_of : Bytes → String
text_of bytes = elim (from_utf8 bytes) [ none ↦ "" | some s ↦ s ]

abbrev pub toy_signing : String → SimpleSigning
toy_signing digest = record {
  critical = record {
    identity = record { docker_reference = "image" };
    image = record { docker_manifest_digest = digest };
    type_name = critical_type_name;
  };
  optional = none;
}

-- Rekor's key here is the empty key
abbrev pub toy_bundle : Bundle
toy_bundle = record {
  signed_entry_timestamp = encode (98 ∷ []);
  payload = record { body = "b"; integrated_time = pos 15; log_index = pos 1; log_id = "log" };
}

abbrev pub toy_json : Json
toy_json = record {
  simple_signing_to_vec = λ s. ok (as_bytes s.critical.image.docker_manifest_digest);
  simple_signing_from_slice = λ b. ok (toy_signing (text_of b));
  bundle_from_str = λ s. ok toy_bundle;
  signed_artifact_bundle_from_str = λ s. err "none";
  canonical_payload = λ p. ok (as_bytes p.body);
}

abbrev pub toy_oci : OciLibs
toy_oci = record {
  Reference = String;
  parse = ok;
  with_tag = λ registry repository tag. concat (registry ∷ "/" ∷ repository ∷ ":" ∷ tag ∷ []);
  with_digest =
      λ registry repository digest. concat (registry ∷ "/" ∷ repository ∷ "@" ∷ digest ∷ []);
  resolve_registry = λ r. "registry";
  registry = λ r. "registry";
  repository = λ r. "repository";
  tag = λ r. none;
  digest = λ r. none;
  whole = λ r. r;
  to_string = λ r. r;
  sha256_digest = λ l. text_of l.data_bytes;
  oci_v1 = λ b. record { data_bytes = b };
  build = λ layers config annotations. record {
    media_type = none;
    layers = [];
    annotations = annotations;
  };
  image_media_type = "image";
}
