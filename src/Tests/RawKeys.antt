-- ===== src/Tests/RawKeys.antt =====
-- Examples: a signer made from the file of an encrypted private key.
use sigstore_rs.Prelude.{String, true, none, some, [], ◌∷◌, ok, ◌≡◌, refl, ap, as_bytes}
use sigstore_rs.Errors.{SigstoreError}
use sigstore_rs.Crypto.Scheme
use sigstore_rs.Crypto.VerificationKey
use sigstore_rs.Crypto.VerificationKey.{CosignVerificationKey}
use sigstore_rs.Crypto.SigningKey.Ec
use sigstore_rs.Crypto.SigningKey.Signer
use sigstore_rs.Crypto.SigningKey.Roundtrip.{from_encrypted_pem-private_key_to_encrypted_pem}
use sigstore_rs.Cosign.SignatureLayer.{SignatureLayer}
use sigstore_rs.Cosign.VerificationConstraint.{verify_public_key}
use sigstore_rs.Cosign.Constraint.{PrivateKeySigner, add_signature}
use sigstore_rs.Cosign.Constraint.Signing.{IsBase64}
use sigstore_rs.Cosign.Constraint.PrivateKey.{
  new_with_signer, new_with_raw, read_key_pair, verify_public_key-new_with_raw,
}
use sigstore_rs.Tests.Toy.{toy_json, toy_signing, encode, decode-encode}
use sigstore_rs.Tests.Storage.{kdf_libs, serialisation, box, no_random}
use sigstore_rs.Tests.Signing.{
  libs, signing, sign_verifies, pkcs8, p384_pair, password, pem, written, p384_signer, converted,
  derived,
}

abbrev show : SigstoreError → String
show e = "error"

abbrev p384_key : CosignVerificationKey libs
p384_key = VerificationKey.ecdsa_p384_sha384_asn1 (9 ∷ [])

abbrev unsigned : SignatureLayer libs
unsigned = record {
  simple_signing = toy_signing "d";
  oci_digest = "d";
  certificate_signature = none;
  bundle = none;
  signature = none;
  raw_data = [];
}

abbrev raw_signed : SignatureLayer libs
raw_signed = record unsigned { raw_data = 100 ∷ []; signature = some (encode (9 ∷ 100 ∷ [])) }

abbrev raw_signer : PrivateKeySigner
raw_signer = new_with_signer signing kdf_libs show no_random p384_signer

decrypted :
    read_key_pair signing kdf_libs show no_random (as_bytes pem) password ≡ some (ok p384_pair)
unfolding read_key_pair
decrypted =
    from_encrypted_pem-private_key_to_encrypted_pem signing kdf_libs pkcs8 serialisation box
      p384_pair no_random 1 [] pem refl written

made :
    new_with_raw signing kdf_libs show no_random
      (as_bytes pem)
      password
      Scheme.ecdsa_p384_sha384_asn1
    ≡ some (ok raw_signer)
unfolding new_with_raw
made = rw (decrypted, converted) refl

applied : add_signature libs toy_json raw_signer unsigned ≡ (ok true, raw_signed)
unfolding add_signature new_with_signer Signer.sign Ec.sign as_bytes
applied = refl

base64 : IsBase64 libs
base64 bytes = ap ok (decode-encode bytes)

verify_public_key-new_with_raw_example :
    verify_public_key libs (record { key = p384_key }) raw_signed ≡ ok true
verify_public_key-new_with_raw_example =
    verify_public_key-new_with_raw signing kdf_libs show no_random (as_bytes pem) password
      Scheme.ecdsa_p384_sha384_asn1 p384_pair p384_signer decrypted converted toy_json raw_signer
      p384_key unsigned raw_signed sign_verifies base64 derived made applied
