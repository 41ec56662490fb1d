-- ===== src/Crypto/Libs.antt =====
-- What src/crypto calls of other crates (rsa, ecdsa, p256, p384, ed25519, ed25519_dalek, spki, sha2,
-- base64, pem): their types and functions, as a parameter of the model. An error of theirs is the
-- text that it renders to.
use sigstore_rs.Prelude.{String, Bytes}
use sigstore_rs.Errors.{Foreign}

-- the digest that a key type of the rsa crate is indexed by: `VerifyingKey<D>`
pub data Digest : Type 0 where
  sha256 sha384 sha512 : Digest

-- `pem::Pem`, by the two fields that the source reads and fills
pub record Pem : Type 0 where
  pub tag : String
  pub contents : Bytes

pub record Libs : Type 1 where
  -- sha2
  pub sha256_digest : Bytes → Bytes
  pub sha384_digest : Bytes → Bytes
  -- base64, the standard engine
  pub base64_decode : Bytes → Foreign Bytes
  pub base64_encode : Bytes → String
  -- pem
  pub pem_parse : Bytes → Foreign Pem
  -- spki::SubjectPublicKeyInfo, and the OIDs of const_oid that the source compares with
  pub Spki : Type 0
  pub spki_algorithm : Spki → String
  pub spki_public_key : Spki → Bytes
  pub id_ec_public_key : String
  pub rsa_encryption : String
  -- rsa
  pub RsaPublicKey : Type 0
  pub rsa_from_der : Bytes → Foreign RsaPublicKey
  pub rsa_from_spki : Spki → Foreign RsaPublicKey
  pub PssKey : Digest → Type 0
  pub pss_new : (d : Digest) → RsaPublicKey → PssKey d
  pub PssSignature : Type 0
  pub pss_signature : Bytes → Foreign PssSignature
  pub pss_verify : (d : Digest) → PssKey d → Bytes → PssSignature → Foreign (Unit {0})
  pub Pkcs1Key : Digest → Type 0
  pub pkcs1_new_with_prefix : (d : Digest) → RsaPublicKey → Pkcs1Key d
  pub pkcs1_from : (d : Digest) → RsaPublicKey → Pkcs1Key d
  pub Pkcs1Signature : Type 0
  pub pkcs1_signature : Bytes → Foreign Pkcs1Signature
  pub pkcs1_verify : (d : Digest) → Pkcs1Key d → Bytes → Pkcs1Signature → Foreign (Unit {0})
  -- ecdsa over the two curves; the message enters as its digest
  pub P256Key : Type 0
  pub p256_from_der : Bytes → Foreign P256Key
  pub p256_from_spki : Spki → Foreign P256Key
  pub P256Signature : Type 0
  pub p256_signature_from_der : Bytes → Foreign P256Signature
  pub p256_verify_digest : P256Key → Bytes → P256Signature → Foreign (Unit {0})
  pub P384Key : Type 0
  pub p384_from_der : Bytes → Foreign P384Key
  pub p384_from_spki : Spki → Foreign P384Key
  pub P384Signature : Type 0
  pub p384_signature_from_der : Bytes → Foreign P384Signature
  pub p384_verify_digest : P384Key → Bytes → P384Signature → Foreign (Unit {0})
  -- ed25519 and ed25519_dalek
  pub Ed25519Key : Type 0
  pub ed25519_from_der : Bytes → Foreign Ed25519Key
  pub ed25519_from_spki : Spki → Foreign Ed25519Key
  pub ed25519_public_key_bytes_from_der : Bytes → Foreign Bytes
  pub ed25519_from_bytes : Bytes → Foreign Ed25519Key
  pub Ed25519Signature : Type 0
  pub ed25519_signature_from_slice : Bytes → Foreign Ed25519Signature
  pub ed25519_verify : Ed25519Key → Bytes → Ed25519Signature → Foreign (Unit {0})
