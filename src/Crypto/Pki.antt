-- ===== src/Crypto/Pki.antt =====
-- What src/crypto and src/cosign use of x509_cert, picky, chrono and the system clock: parsed
-- certificates by the results of the accessors that the source calls, and the functions as a
-- parameter of the model.
use sigstore_rs.Prelude.{ℕ, ℤ, String, Bytes, Option, List}
use sigstore_rs.Errors.{Foreign}
use sigstore_rs.Crypto.Libs.{Libs}

-- `x509_cert::time::Time`: the instant, in seconds since the epoch, and its printed form
pub record Time : Type 0 where
  pub instant : ℤ
  pub text : String

pub record Validity : Type 0 where
  pub not_before : Time
  pub not_after : Time

-- `GeneralName`; the source tells these two from the other kinds
pub data GeneralName : Type 0 where
  rfc822_name uniform_resource_identifier : String → GeneralName
  other_name : GeneralName

pub record Extension : Type 0 where
  pub extn_id : String
  pub extn_value : Bytes

-- `x509_cert::Certificate`: `get::<…>` of the three extensions, the validity, the public key and
-- the list of extensions of its `tbs_certificate`
pub record X509Certificate (L : Libs) : Type 0 where
  pub key_usage : Foreign (Option ℕ)
  pub extended_key_usage : Foreign (Option (List String))
  pub subject_alt_name : Foreign (Option (List GeneralName))
  pub validity : Validity
  pub subject_public_key_info : L.Spki
  pub extensions : Option (List Extension)

-- `picky::x509::certificate::CertType`; the source tells the first two from the others
pub data CertType : Type 0 where
  root intermediate other_type : CertType

pub record Pki (L : Libs) : Type 1 where
  pub certificate_from_der : Bytes → Foreign (X509Certificate L)
  -- `KeyUsages::DigitalSignature as u16`, and the OID of code signing
  pub digital_signature : ℕ
  pub id_kp_code_signing : String
  -- `NaiveDateTime::from_timestamp_opt(t, 0)`: the instant, where the type holds it; its text
  pub from_timestamp_opt : ℤ → Option ℤ
  pub show_time : ℤ → String
  -- picky
  pub PickyCert : Type 0
  pub Date : Type 0
  pub picky_from_pem_str : String → Foreign PickyCert
  pub picky_from_der : Bytes → Foreign PickyCert
  pub ty : PickyCert → CertType
  pub is_parent_of : PickyCert → PickyCert → Foreign (Unit {0})
  pub valid_not_before : PickyCert → Date
  -- `cert.verifier().chain(chain).exact_date(date).verify()`
  pub verify_chain : PickyCert → List PickyCert → Date → Foreign (Unit {0})
