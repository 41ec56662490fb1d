-- ===== src/Crypto/Certificate/Usage.antt =====
-- Key usages of a certificate: when `verify_key_usages` accepts.
use sigstore_rs.Prelude.{
  ℕ, String, ◌≡◌, ◌↔◌, false, some, List, Memᴰ, bit_and, ok, eqb, any_sound, any_complete, eq_iff,
  eq_refl, ◌==◌, >>=-eq-ok, >>-eq-ok, map_err-eq-ok, ok_or-eq-ok, fail_if-eq-ok, not-eq-false, ◌∙◌,
  ap, subst,
}
use sigstore_rs.Crypto.Libs.{Libs}
use sigstore_rs.Crypto.Pki.{Pki, X509Certificate}
use sigstore_rs.Crypto.Certificate.{verify_key_usages}

-- The key usage extension is there without the bit that the code tests for (the code's error names
-- the opposite, a missing bit), and the extended key usage extension is there and lists code
-- signing.
pub record HasUsages (L : Libs) (P : Pki L) (cert : X509Certificate L) : Type 0 where
  pub bits : ℕ
  pub usage : cert.key_usage ≡ ok (some bits)
  pub without_bit : eqb (bit_and bits P.digital_signature) 1 ≡ false
  pub usages : List String
  pub extended : cert.extended_key_usage ≡ ok (some usages)
  pub code_signing : Memᴰ P.id_kp_code_signing usages

module _ (L : Libs) (P : Pki L) (cert : X509Certificate L) where
  HasUsages-of_ok : verify_key_usages L P cert ≡ ok tt → HasUsages L P cert
  unfolding verify_key_usages
  HasUsages-of_ok h =
      let (found, e₁, h₁) = >>=-eq-ok _ _ h in
      let (bits, e₂, h₂) = >>=-eq-ok _ _ h₁ in
      let (clear, h₃) = >>-eq-ok _ _ h₂ in
      let (found_ext, e₃, h₄) = >>=-eq-ok _ _ h₃ in
      let (usages, e₄, h₅) = >>=-eq-ok _ _ h₄ in
      let (u, m, q) = any_sound _ usages (not-eq-false _ (fail_if-eq-ok _ _ h₅)) in
      record {
        bits = bits;
        usage = map_err-eq-ok _ _ e₁ ∙ ap ok (ok_or-eq-ok _ _ e₂);
        without_bit = fail_if-eq-ok _ _ clear;
        usages = usages;
        extended = map_err-eq-ok _ _ e₃ ∙ ap ok (ok_or-eq-ok _ _ e₄);
        code_signing = subst (λ v. Memᴰ v usages) ((eq_iff _ _).0 q) m;
      }

  ok_of_HasUsages : HasUsages L P cert → verify_key_usages L P cert ≡ ok tt
  unfolding verify_key_usages
  ok_of_HasUsages u =
      rw (u.usage, u.without_bit, u.extended)
        (rw
          (any_complete (λ ext. ext == P.id_kp_code_signing) _ u.usages u.code_signing (eq_refl _)))

  -- `verify_key_usages` accepts a certificate exactly when its key usages are there without the
  -- tested bit and its extended key usages list code signing.
  pub verify_key_usages_iff : (verify_key_usages L P cert ≡ ok tt) ↔ HasUsages L P cert
  verify_key_usages_iff = (HasUsages-of_ok, ok_of_HasUsages)
