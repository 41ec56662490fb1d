-- ===== src/Cosign/VerificationConstraint/Checking.antt =====
-- Which constraints `verify_constraints` (src/cosign/mod.rs) finds satisfied.
use sigstore_rs.Prelude.{
  ok, err, ◌≡◌, refl, ap, ◌∙◌, sym, subst, Bool, true, false, List, [], ◌∷◌, Memᴰ, ◌↔◌, ◌≢◌, filter,
  filter-Memᴰ_iff, ok_of_no_member, inl, inr, Bool-cases, empty-eq-ok, empty-eq-err,
}
use sigstore_rs.Errors.{Outcome}
use sigstore_rs.Crypto.Libs.{Libs}
use sigstore_rs.Cosign.SignatureLayer.{SignatureLayer}
use sigstore_rs.Cosign.VerificationConstraint.{
  VerificationConstraint, verified, is_unsatisfied, verify_constraints,
}

-- one of the layers for which the constraint answers true
pub record IsSatisfied (L : Libs) (sls : List (SignatureLayer L)) (c : VerificationConstraint L)
    : Type 0 where
  pub layer : SignatureLayer L
  pub listed : Memᴰ layer sls
  pub verifies : c layer ≡ ok true

module _ (L : Libs) where
  verified-true : (r : Outcome Bool) → verified r ≡ true → r ≡ ok true
  unfolding verified
  verified-true (ok b) h = ap ok h
  verified-true (err e) h = cc

  IsSatisfied-sound :
      (sls : List (SignatureLayer L)) (c : VerificationConstraint L)
      → is_unsatisfied sls c ≡ false
      → IsSatisfied L sls c
  unfolding is_unsatisfied
  IsSatisfied-sound [] c h = cc
  IsSatisfied-sound (sl ∷ sls) c h = elim (Bool-cases (verified (c sl))) [
    | inl e ↦ record { layer = sl; listed = Memᴰ.head refl; verifies = verified-true (c sl) e }
    | inr e ↦
        let s = IsSatisfied-sound sls c (rw e at h) in
        record { layer = s.layer; listed = Memᴰ.tail s.listed; verifies = s.verifies }
  ]

  satisfied_complete :
      (sls : List (SignatureLayer L)) (c : VerificationConstraint L) (sl : SignatureLayer L)
      → Memᴰ sl sls
      → c sl ≡ ok true
      → is_unsatisfied sls c ≡ false
  unfolding is_unsatisfied verified
  satisfied_complete [] c sl m h = elim m [ ]
  satisfied_complete (x ∷ sls) c sl (Memᴰ.head e) h = rw (sym (ap c e) ∙ h) refl
  satisfied_complete (x ∷ sls) c sl (Memᴰ.tail m) h = elim (Bool-cases (verified (c x))) [
    | inl e ↦ rw e refl
    | inr e ↦ rw e (satisfied_complete sls c sl m h)
  ]

  IsSatisfied-iff :
      (sls : List (SignatureLayer L)) (c : VerificationConstraint L)
      → (is_unsatisfied sls c ≡ true) ↔ ¬ IsSatisfied L sls c
  IsSatisfied-iff sls c = (
    λ h s. elim (Bool-cases (is_unsatisfied sls c)) [
      | inl e ↦ let f = satisfied_complete sls c s.layer s.listed s.verifies in cc
      | inr e ↦ cc
    ],
    λ h. elim (Bool-cases (is_unsatisfied sls c)) [
      | inl e ↦ e
      | inr e ↦ elim (h (IsSatisfied-sound sls c e)) [ ]
    ],
  )

  -- The constraints are verified exactly when every one of them is satisfied by some layer.
  pub verify_constraints_iff :
      (sls : List (SignatureLayer L)) (cs : List (VerificationConstraint L))
      → (verify_constraints L sls cs ≡ ok tt)
        ↔ ((c : VerificationConstraint L) → Memᴰ c cs → IsSatisfied L sls c)
  unfolding verify_constraints
  verify_constraints_iff sls cs = (
    λ h c m. elim (Bool-cases (is_unsatisfied sls c)) [
      | inl e ↦
          elim (subst (λ xs. Memᴰ c xs) (empty-eq-ok _ h)
            ((filter-Memᴰ_iff (is_unsatisfied sls) c cs).1 (m, e))) [ ]
      | inr e ↦ IsSatisfied-sound sls c e
    ],
    λ all. ok_of_no_member (filter (is_unsatisfied sls) cs) (λ c m.
        let (listed, e) = (filter-Memᴰ_iff (is_unsatisfied sls) c cs).0 m in
        (IsSatisfied-iff sls c).0 e (all c listed)),
  )

  -- The error lists exactly the constraints that no layer satisfies, and there is one.
  pub verify_constraints-eq-err :
      (sls : List (SignatureLayer L)) (cs us : List (VerificationConstraint L))
      → verify_constraints L sls cs ≡ err us
      → (us ≢ [])
        × ((c : VerificationConstraint L) → Memᴰ c us ↔ (Memᴰ c cs × ¬ IsSatisfied L sls c))
  unfolding verify_constraints
  verify_constraints-eq-err sls cs us h =
      let (same, nonempty) = empty-eq-err _ h in
      (
        nonempty,
        λ c. (
          λ m.
              let (listed, e) =
                (filter-Memᴰ_iff (is_unsatisfied sls) c cs).0
                  (subst (λ xs. Memᴰ c xs) (sym same) m) in
              (listed, (IsSatisfied-iff sls c).0 e),
          λ p.
              subst (λ xs. Memᴰ c xs) same
                ((filter-Memᴰ_iff (is_unsatisfied sls) c cs).1
                  (p.0, (IsSatisfied-iff sls c).1 p.1)),
        ),
      )

  pub verify_constraints-two :
      (sl : SignatureLayer L) (c d : VerificationConstraint L)
      → c sl ≡ ok true
      → d sl ≡ ok true
      → verify_constraints L (sl ∷ []) (c ∷ d ∷ []) ≡ ok tt
  unfolding verify_constraints is_unsatisfied verified
  verify_constraints-two sl c d h k = rw (h, k) refl
