-- ===== src/Crypto/CertificatePool/Chains.antt =====
-- When a pool accepts a certificate: the chains that are tried, against a relation.
use mathlib.Core.List.Memᴰ
use mathlib.Core.List.{Memᴰ}
use sigstore_rs.Prelude.{
  ◌≡◌, refl, ◌↔◌, inl, inr, true, List, [], ◌∷◌, map, any_sound, any_complete, ok, is_ok,
  Bool-cases, ap, subst, sym, is_ok_sound, test_of_ok,
}
use sigstore_rs.Crypto.Libs.{Libs}
use sigstore_rs.Crypto.Pki.{Pki}
use sigstore_rs.Crypto.CertificatePool.{
  CertificatePool, chains_through, chains_through_all, create_chains_for_all_certificates, verify,
}

module _ (L : Libs) (P : Pki L) where
  -- a chain of the pool: a root, or an intermediate under a root that is its parent
  pub data IsChain (pool : CertificatePool L P) : List P.PickyCert → Type 0 where
    direct : (r : P.PickyCert) → Memᴰ r pool.trusted_roots → IsChain pool (r ∷ [])
    through :
        (i r : P.PickyCert)
        → Memᴰ i pool.intermediates
        → Memᴰ r pool.trusted_roots
        → P.is_parent_of r i ≡ ok tt
        → IsChain pool (i ∷ r ∷ [])

  pub record IsIssued (pool : CertificatePool L P) (cert : P.PickyCert) : Type 0 where
    pub chain : List P.PickyCert
    pub of_pool : IsChain pool chain
    pub accepted : P.verify_chain cert chain (P.valid_not_before cert) ≡ ok tt

  abbrev Through : P.PickyCert → List P.PickyCert → List P.PickyCert → Type 0
  Through i roots chain =
      (r : P.PickyCert) × Memᴰ r roots × (P.is_parent_of r i ≡ ok tt) × (chain ≡ i ∷ r ∷ [])

  chains_through_sound :
      (i : P.PickyCert) (roots : List P.PickyCert) (chain : List P.PickyCert)
      → Memᴰ chain (chains_through L P i roots)
      → Through i roots chain
  unfolding chains_through
  chains_through_sound i [] chain m = elim m [ ]
  chains_through_sound i (r ∷ roots) chain m = elim (Bool-cases (is_ok (P.is_parent_of r i))) [
    | inl parent ↦ elim (Memᴰ.cases_cons (rw parent at m)) [
      | inl e ↦ (r, Memᴰ.head refl, is_ok_sound _ parent, e)
      | inr later ↦
          let (r', m', p, e) = chains_through_sound i roots chain later in (r', Memᴰ.tail m', p, e)
    ]
    | inr other ↦
        let (r', m', p, e) = chains_through_sound i roots chain (rw other at m) in
        (r', Memᴰ.tail m', p, e)
  ]

  chains_through_complete :
      (i r : P.PickyCert) (roots : List P.PickyCert)
      → Memᴰ r roots
      → P.is_parent_of r i ≡ ok tt
      → Memᴰ (i ∷ r ∷ []) (chains_through L P i roots)
  unfolding chains_through
  chains_through_complete i r [] m p = elim m [ ]
  chains_through_complete i r (r' ∷ roots) (Memᴰ.head e) p =
      let parent : is_ok (P.is_parent_of r' i) ≡ true = rw (← e, p) in
      rw parent (Memᴰ.head (ap (λ x. i ∷ x ∷ []) e))
  chains_through_complete i r (r' ∷ roots) (Memᴰ.tail m) p =
      let later = chains_through_complete i r roots m p in
      elim (Bool-cases (is_ok (P.is_parent_of r' i))) [
        | inl parent ↦ rw parent (Memᴰ.tail later)
        | inr other ↦ rw other later
      ]

  chains_through_all_sound :
      (is roots : List P.PickyCert) (chain : List P.PickyCert)
      → Memᴰ chain (chains_through_all L P is roots)
      → (i : P.PickyCert) × Memᴰ i is × Through i roots chain
  unfolding chains_through_all
  chains_through_all_sound [] roots chain m = elim m [ ]
  chains_through_all_sound (i ∷ is) roots chain m =
      elim (Memᴰ.append_cases (chains_through L P i roots) m) [
        | inl here ↦ (i, Memᴰ.head refl, chains_through_sound i roots chain here)
        | inr later ↦
            let (i', m', t) = chains_through_all_sound is roots chain later in (i', Memᴰ.tail m', t)
      ]

  chains_through_all_complete :
      (is roots : List P.PickyCert) (i r : P.PickyCert)
      → Memᴰ i is
      → Memᴰ r roots
      → P.is_parent_of r i ≡ ok tt
      → Memᴰ (i ∷ r ∷ []) (chains_through_all L P is roots)
  unfolding chains_through_all
  chains_through_all_complete [] roots i r m n p = elim m [ ]
  chains_through_all_complete (i' ∷ is) roots i r (Memᴰ.head e) n p =
      Memᴰ.append_left (chains_through_all L P is roots)
        (rw (← e) (chains_through_complete i r roots n p))
  chains_through_all_complete (i' ∷ is) roots i r (Memᴰ.tail m) n p =
      Memᴰ.append_right (chains_through L P i' roots)
        (chains_through_all_complete is roots i r m n p)

  IsChain-of_mem :
      (pool : CertificatePool L P) (chain : List P.PickyCert)
      → Memᴰ chain (create_chains_for_all_certificates L P pool)
      → IsChain pool chain
  unfolding create_chains_for_all_certificates
  IsChain-of_mem pool chain m = elim (Memᴰ.append_cases (map (λ r. r ∷ []) pool.trusted_roots) m) [
    | inl short ↦
        let (r, n, e) = Memᴰ.of_map (λ r. r ∷ []) pool.trusted_roots short in
        subst (IsChain pool) e (direct r n)
    | inr long ↦
        let (i, m', t) =
          chains_through_all_sound pool.intermediates pool.trusted_roots chain long in
        let (r, n, p, e) = t in subst (IsChain pool) (sym e) (through i r m' n p)
  ]

  mem_of_chain :
      {pool : CertificatePool L P} {chain : List P.PickyCert}
      → IsChain pool chain
      → Memᴰ chain (create_chains_for_all_certificates L P pool)
  unfolding create_chains_for_all_certificates
  mem_of_chain {pool} (direct r m) =
      Memᴰ.append_left (chains_through_all L P pool.intermediates pool.trusted_roots)
        (Memᴰ.map (λ r. r ∷ []) m)
  mem_of_chain {pool} (through i r m n p) =
      Memᴰ.append_right (map (λ r. r ∷ []) pool.trusted_roots)
        (chains_through_all_complete pool.intermediates pool.trusted_roots i r m n p)

  IsIssued-of_ok :
      (pool : CertificatePool L P) (cert : P.PickyCert)
      → verify L P pool cert ≡ ok tt
      → IsIssued pool cert
  unfolding verify
  IsIssued-of_ok pool cert h =
      let (chain, m, accepted) = any_sound _ _ (test_of_ok _ _ h) in
      record {
        chain = chain;
        of_pool = IsChain-of_mem pool chain m;
        accepted = is_ok_sound _ accepted;
      }

  -- A pool accepts a certificate exactly when the certificate verifies, at the date on which it
  -- becomes valid, against a chain of the pool: one trusted root, or an intermediate of the pool
  -- and a trusted root that is its parent.
  pub verify_iff :
      (pool : CertificatePool L P) (cert : P.PickyCert)
      → (verify L P pool cert ≡ ok tt) ↔ IsIssued pool cert
  unfolding verify
  verify_iff pool cert = (
    IsIssued-of_ok pool cert,
    λ issued. rw (
        any_complete (λ chain. is_ok (P.verify_chain cert chain (P.valid_not_before cert)))
          issued.chain (create_chains_for_all_certificates L P pool) (mem_of_chain issued.of_pool)
          (rw issued.accepted)),
  )
