-- ===== src/Crypto/CertificatePool/Loading.antt =====
-- Which certificates a pool trusts.
use sigstore_rs.Prelude.{
  ◌≡◌, ◌≢◌, refl, sym, subst, ap, ◌∙◌, ◌⊎◌, inl, inr, ok, Result, List, [], ◌∷◌, Memᴰ,
  Memᴰ-++-split, Memᴰ-only, ◌>>=◌, >>=-eq-ok, map_err, map_err-eq-ok, ok-injective, is_empty,
  if◌then◌else◌,
}
use sigstore_rs.Errors.{cert_error}
use sigstore_rs.Registry.Config.{Certificate}
use sigstore_rs.Crypto.Libs.{Libs}
use sigstore_rs.Crypto.Pki.{Pki, CertType, root, intermediate, other_type}
use sigstore_rs.Crypto.CertificatePool.{
  CertificatePool, parse_certificate, empty_pool, add, collect, complete, from_certificates,
  fulcio_intermediate_v1,
}

module _ (L : Libs) (P : Pki L) where
  -- one of the given certificates, parsed by its encoding, of that type
  pub record IsGiven (certs : List Certificate) (type : CertType) (pc : P.PickyCert) : Type 0 where
    pub certificate : Certificate
    pub listed : Memᴰ certificate certs
    pub parsed : parse_certificate L P certificate.encoding certificate.data_bytes ≡ ok pc
    pub of_type : P.ty pc ≡ type

  -- the two lists of a pool hold what they held before, and the given ones of their types
  record IsGrown (before : CertificatePool L P) (certs : List Certificate)
      (after : CertificatePool L P) : Type 0 where
    pub roots :
        (pc : P.PickyCert)
        → Memᴰ pc after.trusted_roots
        → Memᴰ pc before.trusted_roots ⊎ IsGiven certs root pc
    pub intermediates :
        (pc : P.PickyCert)
        → Memᴰ pc after.intermediates
        → Memᴰ pc before.intermediates ⊎ IsGiven certs intermediate pc

  later :
      (c : Certificate) (certs : List Certificate) (type : CertType) (pc : P.PickyCert)
      → IsGiven certs type pc
      → IsGiven (c ∷ certs) type pc
  later c certs type pc g = record {
    certificate = g.certificate;
    listed = Memᴰ.tail g.listed;
    parsed = g.parsed;
    of_type = g.of_type;
  }

  -- after one certificate
  add-IsGrown :
      (c : Certificate) (pc : P.PickyCert) (before after : CertificatePool L P) (type : CertType)
      → parse_certificate L P c.encoding c.data_bytes ≡ ok pc
      → P.ty pc ≡ type
      → add L P type pc before ≡ ok after
      → IsGrown before (c ∷ []) after
  unfolding add
  add-IsGrown c pc before after root p t h =
      subst (λ (x : CertificatePool L P). IsGrown before (c ∷ []) x) (ok-injective h)
        (record {
          roots = λ x m. elim (Memᴰ-++-split before.trusted_roots (pc ∷ []) m) [
            | inl old ↦ inl old
            | inr new ↦
                let e = sym (Memᴰ-only new) in
                inr (record {
                  certificate = c;
                  listed = Memᴰ.head refl;
                  parsed = p ∙ ap ok e;
                  of_type = ap P.ty (sym e) ∙ t;
                })
          ];
          intermediates = λ x m. inl m;
        })
  add-IsGrown c pc before after intermediate p t h =
      subst (λ (x : CertificatePool L P). IsGrown before (c ∷ []) x) (ok-injective h)
        (record {
          roots = λ x m. inl m;
          intermediates = λ x m. elim (Memᴰ-++-split before.intermediates (pc ∷ []) m) [
            | inl old ↦ inl old
            | inr new ↦
                let e = sym (Memᴰ-only new) in
                inr (record {
                  certificate = c;
                  listed = Memᴰ.head refl;
                  parsed = p ∙ ap ok e;
                  of_type = ap P.ty (sym e) ∙ t;
                })
          ];
        })
  add-IsGrown c pc before after other_type p t h = cc

  first :
      (c : Certificate) (certs : List Certificate) (type : CertType) (pc : P.PickyCert)
      → IsGiven (c ∷ []) type pc
      → IsGiven (c ∷ certs) type pc
  first c certs type pc g = record {
    certificate = g.certificate;
    listed = Memᴰ.head (Memᴰ-only g.listed);
    parsed = g.parsed;
    of_type = g.of_type;
  }

  collect-IsGrown :
      (before after : CertificatePool L P) (certs : List Certificate)
      → collect L P before certs ≡ ok after
      → IsGrown before certs after
  unfolding collect
  collect-IsGrown before after [] h =
      subst (λ (x : CertificatePool L P). IsGrown before [] x) (ok-injective h)
        (record { roots = λ x m. inl m; intermediates = λ x m. inl m })
  collect-IsGrown before after (c ∷ certs) h =
      let (pc, p, h₁) = >>=-eq-ok (parse_certificate L P c.encoding c.data_bytes) _ h in
      let (middle, a, h₂) = >>=-eq-ok (add L P (P.ty pc) pc before) _ h₁ in
      let one = add-IsGrown c pc before middle (P.ty pc) p refl a in
      let rest = collect-IsGrown middle after certs h₂ in
      record {
        roots = λ x m. elim (rest.roots x m) [
          | inr g ↦ inr (later c certs root x g)
          | inl old ↦ elim (one.roots x old) [
            | inl older ↦ inl older
            | inr g ↦ inr (first c certs root x g)
          ]
        ];
        intermediates = λ x m. elim (rest.intermediates x m) [
          | inr g ↦ inr (later c certs intermediate x g)
          | inl old ↦ elim (one.intermediates x old) [
            | inl older ↦ inl older
            | inr g ↦ inr (first c certs intermediate x g)
          ]
        ];
      }

  complete-built_in :
      (pool after : CertificatePool L P)
      → (map_err cert_error (P.picky_from_pem_str fulcio_intermediate_v1)
          >>= (λ pc. ok (record pool { intermediates = pc ∷ [] })))
        ≡ ok after
      → (after.trusted_roots ≡ pool.trusted_roots)
        × ((pc : P.PickyCert) × (P.picky_from_pem_str fulcio_intermediate_v1 ≡ ok pc)
            × (after.intermediates ≡ pc ∷ []))
  complete-built_in pool after h =
      let (pc, e, h₁) = >>=-eq-ok _ _ h in
      let same = ok-injective h₁ in
      (
        ap (λ (x : CertificatePool L P). x.trusted_roots) (sym same),
        (pc, map_err-eq-ok _ _ e, ap (λ (x : CertificatePool L P). x.intermediates) (sym same)),
      )

  empty-or :
      {A B E : Type 0} (xs : List B) (r s : Result E A) {a : A}
      → (if is_empty xs then r else s) ≡ ok a
      → ((xs ≡ []) × (r ≡ ok a)) ⊎ ((xs ≢ []) × (s ≡ ok a))
  empty-or [] r s h = inl (refl, h)
  empty-or (x ∷ xs) r s h = inr (λ e. cc, h)

  -- the pool as it is, or with the built-in intermediate alone
  complete-cases :
      (pool after : CertificatePool L P)
      → complete L P pool ≡ ok after
      → (after.trusted_roots ≡ pool.trusted_roots)
        × (((after.intermediates ≡ pool.intermediates) × (after.intermediates ≢ []))
            ⊎ ((pc : P.PickyCert) × (P.picky_from_pem_str fulcio_intermediate_v1 ≡ ok pc)
                × (pool.intermediates ≡ [])
                × (after.intermediates ≡ pc ∷ [])))
  unfolding complete
  complete-cases pool after h = elim (empty-or pool.intermediates _ _ h) [
    | inl p ↦
        let (r, found) = complete-built_in pool after p.1 in
        let (pc, e, i) = found in (r, inr (pc, e, p.0, i))
    | inr p ↦
        let same = ok-injective p.1 in
        (
          ap (λ (x : CertificatePool L P). x.trusted_roots) (sym same),
          inl (
            ap (λ (x : CertificatePool L P). x.intermediates) (sym same),
            λ e. p.0 (ap (λ (x : CertificatePool L P). x.intermediates) same ∙ e),
          ),
        )
  ]

  only_new : {A : Type 0} {x : A} {B : Type 0} → Memᴰ x [] ⊎ B → B
  only_new (inl m) = elim m [ ]
  only_new (inr b) = b

  -- A pool trusts no root but the given certificates of the type root, and its intermediates, of which
  -- there is at least one, are given ones or the built-in one.
  pub from_certificates-IsGiven :
      (certs : List Certificate) (pool : CertificatePool L P)
      → from_certificates L P certs ≡ ok pool
      → ((pc : P.PickyCert) → Memᴰ pc pool.trusted_roots → IsGiven certs root pc)
        × ((pc : P.PickyCert)
            → Memᴰ pc pool.intermediates
            → IsGiven certs intermediate pc ⊎ (P.picky_from_pem_str fulcio_intermediate_v1 ≡ ok pc))
        × (pool.intermediates ≢ [])
  unfolding from_certificates
  from_certificates-IsGiven certs pool h =
      let (collected, c, k) = >>=-eq-ok (collect L P (empty_pool L P) certs) _ h in
      let grown = collect-IsGrown (empty_pool L P) collected certs c in
      let (same, filled) = complete-cases collected pool k in
      (
        λ pc m. only_new (grown.roots pc (subst (λ xs. Memᴰ pc xs) same m)),
        λ pc m. elim filled [
          | inl p ↦ inl (only_new (grown.intermediates pc (subst (λ xs. Memᴰ pc xs) p.0 m)))
          | inr p ↦
              let (built_in, e, none_given, i) = p in
              inr (e ∙ ap ok (sym (Memᴰ-only (subst (λ xs. Memᴰ pc xs) i m))))
        ],
        elim filled [
          | inl p ↦ p.1
          | inr p ↦ let (built_in, e, none_given, i) = p in λ q. let g = sym i ∙ q in cc
        ],
      )
