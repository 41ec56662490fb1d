-- ===== src/Prelude/Lists.antt =====
-- Sequences: native lengths, byte comparison, `any`, `filter`, `find`, and maps with text keys.
use Prim.Native.Nat.{ℕ, suc}
use mathlib.Core.Path.{◌≡◌, refl, ap, ◌∙◌, sym}
use mathlib.Core.Logic.{◌⊎◌, ◌↔◌, inl, inr}
use mathlib.Core.Bool.{Bool, true, false, ◌&&◌, ◌||◌}
use mathlib.Core.Option.{Option, none, some}
use mathlib.Core.List.{List, [], ◌∷◌, ◌++◌, Memᴰ}
use native.Mathlib.Omega.{arith}
use sigstore_rs.Prelude.Tests.{eqb, if◌then◌else◌, Bool-cases}

-- `&[u8]` and `Vec<u8>`
abbrev pub Bytes : Type 0
Bytes = List ℕ

module _ {ℓ} {A : Type ℓ} where
  abbrev pub length : List A → ℕ
  length [] = 0
  length (x ∷ xs) = suc (length xs)

  abbrev pub is_empty : List A → Bool
  is_empty [] = true
  is_empty (x ∷ xs) = false

  abbrev pub any : (A → Bool) → List A → Bool
  any p [] = false
  any p (x ∷ xs) = p x || any p xs

  abbrev pub filter : (A → Bool) → List A → List A
  filter p [] = []
  filter p (x ∷ xs) = let rest = filter p xs in if p x then x ∷ rest else rest

  abbrev pub find : (A → Bool) → List A → Option A
  find p [] = none
  find p (x ∷ xs) = if p x then some x else find p xs

  abbrev pub All {κ} : (A → Type κ) → List A → Type κ
  All P [] = Unit
  All P (x ∷ xs) = P x × All P xs

-- Equality of byte strings.
abbrev pub bytes_eq : Bytes → Bytes → Bool
bytes_eq [] [] = true
bytes_eq (x ∷ xs) (y ∷ ys) = eqb x y && bytes_eq xs ys
bytes_eq _ _ = false

pub bytes_eq_refl : (xs : Bytes) → bytes_eq xs xs ≡ true
bytes_eq_refl [] = refl
bytes_eq_refl (x ∷ xs) = ground (arith, bytes_eq_refl xs)

pub bytes_eq_sound : (xs ys : Bytes) → bytes_eq xs ys ≡ true → xs ≡ ys
bytes_eq_sound [] [] h = refl
bytes_eq_sound (x ∷ xs) (y ∷ ys) h = ground (arith, bytes_eq_sound xs ys)
bytes_eq_sound [] (y ∷ ys) h = cc
bytes_eq_sound (x ∷ xs) [] h = cc

module _ {ℓ} {A : Type ℓ} (p : A → Bool) where
  pub any_sound : (xs : List A) → any p xs ≡ true → (x : A) × Memᴰ x xs × (p x ≡ true)
  any_sound [] h = cc
  any_sound (x ∷ xs) h = elim (Bool-cases (p x)) [
    | inl e ↦ (x, Memᴰ.head refl, e)
    | inr e ↦ let (y, m, q) = any_sound xs (rw e at h) in (y, Memᴰ.tail m, q)
  ]

  pub any_complete : (x : A) (xs : List A) → Memᴰ x xs → p x ≡ true → any p xs ≡ true
  any_complete x [] m q = elim m [ ]
  any_complete x (y ∷ xs) (Memᴰ.head e) q = ground (arith, ap p e)
  any_complete x (y ∷ xs) (Memᴰ.tail m) q = ground (arith, any_complete x xs m q)

  pub find_sound : (xs : List A) (x : A) → find p xs ≡ some x → Memᴰ x xs × (p x ≡ true)
  find_sound [] x h = cc
  find_sound (y ∷ xs) x h = elim (Bool-cases (p y)) [
    | inl e ↦ (Memᴰ.head (cc), cc)
    | inr e ↦ let (m, q) = find_sound xs x (rw e at h) in (Memᴰ.tail m, q)
  ]

-- Membership.
pub Memᴰ-++-left : {A : Type 0} {x : A} (xs ys : List A) → Memᴰ x xs → Memᴰ x (xs ++ ys)
Memᴰ-++-left [] ys m = elim m [ ]
Memᴰ-++-left (y ∷ xs) ys (Memᴰ.head e) = Memᴰ.head e
Memᴰ-++-left (y ∷ xs) ys (Memᴰ.tail m) = Memᴰ.tail (Memᴰ-++-left xs ys m)

pub Memᴰ-++-right : {A : Type 0} {x : A} (xs ys : List A) → Memᴰ x ys → Memᴰ x (xs ++ ys)
Memᴰ-++-right [] ys m = m
Memᴰ-++-right (y ∷ xs) ys m = Memᴰ.tail (Memᴰ-++-right xs ys m)

pub Memᴰ-++-split :
    {A : Type 0} {x : A} (xs ys : List A) → Memᴰ x (xs ++ ys) → Memᴰ x xs ⊎ Memᴰ x ys
Memᴰ-++-split [] ys m = inr m
Memᴰ-++-split (y ∷ xs) ys (Memᴰ.head e) = inl (Memᴰ.head e)
Memᴰ-++-split (y ∷ xs) ys (Memᴰ.tail m) = elim (Memᴰ-++-split xs ys m) [
  | inl n ↦ inl (Memᴰ.tail n)
  | inr n ↦ inr n
]

pub Memᴰ-only : {A : Type 0} {x y : A} → Memᴰ x (y ∷ []) → x ≡ y
Memᴰ-only (Memᴰ.head e) = e
Memᴰ-only (Memᴰ.tail m) = elim m [ ]

module _ {A : Type 0} (p : A → Bool) where
  filter-Memᴰ : (x : A) (xs : List A) → Memᴰ x (filter p xs) → Memᴰ x xs × (p x ≡ true)
  filter-Memᴰ x [] m = elim m [ ]
  filter-Memᴰ x (y ∷ xs) m = elim (Bool-cases (p y)) [
    | inl e ↦ elim (rw e at m) [
      | Memᴰ.head q ↦ (Memᴰ.head q, ap p q ∙ e)
      | Memᴰ.tail n ↦ let (k, h) = filter-Memᴰ x xs n in (Memᴰ.tail k, h)
    ]
    | inr e ↦ let (k, h) = filter-Memᴰ x xs (rw e at m) in (Memᴰ.tail k, h)
  ]

  Memᴰ-filter : (x : A) (xs : List A) → Memᴰ x xs → p x ≡ true → Memᴰ x (filter p xs)
  Memᴰ-filter x [] m h = elim m [ ]
  Memᴰ-filter x (y ∷ xs) (Memᴰ.head q) h = rw (sym (ap p q) ∙ h) (Memᴰ.head q)
  Memᴰ-filter x (y ∷ xs) (Memᴰ.tail m) h = elim (Bool-cases (p y)) [
    | inl e ↦ rw e (Memᴰ.tail (Memᴰ-filter x xs m h))
    | inr e ↦ rw e (Memᴰ-filter x xs m h)
  ]

  pub filter-Memᴰ_iff : (x : A) (xs : List A) → Memᴰ x (filter p xs) ↔ (Memᴰ x xs × (p x ≡ true))
  filter-Memᴰ_iff x xs = (filter-Memᴰ x xs, λ q. Memᴰ-filter x xs q.0 q.1)
