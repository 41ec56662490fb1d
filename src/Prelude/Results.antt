-- ===== src/Prelude/Results.antt =====
-- `std::result::Result`, its chaining by `?`, and the conversions of an `Option` or an error.
use mathlib.Core.Path.{◌≡◌, refl}
use mathlib.Core.Bool.{Bool, true, false}
use mathlib.Core.Option.{Option, none, some}
use mathlib.Core.Logic.{◌≢◌, ◌⊎◌, inl, inr}
use mathlib.Core.List.{List, [], ◌∷◌, Memᴰ}
use sigstore_rs.Prelude.Tests.{if◌then◌else◌}
use sigstore_rs.Prelude.Lists.{is_empty}

pub data Result {ℓ} (E A : Type ℓ) : Type ℓ where
  ok : A → Result E A
  err : E → Result E A

infixl 5 ◌>>=◌ ◌>>◌
abbrev pub ◌>>=◌ {ℓ} : {E A B : Type ℓ} → Result E A → (A → Result E B) → Result E B
ok a >>= f = f a
err e >>= f = err e

abbrev pub ◌>>◌ {ℓ} : {E B : Type ℓ} → Result E (Unit {ℓ}) → Result E B → Result E B
ok a >> r = r
err e >> r = err e

abbrev pub map_err {ℓ} : {E F A : Type ℓ} → (E → F) → Result E A → Result F A
map_err f (ok a) = ok a
map_err f (err e) = err (f e)

abbrev pub map_ok {ℓ} : {E A B : Type ℓ} → (A → B) → Result E A → Result E B
map_ok f (ok a) = ok (f a)
map_ok f (err e) = err e

abbrev pub ok_or {ℓ} : {E A : Type ℓ} → E → Option A → Result E A
ok_or e none = err e
ok_or e (some a) = ok a

abbrev pub is_ok {ℓ} : {E A : Type ℓ} → Result E A → Bool
is_ok (ok a) = true
is_ok (err e) = false

-- `Option<Result<A>>::transpose`
abbrev pub transpose {ℓ} : {E A : Type ℓ} → Option (Result E A) → Result E (Option A)
transpose none = ok none
transpose (some (ok a)) = ok (some a)
transpose (some (err e)) = err e

-- an early return of an error when the test holds
abbrev pub fail_if {ℓ} : {E : Type ℓ} → Bool → E → Result E (Unit {ℓ})
fail_if true e = err e
fail_if false e = ok tt

pub Result-cases {ℓ} :
    {E A : Type ℓ} (r : Result E A) → ((a : A) × (r ≡ ok a)) ⊎ ((e : E) × (r ≡ err e))
Result-cases (ok a) = inl (a, refl)
Result-cases (err e) = inr (e, refl)

-- Inversions of a successful chain.
pub >>=-eq-ok {ℓ} :
    {E A B : Type ℓ} (outcome : Result E A) (next : A → Result E B) {result : B}
    → (outcome >>= next) ≡ ok result
    → (value : A) × (outcome ≡ ok value) × (next value ≡ ok result)
>>=-eq-ok (err e) next h = cc
>>=-eq-ok (ok value) next h = (value, refl, h)

pub >>-eq-ok {ℓ} :
    {E B : Type ℓ} (m : Result E (Unit {ℓ})) (r : Result E B) {b : B}
    → (m >> r) ≡ ok b
    → (m ≡ ok tt) × (r ≡ ok b)
>>-eq-ok (ok tt) r h = (refl, h)
>>-eq-ok (err e) r h = cc

pub map_err-eq-ok {ℓ} :
    {E F A : Type ℓ} (f : E → F) (r : Result E A) {a : A} → map_err f r ≡ ok a → r ≡ ok a
map_err-eq-ok f (ok b) h = cc
map_err-eq-ok f (err e) h = cc

pub ok_or-eq-ok {ℓ} : {E A : Type ℓ} (e : E) (o : Option A) {a : A} → ok_or e o ≡ ok a → o ≡ some a
ok_or-eq-ok e none h = cc
ok_or-eq-ok e (some b) h = cc

pub fail_if-eq-ok {ℓ} : {E : Type ℓ} (b : Bool) (e : E) → fail_if b e ≡ ok tt → b ≡ false
fail_if-eq-ok true e h = cc
fail_if-eq-ok false e h = refl

pub is_ok_sound : {E : Type 0} (r : Result E Unit) → is_ok r ≡ true → r ≡ ok tt
is_ok_sound (ok u) h = refl
is_ok_sound (err e) h = cc

-- the tests of an `if` whose branches are `ok tt` and an error
pub test_of_ok :
    {E : Type 0} (e : E) (b : Bool)
    → ◌≡◌ {A = Result E Unit} (if b then ok tt else err e) (ok tt)
    → b ≡ true
test_of_ok e true h = refl
test_of_ok e false h = cc

pub fail_of_ok :
    {E : Type 0} (e : E) (b : Bool)
    → ◌≡◌ {A = Result E Unit} (if b then err e else ok tt) (ok tt)
    → b ≡ false
fail_of_ok e true h = cc
fail_of_ok e false h = refl

pub ok-injective : {E A : Type 0} {a b : A} → ◌≡◌ {A = Result E A} (ok a) (ok b) → a ≡ b
ok-injective h = cc

pub map_ok-eq-ok :
    {E A B : Type 0} (f : A → B) (r : Result E A) {b : B}
    → map_ok f r ≡ ok b
    → (a : A) × (r ≡ ok a) × (f a ≡ b)
map_ok-eq-ok f (ok a) h = (a, refl, ok-injective h)
map_ok-eq-ok f (err e) h = cc

pub some-injective : {A : Type 0} {a b : A} → some a ≡ some b → a ≡ b
some-injective h = cc

-- the `if` that turns an empty list into an error
pub nonempty-eq-ok :
    {A E : Type 0} (e : E) (xs : List A) {ys : List A}
    → ◌≡◌ {A = Result E (List A)} (if is_empty xs then err e else ok xs) (ok ys)
    → xs ≡ ys
nonempty-eq-ok e [] h = cc
nonempty-eq-ok e (x ∷ xs) h = ok-injective h

pub nonempty-eq-err :
    {A E : Type 0} (e : E) (xs : List A) {e' : E}
    → ◌≡◌ {A = Result E (List A)} (if is_empty xs then err e else ok xs) (err e')
    → (e' ≡ e) × (xs ≡ [])
nonempty-eq-err e [] h = (cc, refl)
nonempty-eq-err e (x ∷ xs) h = cc

pub err-injective : {E A : Type 0} {a b : E} → ◌≡◌ {A = Result E A} (err a) (err b) → a ≡ b
err-injective h = cc

-- the `if` that makes any member an error
pub empty-eq-ok :
    {A : Type 0} (xs : List A)
    → ◌≡◌ {A = Result (List A) Unit} (if is_empty xs then ok tt else err xs) (ok tt)
    → xs ≡ []
empty-eq-ok [] h = refl
empty-eq-ok (x ∷ xs) h = cc

pub empty-eq-err :
    {A : Type 0} (xs : List A) {ys : List A}
    → ◌≡◌ {A = Result (List A) Unit} (if is_empty xs then ok tt else err xs) (err ys)
    → (xs ≡ ys) × (ys ≢ [])
empty-eq-err [] h = cc
empty-eq-err (x ∷ xs) h = (err-injective h, λ e. cc)

pub ok_of_no_member :
    {A : Type 0} (xs : List A)
    → ((x : A) → ¬ Memᴰ x xs)
    → ◌≡◌ {A = Result (List A) Unit} (if is_empty xs then ok tt else err xs) (ok tt)
ok_of_no_member [] h = refl
ok_of_no_member (x ∷ xs) h = elim (h x (Memᴰ.head refl)) [ ]
