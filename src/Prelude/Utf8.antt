-- ===== src/Prelude/Utf8.antt =====
-- Texts and their UTF-8 bytes: `str::as_bytes` and `String::from_utf8` of the standard library.
use Prim.Native.Nat.{ℕ, ◌+◌, ◌-◌, ◌*◌, ◌/◌, ◌%◌, compare, Ordering}
use Prim.Native.Char.{Char, char, code, IsLt}
use Prim.Native.String.{String}
use mathlib.Core.Path.{◌≡◌, refl}
use mathlib.Core.Bool.{Bool, ◌&&◌}
use mathlib.Core.Option
use mathlib.Core.Option.{Option, none, some}
use mathlib.Core.List.{[], ◌∷◌, ◌++◌}
use sigstore_rs.Prelude.Tests.{ltb, if◌then◌else◌}
use sigstore_rs.Prelude.Lists.{Bytes}

-- the bytes of one code point
encode_char : ℕ → Bytes
encode_char c =
    if ltb c 128
    then c ∷ []
    else if ltb c 2048
    then (192 + c / 64) ∷ (128 + c % 64) ∷ []
    else if ltb c 65536
    then (224 + c / 4096) ∷ (128 + c / 64 % 64) ∷ (128 + c % 64) ∷ []
    else (240 + c / 262144) ∷ (128 + c / 4096 % 64) ∷ (128 + c / 64 % 64) ∷ (128 + c % 64) ∷ []

unfoldable pub as_bytes : String → Bytes
unfolding encode_char
as_bytes String.[] = []
as_bytes (String.◌∷◌ c s) = encode_char (code c) ++ as_bytes s

abbrev BothLt : Ordering → Ordering → Type 0
BothLt Ordering.lt o = IsLt o
BothLt Ordering.eq _ = ⊥
BothLt Ordering.gt _ = ⊥

-- what makes a number a Unicode scalar value, by its three comparisons
abbrev Scalar : Ordering → Ordering → Ordering → Type 0
Scalar Ordering.lt _ _ = Unit
Scalar Ordering.eq o p = BothLt o p
Scalar Ordering.gt o p = BothLt o p

dec_scalar : (o p q : Ordering) → Option (Scalar o p q)
dec_scalar Ordering.lt p q = some tt
dec_scalar Ordering.eq Ordering.lt Ordering.lt = some tt
dec_scalar Ordering.gt Ordering.lt Ordering.lt = some tt
dec_scalar _ _ _ = none

-- `char::from_u32`
to_char : ℕ → Option Char
unfolding dec_scalar
to_char n = Option.map (char n) (dec_scalar (compare n 55296) (compare 57343 n) (compare n 1114112))

is_continuation : ℕ → Bool
is_continuation b = ltb 127 b && ltb b 192

prepend : Option Char → Option String → Option String
prepend none s = none
prepend (some c) none = none
prepend (some c) (some s) = some (String.◌∷◌ c s)

-- a sequence of several bytes: its code point must need that many of them
decoded : Bool → ℕ → ℕ → Option String → Option String
unfolding to_char prepend
decoded valid least n rest = if valid && ltb (least - 1) n then prepend (to_char n) rest else none

-- `none` for what is no UTF-8: a stray or missing continuation byte, an overlong form, a surrogate,
-- a number over 0x10FFFF.
unfoldable pub from_utf8 : Bytes → Option String
unfolding decoded is_continuation
from_utf8 [] = some ""
from_utf8 (a ∷ []) = if ltb a 128 then prepend (to_char a) (some "") else none
from_utf8 (a ∷ b ∷ []) =
    let one = from_utf8 (b ∷ []) in
    if ltb a 128
    then prepend (to_char a) one
    else if ltb a 224
    then decoded (ltb 191 a && is_continuation b) 128 ((a - 192) * 64 + (b - 128)) (some "")
    else none
from_utf8 (a ∷ b ∷ c ∷ []) =
    let one = from_utf8 (b ∷ c ∷ []) in
    let two = from_utf8 (c ∷ []) in
    if ltb a 128
    then prepend (to_char a) one
    else if ltb a 224
    then decoded (ltb 191 a && is_continuation b) 128 ((a - 192) * 64 + (b - 128)) two
    else if ltb a 240
    then decoded (is_continuation b && is_continuation c) 2048
        ((a - 224) * 4096 + (b - 128) * 64 + (c - 128)) (some "")
    else none
from_utf8 (a ∷ b ∷ c ∷ d ∷ s) =
    let one = from_utf8 (b ∷ c ∷ d ∷ s) in
    let two = from_utf8 (c ∷ d ∷ s) in
    let three = from_utf8 (d ∷ s) in
    let four = from_utf8 s in
    if ltb a 128
    then prepend (to_char a) one
    else if ltb a 224
    then decoded (ltb 191 a && is_continuation b) 128 ((a - 192) * 64 + (b - 128)) two
    else if ltb a 240
    then decoded (is_continuation b && is_continuation c) 2048
        ((a - 224) * 4096 + (b - 128) * 64 + (c - 128)) three
    else decoded (ltb a 248 && is_continuation b && is_continuation c && is_continuation d) 65536
        ((a - 240) * 262144 + (b - 128) * 4096 + (c - 128) * 64 + (d - 128)) four

utf8_ascii : from_utf8 (as_bytes "rekor.pub") ≡ some "rekor.pub"
unfolding from_utf8 as_bytes
utf8_ascii = refl

utf8_wide : from_utf8 (as_bytes "é → 𝕀") ≡ some "é → 𝕀"
unfolding from_utf8 as_bytes
utf8_wide = refl

utf8_surrogate : from_utf8 (237 ∷ 160 ∷ 128 ∷ []) ≡ none
unfolding from_utf8
utf8_surrogate = refl

utf8_overlong : from_utf8 (192 ∷ 128 ∷ []) ≡ none
unfolding from_utf8
utf8_overlong = refl
