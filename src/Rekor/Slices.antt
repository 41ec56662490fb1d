-- ===== src/Rekor/Slices.antt =====
-- src/rekor/apis/entries_api.rs: what `parse_response` makes of an answer, and when it panics.
use sigstore_rs.Prelude.{
  ℕ, zero, suc, ◌+◌, ◌-◌, ◌<◌, ◌≤◌, Bytes, true, not, ◌&&◌, ltb, ◌≡◌, ◌≢◌, refl, sym, ap, ◌∙◌, ◌↔◌,
  ◌⊎◌, inl, inr, Option, none, some, [], ◌∷◌, ◌++◌, All, length, arith, if◌then◌else◌, Bool-cases,
}
use sigstore_rs.Rekor.Response.{
  drop, take, starts_char, slice, uuid_field, join_parts, parse_response,
}

abbrev pub IsAscii : Bytes → Type 0
IsAscii = All (λ b. b < 128)

-- every place of an ASCII text starts a character
ascii-drop : (n : ℕ) (text : Bytes) → IsAscii text → starts_char (drop n text) ≡ true
unfolding starts_char drop
ascii-drop zero [] h = refl
ascii-drop zero (b ∷ text) h = let less = h.0 in ground arith
ascii-drop (suc n) [] h = refl
ascii-drop (suc n) (b ∷ text) h = ascii-drop n text h.1

slice-ascii :
    (from to : ℕ) (text : Bytes)
    → IsAscii text
    → slice from to text ≡ (
        if not (ltb to from) && not (ltb (length text) to)
        then some (take (to - from) (drop from text))
        else none)
unfolding slice
slice-ascii from to text h =
    let e = ascii-drop from text h in let f = ascii-drop to text h in ground (arith, e, f)

slice-inside :
    (from to : ℕ) (text : Bytes)
    → IsAscii text
    → from ≤ to
    → to ≤ length text
    → slice from to text ≡ some (take (to - from) (drop from text))
slice-inside from to text h low high = slice-ascii from to text h ∙ ground arith

slice-outside :
    (from to : ℕ) (text : Bytes)
    → IsAscii text
    → (to < from) ⊎ (length text < to)
    → slice from to text ≡ none
slice-outside from to text h (inl less) = slice-ascii from to text h ∙ ground arith
slice-outside from to text h (inr less) = slice-ascii from to text h ∙ ground arith

join_parts-none : (o : Option Bytes) → join_parts o none ≡ none
unfolding join_parts
join_parts-none none = refl
join_parts-none (some uuid) = refl

long_enough : (n : ℕ) → (n < 87) ⊎ (87 ≤ n)
long_enough n = elim (Bool-cases (ltb n 87)) [
  | inl e ↦ inl (ground arith)
  | inr e ↦ inr (ground arith)
]

too_short :
    (content : Bytes) → IsAscii content → length content < 87 → parse_response content ≡ none
unfolding parse_response
too_short content h less =
    ap (join_parts (slice 1 82 content))
      (slice-outside 85 (length content - 2) content h (inl (omega arith)))
    ∙ join_parts-none (slice 1 82 content)

long : (content : Bytes) → IsAscii content → 87 ≤ length content → parse_response content ≢ none
unfolding parse_response join_parts
long content h enough e =
    let first = slice-inside 1 82 content h (omega arith) (omega arith) in
    let second = slice-inside 85 (length content - 2) content h (omega arith) (omega arith) in
    let joined =
      ap (λ x. join_parts x (slice 85 (length content - 2) content)) first
      ∙ ap (join_parts (some (take (82 - 1) (drop 1 content)))) second in
    let g = sym joined ∙ e in cc

-- An answer in ASCII makes parse_response panic exactly where it is shorter than 87 bytes.
pub parse_response_panics_iff :
    (content : Bytes) → IsAscii content → (parse_response content ≡ none) ↔ (length content < 87)
parse_response_panics_iff content h = (
  λ e. elim (long_enough (length content)) [
    | inl less ↦ less
    | inr enough ↦ elim (long content h enough e) [ ]
  ],
  too_short content h,
)

zero_plus : (n : ℕ) → 0 + n ≡ n
zero_plus n = omega arith

suc_plus : (m n : ℕ) → suc m + n ≡ suc (m + n)
suc_plus m n = omega arith

drop-++ : (xs ys : Bytes) (n : ℕ) → drop (length xs + n) (xs ++ ys) ≡ drop n ys
unfolding drop
drop-++ [] ys n = ap (λ m. drop m ys) (zero_plus n)
drop-++ (x ∷ xs) ys n = ap (λ m. drop m (x ∷ (xs ++ ys))) (suc_plus (length xs) n) ∙ drop-++ xs ys n

take-++ : (xs ys : Bytes) → take (length xs) (xs ++ ys) ≡ xs
unfolding take
take-++ [] ys = refl
take-++ (x ∷ xs) ys = ap (λ r. x ∷ r) (take-++ xs ys)

length-++ : (xs ys : Bytes) → length (xs ++ ys) ≡ length xs + length ys
length-++ [] ys = omega arith
length-++ (x ∷ xs) ys = let h = length-++ xs ys in omega arith

-- `{"<uuid>":{<rest>` and two bytes, which Rekor's answers end with
abbrev pub entry_answer : Bytes → Bytes → ℕ → ℕ → Bytes
entry_answer uuid rest x y = 123 ∷ 34 ∷ (uuid ++ 34 ∷ 58 ∷ 123 ∷ (rest ++ x ∷ y ∷ []))

answer_length :
    (uuid rest : Bytes) (x y : ℕ)
    → length uuid ≡ 80
    → length (entry_answer uuid rest x y) ≡ length rest + 87
answer_length uuid rest x y e =
    let f = length-++ uuid (34 ∷ 58 ∷ 123 ∷ (rest ++ x ∷ y ∷ [])) in
    let g = length-++ rest (x ∷ y ∷ []) in omega arith

uuid_part : (uuid tail : Bytes) → length uuid ≡ 80 → take 81 (34 ∷ (uuid ++ tail)) ≡ 34 ∷ uuid
unfolding take
uuid_part uuid tail e =
    ap (λ r. 34 ∷ r) (ap (λ n. take n (uuid ++ tail)) (sym e) ∙ take-++ uuid tail)

eighty_three : {n : ℕ} → n ≡ 80 → 83 ≡ n + 3
eighty_three e = omega arith

left : {n m : ℕ} → n ≡ m + 87 → n - 2 - 85 ≡ m
left e = omega arith

rest_part :
    (uuid rest : Bytes) (x y : ℕ)
    → length uuid ≡ 80
    → take (length rest) (drop 85 (entry_answer uuid rest x y)) ≡ rest
unfolding drop
rest_part uuid rest x y e =
    ap (take (length rest)) (
      ap (λ n. drop n (uuid ++ 34 ∷ 58 ∷ 123 ∷ (rest ++ x ∷ y ∷ []))) (eighty_three e)
      ∙ drop-++ uuid (34 ∷ 58 ∷ 123 ∷ (rest ++ x ∷ y ∷ [])) 3)
    ∙ take-++ rest (x ∷ y ∷ [])

-- An answer in ASCII that is an object of one entry under a UUID of 80 digits becomes the object of
-- that entry with the UUID as its first field; the last two bytes are dropped.
pub parse_response-entry_answer :
    (uuid rest : Bytes) (x y : ℕ)
    → length uuid ≡ 80
    → IsAscii (entry_answer uuid rest x y)
    → parse_response (entry_answer uuid rest x y)
      ≡ some (uuid_field ++ (34 ∷ uuid) ++ 34 ∷ 44 ∷ rest)
unfolding parse_response join_parts drop
parse_response-entry_answer uuid rest x y e h =
    let content = entry_answer uuid rest x y in
    let size = answer_length uuid rest x y e in
    let first =
      slice-inside 1 82 content h (omega arith) (omega arith)
      ∙ ap some (uuid_part uuid (34 ∷ 58 ∷ 123 ∷ (rest ++ x ∷ y ∷ [])) e) in
    let second =
      slice-inside 85 (length content - 2) content h (omega arith) (omega arith)
      ∙ ap (λ n. some (take n (drop 85 content))) (left size)
      ∙ ap some (rest_part uuid rest x y e) in
    ap (λ o. join_parts o (slice 85 (length content - 2) content)) first
    ∙ ap (join_parts (some (34 ∷ uuid))) second
