-- ===== src/Rekor/Response.antt =====
-- src/rekor/apis/entries_api.rs: `parse_response`, on the UTF-8 bytes of the text.
use sigstore_rs.Prelude.{
  ℕ, zero, suc, ◌-◌, Bytes, Bool, true, not, ◌&&◌, ltb, Option, none, some, [], ◌∷◌, ◌++◌, length,
  if◌then◌else◌,
}

unfoldable pub drop : ℕ → Bytes → Bytes
drop zero bytes = bytes
drop (suc n) [] = []
drop (suc n) (b ∷ bytes) = drop n bytes

unfoldable pub take : ℕ → Bytes → Bytes
take zero bytes = []
take (suc n) [] = []
take (suc n) (b ∷ bytes) = b ∷ take n bytes

-- no continuation byte
unfoldable pub starts_char : Bytes → Bool
starts_char [] = true
starts_char (b ∷ bytes) = not (ltb 127 b && ltb b 192)

-- `&text[from..to]`, which panics out of the text and inside a character
unfoldable pub slice : ℕ → ℕ → Bytes → Option Bytes
slice from to text =
    if not (ltb to from)
      && (not (ltb (length text) to)
          && (starts_char (drop from text) && starts_char (drop to text)))
    then some (take (to - from) (drop from text))
    else none

-- `{"uuid":`
abbrev pub uuid_field : Bytes
uuid_field = 123 ∷ 34 ∷ 117 ∷ 117 ∷ 105 ∷ 100 ∷ 34 ∷ 58 ∷ []

unfoldable pub join_parts : Option Bytes → Option Bytes → Option Bytes
join_parts none rest = none
join_parts (some uuid) none = none
join_parts (some uuid) (some rest) = some (uuid_field ++ uuid ++ 34 ∷ 44 ∷ rest)

-- `len() - 2` stops at 0 here, where the source underflows: the first slice has panicked by then
unfoldable pub parse_response : Bytes → Option Bytes
parse_response content = join_parts (slice 1 82 content) (slice 85 (length content - 2) content)
