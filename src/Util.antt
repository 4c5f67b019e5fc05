-- ===== src/Util.antt =====
-- src/util.rs: text helpers. A text is the list of its characters' code points.
pub mod Mac
use router_hub.Common.{
  ℕ, zero, suc, ◌+◌, ◌*◌, ◌-◌, Bool, true, false, ◌&&◌, ◌||◌, List, [], ◌∷◌, ◌++◌, map, Option,
  none, some, leb, ltb, nat_beq, if◌then◌else◌, length,
}

unfoldable pub is_ascii_alphanumeric : ℕ → Bool
is_ascii_alphanumeric c =
    (leb b'0' c && leb c b'9') || (leb b'a' c && leb c b'z') || (leb b'A' c && leb c b'Z')

-- `"-_.".contains(character)`.
unfoldable pub is_name_punctuation : ℕ → Bool
is_name_punctuation c = nat_beq c b'-' || nat_beq c b'_' || nat_beq c b'.'

unfoldable pub all_simple : List ℕ → Bool
all_simple [] = true
all_simple (c ∷ s) = (is_ascii_alphanumeric c || is_name_punctuation c) && all_simple s

abbrev pub is_empty : List ℕ → Bool
is_empty [] = true
is_empty (c ∷ s) = false

-- Bytes of the UTF-8 encoding of a character, which `str::len` counts.
unfoldable pub utf8_len : ℕ → ℕ
utf8_len c = if ltb c 128 then 1 else if ltb c 2048 then 2 else if ltb c 65536 then 3 else 4

unfoldable pub byte_len : List ℕ → ℕ
byte_len [] = 0
byte_len (c ∷ s) = utf8_len c + byte_len s

-- `true` is `Ok(())`.
unfoldable pub validate_simple_name : List ℕ → Bool
validate_simple_name value =
    if is_empty value || ltb 128 (byte_len value) || (if all_simple value then false else true)
    then false
    else true

-- `str::split` at one character.
unfoldable pub split_from : ℕ → List ℕ → List ℕ → List (List ℕ)
split_from sep cur [] = cur ∷ []
split_from sep cur (c ∷ s) =
    let closed = split_from sep [] s in
    let longer = split_from sep (cur ++ c ∷ []) s in if nat_beq c sep then cur ∷ closed else longer

unfoldable pub split : ℕ → List ℕ → List (List ℕ)
split sep s = split_from sep [] s

-- `char::to_digit(16)`.
unfoldable pub hex_digit : ℕ → Option ℕ
hex_digit c =
    if leb b'0' c && leb c b'9'
    then some (c - b'0')
    else if leb b'a' c && leb c b'f'
    then some (c - b'a' + 10)
    else if leb b'A' c && leb c b'F'
    then some (c - b'A' + 10)
    else none

-- The digits of `u8::from_str_radix(_, 16)`, which fails when the value leaves the byte.
unfoldable pub hex_digits : ℕ → List ℕ → Option ℕ
hex_digits acc [] = some acc
hex_digits acc (c ∷ s) = elim (hex_digit c) [
  | none ↦ none
  | some d ↦ let rest = hex_digits (acc * 16 + d) s in if ltb (acc * 16 + d) 256 then rest else none
]

-- `u8::from_str_radix(_, 16)`: one plus sign may stand in front of the digits.
unfoldable pub parse_hex_byte : List ℕ → Option ℕ
parse_hex_byte [] = none
parse_hex_byte (c ∷ []) = hex_digits 0 (c ∷ [])
parse_hex_byte (c ∷ d ∷ s) =
    if nat_beq c b'+' then hex_digits 0 (d ∷ s) else hex_digits 0 (c ∷ d ∷ s)

-- `value.replace('-', ":")`.
abbrev pub normalize : List ℕ → List ℕ
normalize = map (λ c. if nat_beq c b'-' then b':' else c)

unfoldable pub parse_parts : List (List ℕ) → Option (List ℕ)
parse_parts [] = some []
parse_parts (part ∷ parts) = elim (parse_hex_byte part) [
  | none ↦ none
  | some byte ↦ elim (parse_parts parts) [ none ↦ none | some bytes ↦ some (byte ∷ bytes) ]
]

unfoldable pub parse_mac : List ℕ → Option (List ℕ)
parse_mac value =
    let parts = split b':' (normalize value) in
    if nat_beq (length parts) 6 then parse_parts parts else none
