-- ===== src/Util/Mac.antt =====
-- src/util.rs: `parse_mac` against a printer of addresses.
use router_hub.Common.{
  ℕ, ◌+◌, ◌-◌, ◌/◌, ◌%◌, ◌<◌, ◌≡◌, refl, false, List, [], ◌∷◌, ◌++◌, map, some, arith, ltb, nat_beq,
  if◌then◌else◌, length, length-map,
}
use mathlib.Core.List.{map-append}
use router_hub.Util.{
  split_from, split, hex_digit, hex_digits, parse_hex_byte, normalize, parse_parts, parse_mac,
}

-- One hexadecimal digit, in lower case.
unfoldable pub hex_char : ℕ → ℕ
hex_char d = if ltb d 10 then b'0' + d else b'a' + (d - 10)

-- Two digits.
unfoldable pub print_byte : ℕ → List ℕ
print_byte b = hex_char (b / 16) ∷ hex_char (b % 16) ∷ []

-- The bytes with `sep` between them.
unfoldable pub print_mac : ℕ → List ℕ → List ℕ
print_mac sep [] = []
print_mac sep (b ∷ []) = print_byte b
print_mac sep (b ∷ c ∷ bs) = print_byte b ++ sep ∷ print_mac sep (c ∷ bs)

abbrev pub AllBytes : List ℕ → Type 0
AllBytes [] = Unit {0}
AllBytes (b ∷ bs) = (b < 256) × AllBytes bs

hex_digit-hex_char : (d : ℕ) → d < 16 → hex_digit (hex_char d) ≡ some d
unfolding hex_digit hex_char
hex_digit-hex_char d h = ground arith

-- A digit is neither a separator nor a sign.
hex_char_plain :
    (d : ℕ)
    → d < 16
    → (nat_beq (hex_char d) b'+' ≡ false)
      × (nat_beq (hex_char d) b'-' ≡ false)
      × (nat_beq (hex_char d) b':' ≡ false)
unfolding hex_char
hex_char_plain d h = ground arith

parse_hex_byte-print_byte : (b : ℕ) → b < 256 → parse_hex_byte (print_byte b) ≡ some b
unfolding parse_hex_byte print_byte hex_digits
parse_hex_byte-print_byte b h = ground (
  arith,
  hex_digit-hex_char (b / 16) (omega arith),
  hex_digit-hex_char (b % 16) (omega arith),
  hex_char_plain (b / 16) (omega arith),
)

normalize-print_byte : (b : ℕ) → b < 256 → normalize (print_byte b) ≡ print_byte b
unfolding print_byte
normalize-print_byte b h =
    ground (arith, hex_char_plain (b / 16) (omega arith), hex_char_plain (b % 16) (omega arith))

split_from-print_byte :
    (b : ℕ) (rest : List ℕ)
    → b < 256
    → split_from b':' [] (print_byte b ++ b':' ∷ rest) ≡ print_byte b ∷ split_from b':' [] rest
unfolding print_byte split_from
split_from-print_byte b rest h =
    rw ((hex_char_plain (b / 16) (omega arith)).2, (hex_char_plain (b % 16) (omega arith)).2)

split_from-last : (b : ℕ) → b < 256 → split_from b':' [] (print_byte b) ≡ print_byte b ∷ []
unfolding print_byte split_from
split_from-last b h =
    rw ((hex_char_plain (b / 16) (omega arith)).2, (hex_char_plain (b % 16) (omega arith)).2)

normalize-print_mac :
    (sep : ℕ) (bs : List ℕ)
    → (if nat_beq sep b'-' then b':' else sep) ≡ b':'
    → AllBytes bs
    → normalize (print_mac sep bs) ≡ print_mac b':' bs
unfolding print_mac
normalize-print_mac sep [] e h = refl
normalize-print_mac sep (b ∷ []) e h = normalize-print_byte b h.0
normalize-print_mac sep (b ∷ c ∷ bs) e h =
    rw (map-append, normalize-print_byte b h.0, e, normalize-print_mac sep (c ∷ bs) e h.1)

split-print_mac :
    (b : ℕ) (bs : List ℕ)
    → AllBytes (b ∷ bs)
    → split_from b':' [] (print_mac b':' (b ∷ bs)) ≡ map print_byte (b ∷ bs)
unfolding print_mac
split-print_mac b [] h = split_from-last b h.0
split-print_mac b (c ∷ bs) h =
    rw (split_from-print_byte b (print_mac b':' (c ∷ bs)) h.0, split-print_mac c bs h.1)

parse_parts-print : (bs : List ℕ) → AllBytes bs → parse_parts (map print_byte bs) ≡ some bs
unfolding parse_parts
parse_parts-print [] h = refl
parse_parts-print (b ∷ bs) h =
    rw (parse_parts, parse_hex_byte-print_byte b h.0, parse_parts-print bs h.1)

-- The two separators that a written address may have.
abbrev pub IsSeparator : ℕ → Type 0
IsSeparator sep = (if nat_beq sep b'-' then b':' else sep) ≡ b':'

-- `parse_mac` reads back six bytes that are written as two lower-case hexadecimal digits each, with
-- colons or with dashes between them.
pub parse_mac-print_mac :
    (sep : ℕ) (bs : List ℕ)
    → IsSeparator sep
    → AllBytes bs
    → length bs ≡ 6
    → parse_mac (print_mac sep bs) ≡ some bs
unfolding parse_mac split
parse_mac-print_mac sep [] s h n = absurd (omega arith)
parse_mac-print_mac sep (b ∷ bs) s h n =
    rw (normalize-print_mac sep (b ∷ bs) s h, split-print_mac b bs h, parse_parts-print (b ∷ bs) h)
      (ground (arith, length-map (b ∷ bs) print_byte))
