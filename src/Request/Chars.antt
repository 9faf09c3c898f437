-- ===== src/Request/Chars.antt =====
-- The byte classes and small helpers at the top of src/request.cpp.
pub mod Trim
pub mod Padding
use erikslund_http_embedded.Prelude.{
  ℕ, ◌+◌, ◌-◌, Bool, true, false, not, ◌&&◌, ◌||◌, Option, none, some, [], ◌∷◌, ltb, leb, ◌==◌,
  if◌then◌else◌, length, get_elem?, take, drop, Bytes, codes, is_empty, contains_byte,
}

unfoldable pub is_decimal_digit : ℕ → Bool
is_decimal_digit character = leb b'0' character && leb character b'9'

unfoldable pub hex_value : ℕ → Option ℕ
hex_value character =
    if leb b'0' character && leb character b'9'
    then some (character - b'0')
    else if leb b'a' character && leb character b'f'
    then some (character - b'a' + 10)
    else if leb b'A' character && leb character b'F'
    then some (character - b'A' + 10)
    else none

abbrev pub token_special_characters : Bytes
token_special_characters = codes "!#$%&'*+-.^_`|~"

-- RFC 9110 tchar.
unfoldable pub is_token_character : ℕ → Bool
unfolding contains_byte
is_token_character character =
    if leb b'a' character && leb character b'z'
      || (leb b'A' character && leb character b'Z')
      || (leb b'0' character && leb character b'9')
    then true
    else contains_byte token_special_characters character

unfoldable pub is_valid_target_byte : ℕ → Bool
is_valid_target_byte character =
    if leb character 0x20 || character == 0x7F then false else not (character == b'#')

unfoldable pub is_valid_field_value_byte : ℕ → Bool
is_valid_field_value_byte character =
    character == 0x09 || (leb 0x20 character && not (character == 0x7F))

unfoldable pub is_optional_whitespace : ℕ → Bool
is_optional_whitespace character = character == 0x20 || character == 0x09

-- The two loops of `trim_optional_whitespace`.
unfoldable pub trim_front : Bytes → Bytes
unfolding is_optional_whitespace
trim_front [] = []
trim_front (c ∷ s) = if is_optional_whitespace c then trim_front s else c ∷ s

unfoldable pub trim_back : Bytes → Bytes
unfolding is_optional_whitespace
trim_back [] = []
trim_back (c ∷ s) =
    let rest = trim_back s in if is_optional_whitespace c && is_empty rest then [] else c ∷ rest

unfoldable pub trim_optional_whitespace : Bytes → Bytes
unfolding trim_front trim_back
trim_optional_whitespace value = trim_back (trim_front value)

-- `byte_at`: the byte at an index, if there is one.
abbrev pub byte_at : Bytes → ℕ → Option ℕ
byte_at bytes index = get_elem? bytes index

-- `slice`: empty where the offset is past the end.
unfoldable pub slice : Bytes → ℕ → ℕ → Bytes
slice bytes offset count = if ltb (length bytes) offset then [] else take count (drop offset bytes)
