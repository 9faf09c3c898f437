-- ===== src/Text/Escape.antt =====
-- The escapes of src/text.cpp. An index into the input is the rest of the input behind it.
pub mod Safety
use erikslund_http_embedded.Prelude.{
  ℕ, Bytes, Bool, length, zero, suc, ◌+◌, ◌-◌, ◌/◌, ◌%◌, not, ◌&&◌, ◌||◌, [], ◌∷◌, ◌++◌, ltb, leb,
  ◌==◌, if◌then◌else◌, codes, take, drop,
}

abbrev pub is_continuation : ℕ → Bool
is_continuation byte = leb 0x80 byte && leb byte 0xBF

abbrev pub within : ℕ → ℕ → ℕ → Bool
within low high byte = leb low byte && leb byte high

-- The bytes that may follow the first of a sequence of three, and of four.
abbrev pub second_of_three : ℕ → ℕ → Bool
second_of_three first second =
    is_continuation second
    && not (first == 0xE0 && ltb second 0xA0)
    && not (first == 0xED && ltb 0x9F second)

abbrev pub second_of_four : ℕ → ℕ → Bool
second_of_four first second =
    is_continuation second
    && not (first == 0xF0 && ltb second 0x90)
    && not (first == 0xF4 && ltb 0x8F second)

unfoldable pub valid_utf8_sequence_length : Bytes → ℕ
valid_utf8_sequence_length [] = 0
valid_utf8_sequence_length (first ∷ rest) =
    if ltb first 0x80
    then 1
    else if within 0xC2 0xDF first
    then elim rest [ [] ↦ 0 | second ∷ more ↦ if is_continuation second then 2 else 0 ]
    else if within 0xE0 0xEF first
    then elim rest [
      | [] ↦ 0
      | _ ∷ [] ↦ 0
      | second ∷ third ∷ more ↦
          if is_continuation third && second_of_three first second then 3 else 0
    ]
    else if within 0xF0 0xF4 first
    then elim rest [
      | [] ↦ 0
      | _ ∷ [] ↦ 0
      | _ ∷ _ ∷ [] ↦ 0
      | second ∷ third ∷ fourth ∷ more ↦
          if is_continuation third && is_continuation fourth && second_of_four first second
          then 4
          else 0
    ]
    else 0

abbrev pub replacement_character : Bytes
replacement_character = 0xEF ∷ 0xBF ∷ 0xBD ∷ []

-- What is appended, and the input behind it.
unfoldable pub utf8_or_replacement : Bytes → Bytes × Bytes
unfolding valid_utf8_sequence_length
utf8_or_replacement input =
    let sequence_length = valid_utf8_sequence_length input in
    if sequence_length == 0
    then (replacement_character, drop 1 input)
    else (take sequence_length input, drop sequence_length input)

unfoldable pub html_escape_byte : ℕ → Bytes
html_escape_byte character =
    if character == b'&'
    then codes "&amp;"
    else if character == b'<'
    then codes "&lt;"
    else if character == b'>'
    then codes "&gt;"
    else if character == b'"'
    then codes "&quot;"
    else if character == 0x27
    then codes "&#39;"
    else character ∷ []

unfoldable pub html_escape_into : Bytes → Bytes → Bytes
unfolding html_escape_byte
html_escape_into out [] = out
html_escape_into out (character ∷ input) =
    html_escape_into (out ++ html_escape_byte character) input

unfoldable pub html_escape : Bytes → Bytes
unfolding html_escape_into
html_escape input = html_escape_into [] input

-- `kLowerHexDigits[value]`
abbrev pub lower_hex_digit : ℕ → ℕ
lower_hex_digit value = if ltb value 10 then b'0' + value else b'a' + (value - 10)

-- One round of `json_escape`: what is appended, and the input behind it.
unfoldable pub json_escape_step : ℕ → Bytes → Bytes × Bytes
unfolding utf8_or_replacement
json_escape_step byte rest =
    if byte == b'"' || byte == b'\\'
    then (b'\\' ∷ byte ∷ [], rest)
    else if ltb byte 0x20
    then (codes "\\u00" ++ (lower_hex_digit (byte / 16) ∷ lower_hex_digit (byte % 16) ∷ []), rest)
    else utf8_or_replacement (byte ∷ rest)

unfoldable pub json_escape_from : ℕ → Bytes → Bytes
unfolding json_escape_step
json_escape_from zero input = []
json_escape_from (suc fuel) [] = []
json_escape_from (suc fuel) (byte ∷ rest) =
    let (appended, behind) = json_escape_step byte rest in appended ++ json_escape_from fuel behind

unfoldable pub json_escape : Bytes → Bytes
unfolding json_escape_from
json_escape input = json_escape_from (length input) input

unfoldable pub label_escape_step : ℕ → Bytes → Bytes × Bytes
unfolding utf8_or_replacement
label_escape_step byte rest =
    if leb 0x80 byte
    then utf8_or_replacement (byte ∷ rest)
    else if (ltb byte 0x20 && not (byte == 10)) || byte == 0x7F
    then (replacement_character, rest)
    else if byte == b'\\'
    then (codes "\\\\", rest)
    else if byte == b'"'
    then (codes "\\\"", rest)
    else if byte == 10
    then (codes "\\n", rest)
    else (byte ∷ [], rest)

unfoldable pub label_escape_from : ℕ → Bytes → Bytes
unfolding label_escape_step
label_escape_from zero input = []
label_escape_from (suc fuel) [] = []
label_escape_from (suc fuel) (byte ∷ rest) =
    let (appended, behind) = label_escape_step byte rest in
    appended ++ label_escape_from fuel behind

unfoldable pub prometheus_label_escape : Bytes → Bytes
unfolding label_escape_from
prometheus_label_escape input = label_escape_from (length input) input
