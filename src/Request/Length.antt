-- ===== src/Request/Length.antt =====
-- `parse_decimal` and `resolve_content_length` of src/request.cpp.
pub mod Agreement
use erikslund_http_embedded.Prelude.{
  ℕ, ◌+◌, ◌-◌, ◌*◌, ◌^◌, Bool, true, false, not, Option, none, some, List, [], ◌∷◌, ltb, ◌==◌,
  if◌then◌else◌, Bytes, codes, is_empty, every, Result, ok, err,
}
use erikslund_http_embedded.Request.Types.{
  HeaderView, ParseError, malformed_header, unsupported_transfer_encoding, body_too_large,
}
use erikslund_http_embedded.Request.Chars.{is_decimal_digit}
use erikslund_http_embedded.Text.Ascii.{equals_ignore_case}

pub data DecimalError : Type 0 where
  not_a_number out_of_range : DecimalError

-- The value of decimal digits, to which `std::from_chars` parses them when it fits.
unfoldable pub decimal_value : ℕ → Bytes → ℕ
decimal_value acc [] = acc
decimal_value acc (digit ∷ more) = decimal_value (acc * 10 + (digit - b'0')) more

abbrev pub has_leading_zero : Bytes → Bool
has_leading_zero (c ∷ d ∷ more) = c == b'0'
has_leading_zero _ = false

unfoldable pub parse_decimal : Bytes → Result DecimalError ℕ
unfolding decimal_value is_decimal_digit
parse_decimal text =
    if is_empty text
    then err not_a_number
    else if not (every is_decimal_digit text)
    then err not_a_number
    else if has_leading_zero text
    then err not_a_number
    else if ltb (decimal_value 0 text) (2 ^ 64)
    then ok (decimal_value 0 text)
    else err out_of_range

-- The variables of the loop.
pub record Framing : Type 0 where
  pub saw_transfer_encoding : Bool
  pub declared_length : Option ℕ

abbrev pub transfer_encoding_name : Bytes
transfer_encoding_name = codes "Transfer-Encoding"

abbrev pub content_length_name : Bytes
content_length_name = codes "Content-Length"

-- `declared_length && *declared_length != parsed`
abbrev pub disagrees : Option ℕ → ℕ → Bool
disagrees none parsed = false
disagrees (some declared) parsed = not (declared == parsed)

unfoldable pub framing_field : Framing → HeaderView → Result ParseError Framing
framing_field s field =
    if equals_ignore_case field.name transfer_encoding_name
    then ok (record s { saw_transfer_encoding = true })
    else if not (equals_ignore_case field.name content_length_name)
    then ok s
    else elim (parse_decimal field.value) [
      | err out_of_range ↦ err body_too_large
      | err not_a_number ↦ err malformed_header
      | ok parsed ↦
          if disagrees s.declared_length parsed
          then err malformed_header
          else ok (record s { declared_length = some parsed })
    ]

unfoldable pub framing_fields : Framing → List HeaderView → Result ParseError Framing
unfolding framing_field
framing_fields s [] = ok s
framing_fields s (field ∷ fields) = elim (framing_field s field) [
  | err e ↦ err e
  | ok s' ↦ framing_fields s' fields
]

abbrev pub value_or : Option ℕ → ℕ → ℕ
value_or none d = d
value_or (some n) d = n

unfoldable pub resolve_content_length : List HeaderView → ℕ → Result ParseError ℕ
unfolding framing_fields
resolve_content_length headers max_body_bytes =
    elim (framing_fields (record { saw_transfer_encoding = false; declared_length = none })
      headers) [
        | err e ↦ err e
        | ok s ↦
            if s.saw_transfer_encoding
            then err unsupported_transfer_encoding
            else if ltb max_body_bytes (value_or s.declared_length 0)
            then err body_too_large
            else ok (value_or s.declared_length 0)
      ]
