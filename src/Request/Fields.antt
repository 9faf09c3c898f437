-- ===== src/Request/Fields.antt =====
-- `parse_header_fields` of src/request.cpp.
pub mod RoundTrip
use erikslund_http_embedded.Prelude.{
  ℕ, zero, suc, ◌+◌, min, Bool, true, false, not, ◌||◌, none, some, List, [], ◌∷◌, ◌++◌, leb, ◌==◌,
  if◌then◌else◌, Bytes, is_empty, cut, find_string, length, take, drop, every, Result, ok, err,
}
use erikslund_http_embedded.Request.Chars.{
  is_token_character, is_valid_field_value_byte, trim_optional_whitespace,
}
use erikslund_http_embedded.Request.Types.{
  HeaderView, ParseError, too_many_headers, malformed_header, max_parsed_headers,
}

abbrev pub crlf : Bytes
crlf = 13 ∷ 10 ∷ []

abbrev pub is_folded : Bytes → Bool
is_folded [] = false
is_folded (c ∷ s) = c == 0x20 || c == 0x09

-- The checks on one line, up to the count: its field.
unfoldable pub parse_field : Bytes → Result ParseError HeaderView
parse_field line =
    let (name, after) = cut b':' line in
    if is_folded line then err malformed_header else elim after [
      | none ↦ err malformed_header
      | some raw_value ↦
          let value = trim_optional_whitespace raw_value in
          if is_empty name
          then err malformed_header
          else if not (every is_token_character name)
          then err malformed_header
          else if not (every is_valid_field_value_byte value)
          then err malformed_header
          else ok (record { name = name; value = value })
    ]

-- The loop; every round takes at least the line's CRLF off.
unfoldable pub parse_fields_from :
    ℕ → Bytes → ℕ → List HeaderView → Result ParseError (List HeaderView)
parse_fields_from zero field_lines effective_maximum out = err malformed_header
parse_fields_from (suc fuel) field_lines effective_maximum out = elim (is_empty field_lines) [
  | true ↦ ok out
  | false ↦ elim (find_string crlf field_lines) [
    | none ↦ err malformed_header
    | some line_end ↦ elim (parse_field (take line_end field_lines)) [
      | err e ↦ err e
      | ok field ↦ elim (leb effective_maximum (length out)) [
        | true ↦ err too_many_headers
        | false ↦
            parse_fields_from fuel (drop (line_end + 2) field_lines) effective_maximum
              (out ++ (field ∷ []))
      ]
    ]
  ]
]

-- `out` has room for `max_parsed_headers` fields.
unfoldable pub parse_header_fields :
    Bytes → ℕ → List HeaderView → Result ParseError (List HeaderView)
unfolding parse_fields_from
parse_header_fields field_lines max_header_count out =
    parse_fields_from (length field_lines + 1) field_lines (min max_header_count max_parsed_headers)
      out
