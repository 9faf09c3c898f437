-- ===== src/Request/Fields/RoundTrip.antt =====
-- Header fields: what is accepted, and that a well-formed block is read back field by field.
use erikslund_http_embedded.Prelude.{
  ℕ, zero, suc, ◌+◌, ◌≤◌, ◌≡◌, ◌≢◌, inl, inr, true, List, [], ◌∷◌, ◌++◌, arith, Option-cases, Bytes,
  cut_cases, find_string, length, take, drop, length-append, All, All-append, every→All, ok,
  Result-cases, ◌<◌, refl, sym, ap, ◌∙◌, false, append_assoc, append-nil, is_empty, starts_with,
  Lacks, cut-append, find_string-append, starts_with-append, take-append_length, drop-append_length,
  drop-drop, All-map, All→every,
}
use erikslund_http_embedded.Request.Types.{HeaderView, max_parsed_headers}
use erikslund_http_embedded.Request.Chars.{
  is_token_character, is_valid_field_value_byte, trim_optional_whitespace,
}
use erikslund_http_embedded.Request.Chars.Trim.{
  trim-space, trim_of_IsTrimmed, IsTrimmed, trim-IsTrimmed,
}
use erikslund_http_embedded.Request.Fields.{
  parse_field, crlf, parse_fields_from, parse_header_fields, is_folded,
}

-- A field in the form in which the parser keeps it: no byte of it can end a line.
pub record IsField (field : HeaderView) : Type 0 where
  pub named : field.name ≢ []
  pub token : All (λ c. is_token_character c ≡ true) field.name
  pub clean : All (λ c. is_valid_field_value_byte c ≡ true) field.value
  pub trimmed : IsTrimmed field.value

parse_field-IsField :
    (line : Bytes) {field : HeaderView} → parse_field line ≡ ok field → IsField field
unfolding parse_field
parse_field-IsField line {field} h = elim (cut_cases b':' line) [
  | inl (e, _, _) ↦ absurd (ground arith)
  | inr (name, raw, e, _, _, _, _) ↦
      let named : field.name ≡ name = ground arith in
      let valued : field.value ≡ trim_optional_whitespace raw = ground arith in
      record {
        named = rw named (λ k. ground arith);
        token = rw named (every→All is_token_character name (ground arith));
        clean =
            rw valued
              (every→All is_valid_field_value_byte (trim_optional_whitespace raw) (ground arith));
        trimmed = rw valued (trim-IsTrimmed raw);
      }
]

parse_fields_from-IsField :
    (fuel : ℕ) (lines : Bytes) (maximum : ℕ) (out : List HeaderView) {result : List HeaderView}
    → parse_fields_from fuel lines maximum out ≡ ok result
    → All IsField out
    → length out ≤ maximum
    → All IsField result × (length result ≤ maximum)
unfolding parse_fields_from
parse_fields_from-IsField zero lines maximum out h v l = cc
parse_fields_from-IsField (suc fuel) [] maximum out {result} h v l =
    let same : result ≡ out = ground arith in rw same (v, l)
parse_fields_from-IsField (suc fuel) (c ∷ lines) maximum out h v l =
    elim (Option-cases (find_string crlf (c ∷ lines))) [
      | inl e ↦ absurd (ground arith)
      | inr (line_end, e) ↦ elim (Result-cases (parse_field (take line_end (c ∷ lines)))) [
        | inr (broken, f) ↦ absurd (ground arith)
        | inl (field, f) ↦
            parse_fields_from-IsField fuel (drop (line_end + 2) (c ∷ lines)) maximum
              (out ++ (field ∷ [])) (ground arith)
              (All-append IsField out (field ∷ []) v (parse_field-IsField _ f, tt))
              (ground (arith, length-append out (field ∷ [])))
      ]
    ]

-- Every header field that is accepted has a non-empty token for a name and a trimmed value with no
-- byte that could end a line, and there are no more than 64 and than the limit allows.
pub parse_header_fields-IsField :
    (lines : Bytes) (max_header_count : ℕ) (fields : List HeaderView)
    → parse_header_fields lines max_header_count [] ≡ ok fields
    → All IsField fields × (length fields ≤ max_header_count) × (length fields ≤ max_parsed_headers)
unfolding parse_header_fields
parse_header_fields-IsField lines max_header_count fields h =
    let (v, l) = parse_fields_from-IsField _ lines _ [] h tt (omega arith) in
    (v, omega arith, omega arith)

-- The lines of a block of fields.
pub print_field : HeaderView → Bytes
print_field field = field.name ++ (b':' ∷ b' ' ∷ field.value)

unfoldable pub print_fields : List HeaderView → Bytes
unfolding print_field
print_fields [] = []
print_fields (field ∷ fields) = print_field field ++ (13 ∷ 10 ∷ print_fields fields)

token_is_plain :
    (c : ℕ) → is_token_character c ≡ true → (c ≢ b':') × (c ≢ 13) × (c ≢ 0x20) × (c ≢ 0x09)
unfolding is_token_character
token_is_plain c h =
    (λ e. cc (rw e at h), λ e. cc (rw e at h), λ e. cc (rw e at h), λ e. cc (rw e at h))

value_is_plain : (c : ℕ) → is_valid_field_value_byte c ≡ true → c ≢ 13
unfolding is_valid_field_value_byte
value_is_plain c h e = cc (rw e at h)

not_folded :
    (name rest : Bytes)
    → name ≢ []
    → All (λ c. is_token_character c ≡ true) name
    → (is_folded (name ++ rest) ≡ false) × (is_empty name ≡ false)
not_folded [] rest h k = absurd (h refl)
not_folded (c ∷ name) rest h (k, ks) = ground (arith, token_is_plain c k)

parse_field-print_field :
    (field : HeaderView) → IsField field → parse_field (print_field field) ≡ ok field
unfolding parse_field print_field
parse_field-print_field field v = ground (
  arith,
  cut-append b':' field.name (b' ' ∷ field.value)
      (All-map field.name (λ c h. (token_is_plain c h).0) v.token),
  not_folded field.name (b':' ∷ b' ' ∷ field.value) v.named v.token,
  trim-space field.value,
  trim_of_IsTrimmed field.value v.trimmed,
  All→every is_token_character field.name v.token,
  All→every is_valid_field_value_byte field.value v.clean,
)

print_field-Lacks : (field : HeaderView) → IsField field → Lacks 13 (print_field field)
unfolding print_field
print_field-Lacks field v =
    All-append (λ c. c ≢ 13) field.name (b':' ∷ b' ' ∷ field.value)
      (All-map field.name (λ c h. (token_is_plain c h).1) v.token)
      (omega arith, (omega arith, All-map field.value value_is_plain v.clean))

is_empty-append : (xs ys : Bytes) → is_empty (xs ++ (13 ∷ ys)) ≡ false
is_empty-append [] ys = refl
is_empty-append (x ∷ xs) ys = refl

parse_fields_from-print_fields :
    (fuel maximum : ℕ) (fields out : List HeaderView)
    → length (print_fields fields) < fuel
    → length out + length fields ≤ maximum
    → All IsField fields
    → parse_fields_from fuel (print_fields fields) maximum out ≡ ok (out ++ fields)
unfolding parse_fields_from print_fields
parse_fields_from-print_fields zero maximum fields out l m v = absurd (omega arith)
parse_fields_from-print_fields (suc fuel) maximum [] out l m v = ap ok (sym (append-nil out))
parse_fields_from-print_fields (suc fuel) maximum (field ∷ fields) out l m (v, vs) = ground (
  arith,
  not_empty,
  find_string-append 13 (10 ∷ []) line rest (print_field-Lacks field v) here,
  take-append_length line rest,
  parse_field-print_field field v,
  after,
  parse_fields_from-print_fields fuel maximum fields (out ++ (field ∷ [])) shorter room vs,
  append_assoc out (field ∷ []) fields,
)
  where
    line : Bytes
    line = print_field field

    rest : Bytes
    rest = 13 ∷ 10 ∷ print_fields fields

    here : starts_with rest (13 ∷ 10 ∷ []) ≡ true
    here = starts_with-append (13 ∷ 10 ∷ []) (print_fields fields)

    not_empty : is_empty (line ++ rest) ≡ false
    not_empty = is_empty-append line (10 ∷ print_fields fields)

    after : drop (length line + 2) (line ++ rest) ≡ print_fields fields
    after =
        sym (drop-drop 2 (length line) (line ++ rest)) ∙ ap (drop 2) (drop-append_length line rest)

    shorter : length (print_fields fields) < fuel
    shorter = omega (arith, length-append line rest)

    room : length (out ++ (field ∷ [])) + length fields ≤ maximum
    room = omega (arith, length-append out (field ∷ []))

-- A block of well-formed fields within the limits is read back as it was written.
pub parse_header_fields-print_fields :
    (max_header_count : ℕ) (fields : List HeaderView)
    → All IsField fields
    → length fields ≤ max_header_count
    → length fields ≤ max_parsed_headers
    → parse_header_fields (print_fields fields) max_header_count [] ≡ ok fields
unfolding parse_header_fields
parse_header_fields-print_fields max_header_count fields v l m =
    parse_fields_from-print_fields _ _ fields [] (omega arith) (omega arith) v
