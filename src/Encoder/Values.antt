-- ===== src/Encoder/Values.antt =====
-- The values of fields that the encoder makes are clean.
use erikslund_http_embedded.Response.Clean.{IsClean}
use erikslund_http_embedded.Prelude.{
  ℕ, ◌≡◌, refl, inl, inr, true, false, List, [], ◌∷◌, ◌++◌, arith, Bool-cases, Bytes, codes,
  is_empty, All, All-append, All-map, every, every→All, All→every,
}
use erikslund_http_embedded.Text.Decimal.{decimal, decimal-digits}
use erikslund_http_embedded.Request.Types.{HeaderView}
use erikslund_http_embedded.Encoder.{
  accept_encoding_field, accept_encoding_vary, has_control_character, list_names, value_or_empty,
}
use erikslund_http_embedded.Text.Ascii.{equals_ignore_case}
use erikslund_http_embedded.Response.{find_field, is_valid_field_value}
use erikslund_http_embedded.Request.Chars.{is_decimal_digit, is_valid_field_value_byte}

abbrev pub IsValue : Bytes → Type 0
IsValue value = is_valid_field_value value ≡ true

pub append-IsValue : (x y : Bytes) → IsValue x → IsValue y → IsValue (x ++ y)
unfolding is_valid_field_value
append-IsValue x y p q = All→every is_valid_field_value_byte (x ++ y) (
    All-append (λ c. is_valid_field_value_byte c ≡ true) x y
      (every→All is_valid_field_value_byte x p) (every→All is_valid_field_value_byte y q))

digit-IsValue : (c : ℕ) → is_decimal_digit c ≡ true → is_valid_field_value_byte c ≡ true
unfolding is_decimal_digit is_valid_field_value_byte
digit-IsValue c h = ground arith

pub decimal-IsValue : (n : ℕ) → IsValue (decimal n)
unfolding is_valid_field_value
decimal-IsValue n =
    All→every is_valid_field_value_byte (decimal n)
      (All-map (decimal n) digit-IsValue (decimal-digits n))

pub find_field-IsValue :
    (fields : List HeaderView) (name : Bytes)
    → All IsClean fields
    → IsValue (value_or_empty (find_field fields name))
unfolding find_field is_valid_field_value every
find_field-IsValue [] name v = refl
find_field-IsValue (field ∷ fields) name ((n, h), v) =
    elim (Bool-cases (equals_ignore_case field.name name)) [
      | inl e ↦ rw e h
      | inr e ↦ rw e (find_field-IsValue fields name v)
    ]

pub vary-IsValue : (declared : Bytes) → IsValue declared → IsValue (accept_encoding_vary declared)
unfolding accept_encoding_vary
vary-IsValue declared v = elim (Bool-cases (is_empty declared)) [
  | inl e ↦ rw e field_name-IsValue
  | inr e ↦ elim (Bool-cases (list_names declared accept_encoding_field)) [
    | inl f ↦ simp (e, f) v
    | inr f ↦
        simp (e, f)
          (append-IsValue declared (codes ", " ++ accept_encoding_field) v separated-IsValue)
  ]
]
  where
    field_name-IsValue : IsValue accept_encoding_field
    field_name-IsValue = unfold is_valid_field_value every is_valid_field_value_byte in refl

    separated-IsValue : IsValue (codes ", " ++ accept_encoding_field)
    separated-IsValue = unfold is_valid_field_value every is_valid_field_value_byte in refl

pub no_control-IsValue : (value : Bytes) → has_control_character value ≡ false → IsValue value
unfolding has_control_character is_valid_field_value every is_valid_field_value_byte
no_control-IsValue [] h = refl
no_control-IsValue (byte ∷ value) h = ground (arith, no_control-IsValue value)
