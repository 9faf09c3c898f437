-- ===== src/Response/Fields.antt =====
-- The fields of a response: what is set is found, and nothing that is set can end a line.
use erikslund_http_embedded.Prelude.{
  ◌≡◌, refl, sym, subst, ◌∙◌, ◌⊎◌, inl, inr, true, false, some, List, [], ◌∷◌, arith, if◌then◌else◌,
  Bool-cases, Bytes, bytes_eq, bytes_eq_iff, All, ◌&&◌, if_false, bytes_eq_refl,
}
use erikslund_http_embedded.Response.{
  canonical_name, comes_before, find_field, has_key, set_field, assign, insert, Response,
  find_header, is_valid_field_name, is_valid_field_value, set_header,
}
use erikslund_http_embedded.Request.Types.{HeaderView}
use erikslund_http_embedded.Text.Ascii.{equals_ignore_case, equals_ignore_case_iff}

equals_ignore_case_refl : (name : Bytes) → equals_ignore_case name name ≡ true
equals_ignore_case_refl name = (equals_ignore_case_iff name name).1 refl

pub equals_ignore_case_sym :
    (left right : Bytes) → equals_ignore_case left right ≡ equals_ignore_case right left
equals_ignore_case_sym left right = elim (Bool-cases (equals_ignore_case left right)) [
  | inl e ↦
      e
      ∙ sym ((equals_ignore_case_iff right left).1 (sym ((equals_ignore_case_iff left right).0 e)))
  | inr e ↦ elim (Bool-cases (equals_ignore_case right left)) [
    | inl f ↦ absurd (
        ground (
          arith,
          e,
          (equals_ignore_case_iff left right).1 (sym ((equals_ignore_case_iff right left).0 f)),
        ))
    | inr f ↦ e ∙ sym f
  ]
]

-- Names that are equal without case are equal to the same names.
same_class :
    (a b m : Bytes)
    → equals_ignore_case a b ≡ true
    → equals_ignore_case a m ≡ equals_ignore_case b m
same_class a b m e =
    let same = (equals_ignore_case_iff a b).0 e in
    elim (Bool-cases (equals_ignore_case b m)) [
      | inl f ↦ (equals_ignore_case_iff a m).1 (same ∙ (equals_ignore_case_iff b m).0 f) ∙ sym f
      | inr f ↦ elim (Bool-cases (equals_ignore_case a m)) [
        | inl g ↦ absurd (
            ground (
              arith,
              f,
              (equals_ignore_case_iff b m).1 (sym same ∙ (equals_ignore_case_iff a m).0 g),
            ))
        | inr g ↦ g ∙ sym f
      ]
    ]

bytes_eq-ignoring : (a b : Bytes) → bytes_eq a b ≡ true → equals_ignore_case a b ≡ true
bytes_eq-ignoring a b e =
    subst (λ z. equals_ignore_case a z ≡ true) ((bytes_eq_iff a b).0 e) (equals_ignore_case_refl a)

-- None of the fields has the name.
abbrev pub Misses : Bytes → List HeaderView → Type 0
Misses name = All (λ (f : HeaderView). equals_ignore_case f.name name ≡ false)

has_key-Misses :
    (name : Bytes) (fields : List HeaderView) → Misses name fields → has_key name fields ≡ false
unfolding has_key
has_key-Misses name [] v = refl
has_key-Misses name (field ∷ fields) (e, v) = elim (Bool-cases (bytes_eq field.name name)) [
  | inl f ↦ absurd (ground (arith, e, bytes_eq-ignoring field.name name f))
  | inr f ↦ rw f (has_key-Misses name fields v)
]

find_field-insert :
    (name value : Bytes) (fields : List HeaderView) (m : Bytes)
    → Misses name fields
    → find_field (insert name value fields) m
      ≡ (if equals_ignore_case name m then some value else find_field fields m)
unfolding insert find_field
find_field-insert name value [] m v = refl
find_field-insert name value (field ∷ fields) m (e, v) =
    elim (Bool-cases (comes_before name field.name)) [
      | inl f ↦ rw f refl
      | inr f ↦
          let ih = find_field-insert name value fields m v in
          rw f (elim (Bool-cases (equals_ignore_case field.name m)) [
            | inr g ↦ rw g ih
            | inl g ↦
                let other : equals_ignore_case name m ≡ false =
                  equals_ignore_case_sym name m ∙ (sym (same_class field.name m name g) ∙ e) in
                rw g (rw other refl)
          ])
    ]

-- What the key that the loop finds is good for.
abbrev IsFound : Bytes → Bytes → List HeaderView → Bytes → Bytes → Type 0
IsFound name value fields m key =
    (equals_ignore_case key name ≡ true)
    × (has_key key fields ≡ true)
    × (find_field (assign key value fields) m
        ≡ (if equals_ignore_case name m then some value else find_field fields m))

later-IsFound :
    (name value : Bytes) (field : HeaderView) (fields : List HeaderView) (m key : Bytes)
    → equals_ignore_case field.name name ≡ false
    → IsFound name value fields m key
    → IsFound name value (field ∷ fields) m key
unfolding has_key assign find_field
later-IsFound name value field fields m key e (alike, there, found) =
    let other : bytes_eq field.name key ≡ false = elim (Bool-cases (bytes_eq field.name key)) [
      | inl f ↦ absurd (
          ground (
            arith,
            e,
            subst (λ z. equals_ignore_case z name ≡ true) (sym ((bytes_eq_iff field.name key).0 f))
                alike,
          ))
      | inr f ↦ f
    ] in
    (
      alike,
      rw other there,
      rw other (elim (Bool-cases (equals_ignore_case field.name m)) [
        | inl g ↦
            let apart : equals_ignore_case name m ≡ false =
              equals_ignore_case_sym name m ∙ (sym (same_class field.name m name g) ∙ e) in
            rw g (rw apart refl)
        | inr g ↦ rw g found
      ]),
    )

canonical_name-cases :
    (name value : Bytes) (fields : List HeaderView) (m : Bytes)
    → (Misses name fields × (canonical_name name fields ≡ name))
      ⊎ IsFound name value fields m (canonical_name name fields)
unfolding canonical_name has_key assign find_field
canonical_name-cases name value [] m = inl (tt, refl)
canonical_name-cases name value (field ∷ fields) m =
    elim (Bool-cases (equals_ignore_case field.name name)) [
      | inl e ↦ inr (
          rw e (
            e,
            rw (bytes_eq_refl field.name) refl,
            rw (bytes_eq_refl field.name) (
                rw (same_class field.name name m e) (elim (Bool-cases (equals_ignore_case name m)) [
                  | inl f ↦ rw f refl
                  | inr f ↦ rw f refl
                ])),
          ))
      | inr e ↦ elim (canonical_name-cases name value fields m) [
        | inl (missing, same) ↦ inl ((e, missing), if_false _ _ e ∙ same)
        | inr found ↦ inr (
            subst (IsFound name value (field ∷ fields) m) (sym (if_false _ _ e))
              (later-IsFound name value field fields m (canonical_name name fields) e found))
      ]
    ]

find_field-set_field :
    (name value : Bytes) (fields : List HeaderView) (m : Bytes)
    → find_field (set_field (canonical_name name fields) value fields) m
      ≡ (if equals_ignore_case name m then some value else find_field fields m)
unfolding set_field
find_field-set_field name value fields m = elim (canonical_name-cases name value fields m) [
  | inl (missing, same) ↦
      rw same
        (rw (has_key-Misses name fields missing) (find_field-insert name value fields m missing))
  | inr (alike, there, found) ↦ rw there found
]

-- A field that is set is found under its name in any case, in place of what was there, and no other is
-- changed; one whose name or value is not valid changes nothing.
pub find_header-set_header :
    (name value : Bytes) (response : Response) (m : Bytes)
    → find_header (set_header name value response) m ≡ (
        if is_valid_field_name name && is_valid_field_value value && equals_ignore_case name m
        then some value
        else find_header response m)
unfolding set_header find_header
find_header-set_header name value response m = elim (Bool-cases (is_valid_field_name name)) [
  | inr e ↦ rw e refl
  | inl e ↦ elim (Bool-cases (is_valid_field_value value)) [
    | inr f ↦ rw (e, f) refl
    | inl f ↦ rw (e, f) (find_field-set_field name value response.headers m)
  ]
]
