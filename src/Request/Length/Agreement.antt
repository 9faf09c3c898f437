-- ===== src/Request/Length/Agreement.antt =====
-- The length that frames a request is the one that every Content-Length field states.
use erikslund_http_embedded.Prelude.{
  ℕ, ◌≡◌, refl, ◌⊎◌, inl, inr, true, false, none, some, arith, Bool-cases, ok, List, [], ◌∷◌, All,
  Result-cases, ◌≤◌, ◌∙◌, Option-cases, ap, All-map, ◌↔◌,
}
use erikslund_http_embedded.Request.Types.{HeaderView}
use erikslund_http_embedded.Text.Ascii.{equals_ignore_case}
use erikslund_http_embedded.Request.Length.{
  parse_decimal, Framing, transfer_encoding_name, content_length_name, framing_field,
  framing_fields, resolve_content_length,
}

-- A field that leaves the body framed by `n` bytes: no transfer coding, and no other length.
pub record IsFramedBy (n : ℕ) (field : HeaderView) : Type 0 where
  pub not_coded : equals_ignore_case field.name transfer_encoding_name ≡ false
  pub agrees :
      equals_ignore_case field.name content_length_name ≡ true → parse_decimal field.value ≡ ok n

abbrev pub HasNoLength : HeaderView → Type 0
HasNoLength field = equals_ignore_case field.name content_length_name ≡ false

-- One field, seen from the state after it.
framing_field-before :
    (s s' : Framing) (field : HeaderView)
    → framing_field s field ≡ ok s'
    → s'.saw_transfer_encoding ≡ false
    → (s.saw_transfer_encoding ≡ false)
      × (equals_ignore_case field.name transfer_encoding_name ≡ false)
      × (s'.declared_length ≡ none → (s.declared_length ≡ none) × HasNoLength field)
unfolding framing_field
framing_field-before s s' field h k = ground arith

framing_field-agrees :
    (s s' : Framing) (field : HeaderView) (n : ℕ)
    → framing_field s field ≡ ok s'
    → s'.saw_transfer_encoding ≡ false
    → s'.declared_length ≡ some n
    → ((s.declared_length ≡ none) ⊎ (s.declared_length ≡ some n)) × IsFramedBy n field
unfolding framing_field
framing_field-agrees s s' field n h k d =
    (ground arith, record { not_coded = ground arith; agrees = λ e. ground arith })

framing_field_step :
    (s : Framing) (field : HeaderView) (n : ℕ)
    → s.saw_transfer_encoding ≡ false
    → (s.declared_length ≡ none) ⊎ (s.declared_length ≡ some n)
    → IsFramedBy n field
    → (s' : Framing) × (framing_field s field ≡ ok s')
      × (s'.saw_transfer_encoding ≡ false)
      × ((s'.declared_length ≡ some n)
          ⊎ ((s'.declared_length ≡ s.declared_length) × HasNoLength field))
unfolding framing_field
framing_field_step s field n k d v =
    elim (Bool-cases (equals_ignore_case field.name content_length_name)) [
      | inl e ↦ (
        record s { declared_length = some n },
        ground (arith, v.not_coded, v.agrees e),
        k,
        inl refl,
      )
      | inr e ↦ (s, ground (arith, v.not_coded), k, inr (refl, e))
    ]

-- A field that has no say in the framing.
abbrev IsUnframed : HeaderView → Type 0
IsUnframed field =
    (equals_ignore_case field.name transfer_encoding_name ≡ false) × HasNoLength field

framing_fields-before :
    (s s' : Framing) (fields : List HeaderView)
    → framing_fields s fields ≡ ok s'
    → s'.saw_transfer_encoding ≡ false
    → (s.saw_transfer_encoding ≡ false)
      × (s'.declared_length ≡ none → (s.declared_length ≡ none) × All IsUnframed fields)
unfolding framing_fields
framing_fields-before s s' [] h k = ground arith
framing_fields-before s s' (field ∷ fields) h k = elim (Result-cases (framing_field s field)) [
  | inr (e, f) ↦ absurd (ground arith)
  | inl (t, f) ↦
      let (seen, later) = framing_fields-before t s' fields (ground arith) k in
      let (before, coded, here) = framing_field-before s t field f seen in
      (
        before,
        λ d. let (e, rest) = later d in let (g, first) = here e in (g, ((coded, first), rest)),
      )
]

field-agrees :
    (s t : Framing) (field : HeaderView) (n : ℕ)
    → framing_field s field ≡ ok t
    → t.saw_transfer_encoding ≡ false
    → (t.declared_length ≡ none) ⊎ (t.declared_length ≡ some n)
    → ((s.declared_length ≡ none) ⊎ (s.declared_length ≡ some n)) × IsFramedBy n field
field-agrees s t field n f seen (inl d) =
    let (_, coded, here) = framing_field-before s t field f seen in
    let (e, g) = here d in (inl e, record { not_coded = coded; agrees = λ k. cc })
field-agrees s t field n f seen (inr d) = framing_field-agrees s t field n f seen d

framing_fields-agrees :
    (s s' : Framing) (fields : List HeaderView) (n : ℕ)
    → framing_fields s fields ≡ ok s'
    → s'.saw_transfer_encoding ≡ false
    → s'.declared_length ≡ some n
    → ((s.declared_length ≡ none) ⊎ (s.declared_length ≡ some n)) × All (IsFramedBy n) fields
unfolding framing_fields
framing_fields-agrees s s' [] n h k d = (ground arith, tt)
framing_fields-agrees s s' (field ∷ fields) n h k d = elim (Result-cases (framing_field s field)) [
  | inr (e, f) ↦ absurd (ground arith)
  | inl (t, f) ↦
      let (seen, _) = framing_fields-before t s' fields (ground arith) k in
      let (declared, rest) = framing_fields-agrees t s' fields n (ground arith) k d in
      let (before, here) = field-agrees s t field n f seen declared in (before, (here, rest))
]

framing_field_bare :
    (s s' : Framing) (field : HeaderView)
    → HasNoLength field
    → framing_field s field ≡ ok s'
    → s'.declared_length ≡ s.declared_length
unfolding framing_field
framing_field_bare s s' field b h = ground arith

framing_fields_bare :
    (s s' : Framing) (fields : List HeaderView)
    → All HasNoLength fields
    → framing_fields s fields ≡ ok s'
    → s'.declared_length ≡ s.declared_length
unfolding framing_fields
framing_fields_bare s s' [] b h = ground arith
framing_fields_bare s s' (field ∷ fields) (b, bs) h = elim (Result-cases (framing_field s field)) [
  | inr (e, f) ↦ absurd (ground arith)
  | inl (t, f) ↦
      framing_fields_bare t s' fields bs (ground arith) ∙ framing_field_bare s t field b f
]

-- Fields that agree on a length pass the loop.
framing_fields_run :
    (s : Framing) (fields : List HeaderView) (n : ℕ)
    → s.saw_transfer_encoding ≡ false
    → (s.declared_length ≡ none) ⊎ (s.declared_length ≡ some n)
    → All (IsFramedBy n) fields
    → (s' : Framing) × (framing_fields s fields ≡ ok s')
      × (s'.saw_transfer_encoding ≡ false)
      × ((s'.declared_length ≡ some n)
          ⊎ ((s'.declared_length ≡ s.declared_length) × All HasNoLength fields))
unfolding framing_fields
framing_fields_run s [] n k d v = (s, refl, k, inr (refl, tt))
framing_fields_run s (field ∷ fields) n k d (v, vs) =
    let (t, f, seen, declared) = framing_field_step s field n k d v in
    let now : (t.declared_length ≡ none) ⊎ (t.declared_length ≡ some n) = ground arith in
    let (s', g, seen', declared') = framing_fields_run t fields n seen now vs in
    (s', ground arith, seen', joined s t s' declared declared')
  where
    joined :
        (s t s' : Framing)
        → (t.declared_length ≡ some n)
          ⊎ ((t.declared_length ≡ s.declared_length) × HasNoLength field)
        → (s'.declared_length ≡ some n)
          ⊎ ((s'.declared_length ≡ t.declared_length) × All HasNoLength fields)
        → (s'.declared_length ≡ some n)
          ⊎ ((s'.declared_length ≡ s.declared_length) × All HasNoLength (field ∷ fields))
    joined s t s' a (inl e) = inl e
    joined s t s' (inl d) (inr (e, h)) = inl (e ∙ d)
    joined s t s' (inr (d, g)) (inr (e, h)) = inr (e ∙ d, (g, h))

abbrev start : Framing
start = record { saw_transfer_encoding = false; declared_length = none }

-- The condition on the fields alone under which the body is `n` bytes long.
pub record IsFraming (fields : List HeaderView) (n : ℕ) : Type 0 where
  pub all_agree : All (IsFramedBy n) fields
  pub none_is_zero : All HasNoLength fields → n ≡ 0

resolve_sound :
    (headers : List HeaderView) (max_body_bytes n : ℕ)
    → resolve_content_length headers max_body_bytes ≡ ok n
    → IsFraming headers n × (n ≤ max_body_bytes)
unfolding resolve_content_length
resolve_sound headers max_body_bytes n h = elim (Result-cases (framing_fields start headers)) [
  | inr (e, f) ↦ absurd (ground arith)
  | inl (s', f) ↦ elim (Option-cases s'.declared_length) [
    | inl d ↦
        let seen : s'.saw_transfer_encoding ≡ false = ground arith in
        let plain = ((framing_fields-before start s' headers f seen).1 d).1 in
        (
          record {
            all_agree =
                All-map headers (λ field u. record { not_coded = u.0; agrees = λ k. cc (u.1) })
                  plain;
            none_is_zero = λ _. ground arith;
          },
          ground arith,
        )
    | inr (m, d) ↦
        let seen : s'.saw_transfer_encoding ≡ false = ground arith in
        let same : m ≡ n = ground arith in
        let agreed = (framing_fields-agrees start s' headers n f seen (d ∙ ap some same)).1 in
        (
          record {
            all_agree = agreed;
            none_is_zero =
                λ bare. absurd (ground (arith, framing_fields_bare start s' headers bare f));
          },
          ground arith,
        )
  ]
]

resolve_complete :
    (headers : List HeaderView) (max_body_bytes n : ℕ)
    → IsFraming headers n
    → n ≤ max_body_bytes
    → resolve_content_length headers max_body_bytes ≡ ok n
unfolding resolve_content_length
resolve_complete headers max_body_bytes n v l =
    let (s', f, seen, declared) = framing_fields_run start headers n refl (inl refl) v.all_agree in
    elim declared [
      | inl d ↦ ground (arith, f, seen, d, l)
      | inr (d, bare) ↦ ground (arith, f, seen, d, l, v.none_is_zero bare)
    ]

pub resolve_content_length_iff :
    (headers : List HeaderView) (max_body_bytes n : ℕ)
    → (resolve_content_length headers max_body_bytes ≡ ok n)
      ↔ (IsFraming headers n × (n ≤ max_body_bytes))
resolve_content_length_iff headers max_body_bytes n =
    (resolve_sound headers max_body_bytes n, λ h. resolve_complete headers max_body_bytes n h.0 h.1)
