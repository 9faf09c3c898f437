-- ===== src/Json/MediaType.antt =====
-- Which requests say that their body is JSON, told without the source's test.
use erikslund_http_embedded.Prelude.{
  ◌-◌, ◌≡◌, refl, sym, ap, ◌∙◌, ◌≢◌, ◌⊎◌, inl, inr, Bool, true, false, Option, some, List, [], ◌∷◌,
  ◌++◌, arith, leb, if◌then◌else◌, Bool-cases, Option-cases, if_true, if_false, Bytes, codes, cut,
  Lacks, cut_cases, cut-append, cut_of_Lacks, length, take, drop, length-append, length-take,
  take-append-drop, All, drop-append_length,
}
use erikslund_http_embedded.Request.Types.{HeaderView}
use erikslund_http_embedded.Request.Chars.Padding.{IsTrimOf, trim-IsTrimOf, trim_of_IsTrimOf}
use erikslund_http_embedded.Request.State.{Request, first_ignoring_case, header}
use erikslund_http_embedded.Text.Ascii.{
  ascii_to_lower, equals_ignore_case, equals_ignore_case_iff, length-lower, lower,
}
use erikslund_http_embedded.Json.{declares_json, is_json_media_type}
use erikslund_http_embedded.Request.Chars.{trim_optional_whitespace}

-- The value of the first field of a name, which is read without case.
abbrev pub IsFirstNamed : Bytes → List HeaderView → Bytes → Type 0
IsFirstNamed name fields value =
    (before : List HeaderView) × (field : HeaderView) × (after : List HeaderView) × (fields
      ≡ before ++ (field ∷ after))
    × All (λ other. lower other.name ≢ lower name) before
    × (lower field.name ≡ lower name)
    × (field.value ≡ value)

-- The media type of a value: what stands before its parameters, without the space around it.
abbrev pub IsTypeOf : Bytes → Bytes → Type 0
IsTypeOf media value =
    (front : Bytes) × Lacks b';' front
    × ((value ≡ front) ⊎ ((parameters : Bytes) × (value ≡ front ++ (b';' ∷ parameters))))
    × IsTrimOf media front

-- "application/json", or a type with the structured suffix "+json", whatever the case.
abbrev pub IsJsonType : Bytes → Type 0
IsJsonType media =
    (lower media ≡ codes "application/json")
    ⊎ ((prefix : Bytes) × (suffix : Bytes) × (media ≡ prefix ++ suffix)
        × (prefix ≢ [])
        × (lower suffix ≡ codes "+json"))

abbrev pub DeclaresJson : Request → Type 0
DeclaresJson request =
    (value : Bytes) × (media : Bytes) × IsFirstNamed (codes "Content-Type") request.headers value
    × IsTypeOf media value
    × IsJsonType media

IsFirstNamed-sound :
    (name : Bytes) (fields : List HeaderView) (value : Bytes)
    → first_ignoring_case name fields ≡ some value
    → IsFirstNamed name fields value
unfolding first_ignoring_case
IsFirstNamed-sound name [] value h = cc
IsFirstNamed-sound name (field ∷ fields) value h =
    let same = equals_ignore_case_iff field.name name in
    elim (Bool-cases (equals_ignore_case field.name name)) [
      | inl e ↦ ([], field, fields, refl, tt, same.0 e, ground arith)
      | inr e ↦
          let (before, at, after, f, others, g, k) =
            IsFirstNamed-sound name fields value (ground arith) in
          (
            field ∷ before,
            at,
            after,
            ap (◌∷◌ field) f,
            ((λ h. ground (arith, same.1 h)), others),
            g,
            k,
          )
    ]

first_named_at :
    (name : Bytes) (before : List HeaderView) (field : HeaderView) (after : List HeaderView)
    → All (λ other. lower other.name ≢ lower name) before
    → lower field.name ≡ lower name
    → first_ignoring_case name (before ++ (field ∷ after)) ≡ some field.value
unfolding first_ignoring_case
first_named_at name [] field after h e = if_true _ _ ((equals_ignore_case_iff field.name name).1 e)
first_named_at name (other ∷ before) field after (p, h) e =
    elim (Bool-cases (equals_ignore_case other.name name)) [
      | inl f ↦ absurd (p ((equals_ignore_case_iff other.name name).0 f))
      | inr f ↦ if_false _ _ f ∙ first_named_at name before field after h e
    ]

first_named_complete :
    (name : Bytes) (fields : List HeaderView) (value : Bytes)
    → IsFirstNamed name fields value
    → first_ignoring_case name fields ≡ some value
first_named_complete name fields value (before, field, after, f, others, g, k) =
    ap (first_ignoring_case name) f ∙ (first_named_at name before field after others g ∙ ap some k)

lower_application : lower (codes "application/json") ≡ codes "application/json"
unfolding ascii_to_lower
lower_application = refl

lower_suffix : lower (codes "+json") ≡ codes "+json"
unfolding ascii_to_lower
lower_suffix = refl

-- The test of `is_json_media_type` on a type.
is_json_type : Bytes → Bool
is_json_type media =
    if equals_ignore_case media (codes "application/json")
    then true
    else if leb (length media) 5
    then false
    else equals_ignore_case (drop (length media - 5) media) (codes "+json")

IsJsonType-sound : (media : Bytes) → is_json_type media ≡ true → IsJsonType media
unfolding is_json_type
IsJsonType-sound media h = elim (Bool-cases (equals_ignore_case media (codes "application/json"))) [
  | inl e ↦ inl ((equals_ignore_case_iff media (codes "application/json")).0 e ∙ lower_application)
  | inr e ↦
      let suffix = drop (length media - 5) media in
      let long : leb (length media) 5 ≡ false = ground arith in
      inr (
        take (length media - 5) media,
        suffix,
        sym (take-append-drop (length media - 5) media),
        (λ empty. ground (arith, ap length empty, length-take (length media - 5) media)),
        (equals_ignore_case_iff suffix (codes "+json")).0 (ground arith) ∙ lower_suffix,
      )
]

json_type_of_suffix :
    (prefix suffix : Bytes)
    → prefix ≢ []
    → lower suffix ≡ codes "+json"
    → is_json_type (prefix ++ suffix) ≡ true
unfolding is_json_type
json_type_of_suffix [] suffix full e = absurd (full refl)
json_type_of_suffix (c ∷ prefix) suffix full e =
    let five : length suffix ≡ 5 = sym (length-lower suffix) ∙ ap length e in
    let all_of = length-append (c ∷ prefix) suffix in
    let front : length ((c ∷ prefix) ++ suffix) - 5 ≡ length (c ∷ prefix) =
      omega (arith, five, all_of) in
    let back : drop (length ((c ∷ prefix) ++ suffix) - 5) ((c ∷ prefix) ++ suffix) ≡ suffix =
      ap (λ n. drop n ((c ∷ prefix) ++ suffix)) front ∙ drop-append_length (c ∷ prefix) suffix in
    let matches =
      ap (λ s. equals_ignore_case s (codes "+json")) back
      ∙ (equals_ignore_case_iff suffix (codes "+json")).1 (e ∙ sym lower_suffix) in
    let long : leb (length ((c ∷ prefix) ++ suffix)) 5 ≡ false = ground (arith, five, all_of) in
    elim (Bool-cases (equals_ignore_case ((c ∷ prefix) ++ suffix) (codes "application/json"))) [
      | inl f ↦ if_true _ _ f
      | inr f ↦ if_false _ _ f ∙ (if_false _ _ long ∙ matches)
    ]

json_type_complete : (media : Bytes) → IsJsonType media → is_json_type media ≡ true
unfolding is_json_type
json_type_complete media (inl e) =
    if_true _ _
      ((equals_ignore_case_iff media (codes "application/json")).1 (e ∙ sym lower_application))
json_type_complete media (inr (prefix, suffix, e, full, f)) =
    ap is_json_type e ∙ json_type_of_suffix prefix suffix full f

cut_type :
    (media value : Bytes)
    → IsTypeOf media value
    → trim_optional_whitespace (cut b';' value).0 ≡ media
cut_type media value (front, free, inl e, t) =
    ap (λ v. trim_optional_whitespace (cut b';' v).0) e
    ∙ (ap (λ (z : Bytes × Option Bytes). trim_optional_whitespace z.0)
          (cut_of_Lacks b';' front free)
        ∙ trim_of_IsTrimOf media front t)
cut_type media value (front, free, inr (parameters, e), t) =
    ap (λ v. trim_optional_whitespace (cut b';' v).0) e
    ∙ (ap (λ (z : Bytes × Option Bytes). trim_optional_whitespace z.0)
          (cut-append b';' front parameters free)
        ∙ trim_of_IsTrimOf media front t)

IsTypeOf-value : (value : Bytes) → IsTypeOf (trim_optional_whitespace (cut b';' value).0) value
IsTypeOf-value value = elim (cut_cases b';' value) [
  | inl (e, _, free) ↦ rw e (value, free, inl refl, trim-IsTrimOf value)
  | inr (front, parameters, e, _, f, free, _) ↦
      rw e (front, free, inr (parameters, f), trim-IsTrimOf front)
]

is_json_type-media :
    (value : Bytes)
    → is_json_media_type value ≡ is_json_type (trim_optional_whitespace (cut b';' value).0)
unfolding is_json_media_type is_json_type
is_json_type-media value = refl

pub declares_json_sound :
    (request : Request)
    → declares_json (header request (codes "Content-Type")) ≡ true
    → DeclaresJson request
unfolding header
declares_json_sound request h =
    elim (Option-cases (first_ignoring_case (codes "Content-Type") request.headers)) [
      | inl e ↦ absurd (ground arith)
      | inr (value, e) ↦
          let media = trim_optional_whitespace (cut b';' value).0 in
          let says : is_json_media_type value ≡ true = ap declares_json (sym e) ∙ h in
          (
            value,
            media,
            IsFirstNamed-sound (codes "Content-Type") request.headers value e,
            IsTypeOf-value value,
            IsJsonType-sound media (sym (is_json_type-media value) ∙ says),
          )
    ]

pub declares_json_complete :
    (request : Request)
    → DeclaresJson request
    → declares_json (header request (codes "Content-Type")) ≡ true
unfolding header
declares_json_complete request (value, media, first, typed, json) =
    ap declares_json (first_named_complete (codes "Content-Type") request.headers value first)
    ∙ (is_json_type-media value
        ∙ (ap is_json_type (cut_type media value typed) ∙ json_type_complete media json))
