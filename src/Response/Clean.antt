-- ===== src/Response/Clean.antt =====
-- Whatever a handler builds, its fields are of the form that can be sent.
use erikslund_http_embedded.Text.Decimal.{decimal}
use erikslund_http_embedded.Prelude.{
  ◌≡◌, refl, sym, subst, ◌∙◌, ◌⊎◌, inl, inr, true, false, List, [], ◌∷◌, ◌++◌, arith, Bool-cases,
  if_true, if_false, Bytes, codes, is_empty, bytes_eq, bytes_eq_refl, All,
}
use erikslund_http_embedded.Response.Fields.{Misses, equals_ignore_case_sym}
use erikslund_http_embedded.Request.Types.{HeaderView}
use erikslund_http_embedded.Response.{
  ℤ, count_or_zero, Response, ResponseBody, StreamSource, apply_cache_for, apply_etag_from_body,
  borrowed_bytes, borrowed_response, canonical_name, comes_before, content_encoding, empty_response,
  has_key, html_response, is_stream, is_valid_field_name, is_valid_field_value, json_response,
  no_store, prometheus_response, set_field, set_header, stream_response, text_response,
  typed_response, owned, assign, insert, redirect, etag, response_body,
}
use erikslund_http_embedded.Status.{Status, ok_status}
use erikslund_http_embedded.Text.Ascii.{equals_ignore_case}
use erikslund_http_embedded.Text.Etag.{weak_etag}

-- A name that is a token, and a value without a byte that ends a line.
abbrev pub IsClean : HeaderView → Type 0
IsClean field = (is_valid_field_name field.name ≡ true) × (is_valid_field_value field.value ≡ true)

-- No two fields have a name that is equal in any case.
abbrev pub Distinct : List HeaderView → Type 0
Distinct [] = Unit
Distinct (field ∷ fields) = Misses field.name fields × Distinct fields

pub record IsSendable (fields : List HeaderView) : Type 0 where
  pub clean : All IsClean fields
  pub distinct : Distinct fields

insert-Misses :
    (name value other : Bytes) (fields : List HeaderView)
    → equals_ignore_case name other ≡ false
    → Misses other fields
    → Misses other (insert name value fields)
unfolding insert
insert-Misses name value other [] e v = (e, tt)
insert-Misses name value other (field ∷ fields) e (f, v) =
    elim (Bool-cases (comes_before name field.name)) [
      | inl g ↦ rw g (e, (f, v))
      | inr g ↦ rw g (f, insert-Misses name value other fields e v)
    ]

insert-IsSendable :
    (name value : Bytes) (fields : List HeaderView)
    → IsClean (record { name = name; value = value })
    → Misses name fields
    → IsSendable fields
    → IsSendable (insert name value fields)
unfolding insert
insert-IsSendable name value [] new m v = record { clean = (new, tt); distinct = (tt, tt) }
insert-IsSendable name value (field ∷ fields) new (e, m) v =
    elim (Bool-cases (comes_before name field.name)) [
      | inl g ↦ rw g (record { clean = (new, v.clean); distinct = ((e, m), v.distinct) })
      | inr g ↦
          let rest =
            insert-IsSendable name value fields new m
              (record { clean = v.clean.1; distinct = v.distinct.1 }) in
          rw g (record {
            clean = (v.clean.0, rest.clean);
            distinct = (
              insert-Misses name value field.name fields
                  (equals_ignore_case_sym name field.name ∙ e) v.distinct.0,
              rest.distinct,
            );
          })
    ]

assign-Misses :
    (name value other : Bytes) (fields : List HeaderView)
    → Misses other fields
    → Misses other (assign name value fields)
unfolding assign
assign-Misses name value other [] v = tt
assign-Misses name value other (field ∷ fields) (e, v) =
    elim (Bool-cases (bytes_eq field.name name)) [
      | inl f ↦ rw f (e, v)
      | inr f ↦ rw f (e, assign-Misses name value other fields v)
    ]

assign-IsSendable :
    (name value : Bytes) (fields : List HeaderView)
    → is_valid_field_value value ≡ true
    → IsSendable fields
    → IsSendable (assign name value fields)
unfolding assign
assign-IsSendable name value [] h v = v
assign-IsSendable name value (field ∷ fields) h v = elim (Bool-cases (bytes_eq field.name name)) [
  | inl f ↦ rw f (record { clean = ((v.clean.0.0, h), v.clean.1); distinct = v.distinct })
  | inr f ↦
      let rest =
        assign-IsSendable name value fields h
          (record { clean = v.clean.1; distinct = v.distinct.1 }) in
      rw f (record {
        clean = (v.clean.0, rest.clean);
        distinct = (assign-Misses name value field.name fields v.distinct.0, rest.distinct);
      })
]

-- The key that the loop of `set_header` finds is that of a field, or the new name where no field has it.
canonical_name-Misses :
    (name : Bytes) (fields : List HeaderView)
    → (Misses name fields × (canonical_name name fields ≡ name))
      ⊎ (has_key (canonical_name name fields) fields ≡ true)
unfolding canonical_name has_key
canonical_name-Misses name [] = inl (tt, refl)
canonical_name-Misses name (field ∷ fields) =
    elim (Bool-cases (equals_ignore_case field.name name)) [
      | inl e ↦ inr (rw e (rw (bytes_eq_refl field.name) refl))
      | inr e ↦ elim (canonical_name-Misses name fields) [
        | inl (m, same) ↦ inl ((e, m), if_false _ _ e ∙ same)
        | inr there ↦ inr (later name field fields e there)
      ]
    ]
  where
    later :
        (name : Bytes) (field : HeaderView) (fields : List HeaderView)
        → equals_ignore_case field.name name ≡ false
        → has_key (canonical_name name fields) fields ≡ true
        → has_key (canonical_name name (field ∷ fields)) (field ∷ fields) ≡ true
    later name field fields e there =
        subst (λ key. has_key key (field ∷ fields) ≡ true) (sym (if_false _ _ e))
          (ground (arith, there))

pub set_header-IsSendable :
    (name value : Bytes) (response : Response)
    → IsSendable response.headers
    → IsSendable (set_header name value response).headers
unfolding set_header set_field
set_header-IsSendable name value response v = elim (Bool-cases (is_valid_field_name name)) [
  | inr e ↦ rw e v
  | inl e ↦ elim (Bool-cases (is_valid_field_value value)) [
    | inr f ↦ rw (e, f) v
    | inl f ↦
        rw (e, f)
          (elim (Bool-cases (has_key (canonical_name name response.headers) response.headers)) [
            | inl g ↦ rw (if_true _ _ g) (
                assign-IsSendable (canonical_name name response.headers) value response.headers f v)
            | inr g ↦ elim (canonical_name-Misses name response.headers) [
              | inr there ↦ absurd (ground (arith, g, there))
              | inl (m, same) ↦
                  rw (if_false _ _ g)
                    (rw same (insert-IsSendable name value response.headers (e, f) m v))
            ]
          ])
  ]
]

-- The responses that handlers can build.
pub data Made : Response → Type 0 where
  made_empty : (status : Status) → Made (empty_response status)
  made_text : (text : Bytes) (status : Status) → Made (text_response text status)
  made_html : (text : Bytes) (status : Status) → Made (html_response text status)
  made_json : (text : Bytes) (status : Status) → Made (json_response text status)
  made_prometheus : (text : Bytes) → Made (prometheus_response text)
  made_borrowed :
      (bytes kind : Bytes) (status : Status) → Made (borrowed_response bytes kind status)
  made_redirect : (location : Bytes) (status : Status) → Made (redirect location status)
  made_stream : (source : StreamSource) → Made (stream_response source)
  with_header : {r : Response} (name value : Bytes) → Made r → Made (set_header name value r)
  with_etag : {r : Response} (value : Bytes) → Made r → Made (etag value r)
  with_etag_from_body : {r : Response} → Made r → Made (apply_etag_from_body r)
  with_cache_for : {r : Response} (max_age : ℤ) → Made r → Made (apply_cache_for max_age r)
  with_no_store : {r : Response} → Made r → Made (no_store r)
  with_content_encoding : {r : Response} (value : Bytes) → Made r → Made (content_encoding value r)

typed-IsSendable :
    (status : Status) (bytes : ResponseBody) (kind : Bytes)
    → IsSendable (typed_response status bytes kind).headers
unfolding typed_response empty_response
typed-IsSendable status bytes kind =
    set_header-IsSendable (codes "Content-Type") kind
      (record (empty_response status) { content = bytes }) (record { clean = tt; distinct = tt })

-- However a response is built, the names of its fields are tokens, no two of them equal in any case, and
-- their values have no control byte but the tab: no field can end its line and start another.
pub Made-IsSendable : {response : Response} → Made response → IsSendable response.headers
unfolding empty_response text_response html_response json_response prometheus_response
    borrowed_response redirect stream_response etag apply_etag_from_body apply_cache_for no_store
    content_encoding
Made-IsSendable (made_empty which) = record { clean = tt; distinct = tt }
Made-IsSendable (made_text text which) =
    typed-IsSendable which (owned text) (codes "text/plain; charset=utf-8")
Made-IsSendable (made_html text which) =
    typed-IsSendable which (owned text) (codes "text/html; charset=utf-8")
Made-IsSendable (made_json text which) =
    typed-IsSendable which (owned text) (codes "application/json")
Made-IsSendable (made_prometheus text) =
    typed-IsSendable ok_status (owned text) (codes "text/plain; version=0.0.4; charset=utf-8")
Made-IsSendable (made_borrowed bytes kind which) = elim (Bool-cases (is_empty kind)) [
  | inl e ↦ rw e (record { clean = tt; distinct = tt })
  | inr e ↦ rw e (typed-IsSendable which (borrowed_bytes bytes) kind)
]
Made-IsSendable (made_redirect location which) = elim (Bool-cases (is_empty location)) [
  | inl e ↦ rw e (record { clean = tt; distinct = tt })
  | inr e ↦ rw e (
      set_header-IsSendable (codes "Location") location (empty_response which)
        (record { clean = tt; distinct = tt }))
]
Made-IsSendable (made_stream source) = elim (Bool-cases (is_empty source.content_type)) [
  | inl e ↦ rw e (
      set_header-IsSendable (codes "Cache-Control") (codes "no-store") (empty_response ok_status)
        (record { clean = tt; distinct = tt }))
  | inr e ↦ rw e (
      set_header-IsSendable (codes "Cache-Control") (codes "no-store")
        (typed_response ok_status (owned []) source.content_type)
        (typed-IsSendable ok_status (owned []) source.content_type))
]
Made-IsSendable (with_header {r} name value m) =
    set_header-IsSendable name value r (Made-IsSendable m)
Made-IsSendable (with_etag {r} value m) =
    set_header-IsSendable (codes "ETag") value r (Made-IsSendable m)
Made-IsSendable (with_etag_from_body {r} m) = elim (Bool-cases (is_stream r)) [
  | inl e ↦ rw e (Made-IsSendable m)
  | inr e ↦
      rw e
        (set_header-IsSendable (codes "ETag") (weak_etag (response_body r)) r (Made-IsSendable m))
]
Made-IsSendable (with_cache_for {r} max_age m) =
    set_header-IsSendable (codes "Cache-Control")
      (codes "max-age=" ++ decimal (count_or_zero max_age)) r (Made-IsSendable m)
Made-IsSendable (with_no_store {r} m) =
    set_header-IsSendable (codes "Cache-Control") (codes "no-store") r (Made-IsSendable m)
Made-IsSendable (with_content_encoding {r} value m) =
    set_header-IsSendable (codes "Content-Encoding") value r (Made-IsSendable m)
