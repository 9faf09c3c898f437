-- ===== src/Encoder/Head.antt =====
-- A head is a status line, whole lines of clean fields, and one statement of where the message ends.
use erikslund_http_embedded.Prelude.{
  ℕ, ◌≡◌, refl, ◌∙◌, inl, inr, Bool, true, false, ◌&&◌, List, [], ◌∷◌, ◌++◌, arith, if◌then◌else◌,
  Bool-cases, Option-cases, if_true, if_false, Bytes, codes, is_empty, All, every, not, ◌||◌,
  append_assoc, starts_with, contains_byte, ap, Option, length,
}
use erikslund_http_embedded.Encoder.{
  accept_encoding_vary, append_default, append_field, append_handler_field, append_handler_fields,
  has_control_character, is_framing_field, value_or_empty, ResponseEncodingOptions,
  append_coding_fields, append_defaults, append_framing, append_number,
  html_content_security_policy, append_status_line, body_or, encode_response, is_some, negotiate,
}
use erikslund_http_embedded.Encoder.Values.{
  IsValue, append-IsValue, decimal-IsValue, find_field-IsValue, no_control-IsValue, vary-IsValue,
}
use erikslund_http_embedded.Encoder.Blocks.{
  Emits, Emits-nothing, Emits-other, Emits-same, Emits-then, one_field, Emits-field, values_of,
  lines_of_fields,
}
use erikslund_http_embedded.Response.Clean.{IsClean}
use erikslund_http_embedded.Request.Types.{HeaderView}
use erikslund_http_embedded.Text.Decimal.{decimal}
use erikslund_http_embedded.Response.{
  Response, find_header, is_valid_field_value, is_valid_field_name, is_stream,
}
use erikslund_http_embedded.Text.Ascii.{equals_ignore_case, ascii_to_lower, same_ignoring_case}
use erikslund_http_embedded.Request.Chars.{is_valid_field_value_byte, is_token_character}
use erikslund_http_embedded.Status.{Status, is_bodiless, reason_phrase, status_code}
use erikslund_http_embedded.Request.Fields.{crlf}
use erikslund_http_embedded.Request.State.{Request}

handler_field-Emits :
    (varies : Bool) (field : HeaderView)
    → IsClean field
    → Emits (λ out. append_handler_field varies field out) [] [] []
unfolding append_handler_field
handler_field-Emits varies field v = elim (Bool-cases (is_framing_field field.name)) [
  | inl e ↦ Emits-same (λ out. if_true _ _ e) Emits-nothing
  | inr e ↦ elim (Bool-cases (varies && equals_ignore_case field.name (codes "Vary"))) [
    | inl f ↦ Emits-same (λ out. if_false _ _ e ∙ if_true _ _ f) Emits-nothing
    | inr f ↦
        Emits-same (λ out. if_false _ _ e ∙ if_false _ _ f) (Emits-other field.name field.value v e)
  ]
]

handler_fields-Emits :
    (varies : Bool) (fields : List HeaderView)
    → All IsClean fields
    → Emits (λ out. append_handler_fields varies fields out) [] [] []
unfolding append_handler_fields
handler_fields-Emits varies [] v = Emits-nothing
handler_fields-Emits varies (field ∷ fields) (h, v) =
    Emits-then (handler_field-Emits varies field h) (handler_fields-Emits varies fields v)

optional-Emits :
    (b : Bool) (name value : Bytes)
    → (b ≡ true → IsClean (one_field name value))
    → is_framing_field name ≡ false
    → Emits (λ out. if b then append_field out name value else out) [] [] []
optional-Emits b name value v e = elim (Bool-cases b) [
  | inl f ↦ Emits-same (λ out. if_true _ _ f) (Emits-other name value (v f) e)
  | inr f ↦ Emits-same (λ out. if_false _ _ f) Emits-nothing
]

default-Emits :
    (response : Response) (wanted : Bool) (name value : Bytes)
    → (wanted ≡ true → IsClean (one_field name value))
    → is_framing_field name ≡ false
    → Emits (λ out. append_default response wanted name value out) [] [] []
unfolding append_default
default-Emits response wanted name value v e = elim (Option-cases (find_header response name)) [
  | inl f ↦ rw (append_default, f) (optional-Emits wanted name value v e)
  | inr (present, f) ↦ rw (append_default, f) Emits-nothing
]

-- A name and a value that are written in the source.
literals : Unit {0}
unfolding is_valid_field_name is_valid_field_value every is_token_character
    is_valid_field_value_byte contains_byte is_framing_field equals_ignore_case same_ignoring_case
    ascii_to_lower values_of
literals = tt

coding_fields-Emits :
    (compressed varies : Bool) (response : Response)
    → All IsClean response.headers
    → Emits (λ out. append_coding_fields compressed varies response out) [] [] []
unfolding append_coding_fields
coding_fields-Emits compressed varies response v =
    Emits-then
      (optional-Emits compressed (codes "Content-Encoding") (codes "gzip")
        (λ e. unfold literals in (refl, refl)) (unfold literals in refl))
      (optional-Emits varies (codes "Vary")
        (accept_encoding_vary (value_or_empty (find_header response (codes "Vary"))))
        (λ e. (
          unfold literals in refl,
          vary-IsValue (value_or_empty (find_header response (codes "Vary")))
              (unfold find_header in find_field-IsValue response.headers (codes "Vary") v),
        ))
        (unfold literals in refl))

defaults-Emits :
    (date : Bytes) (options : ResponseEncodingOptions) (response : Response)
    → IsValue date
    → Emits (λ out. append_defaults date options response out) [] [] []
unfolding append_defaults
defaults-Emits date options response d =
    let fixed : (name value : Bytes)
        → IsClean (one_field name value)
        → is_framing_field name ≡ false
        → Emits (λ out. append_default response true name value out) [] [] [] =
      λ name value v e. default-Emits response true name value (λ t. v) e in
    Emits-then
      (Emits-then
        (Emits-then
          (Emits-then
            (Emits-then
              (Emits-then
                (fixed (codes "Date") date (unfold literals in refl, d) (unfold literals in refl))
                (default-Emits response
                  (not (is_empty options.server_header)
                    && not (has_control_character options.server_header))
                  (codes "Server") options.server_header
                  (λ e. (
                    unfold literals in refl,
                    no_control-IsValue options.server_header (ground arith),
                  ))
                  (unfold literals in refl)))
              (fixed (codes "Cache-Control") (codes "no-store") (unfold literals in (refl, refl))
                (unfold literals in refl)))
            (fixed (codes "X-Content-Type-Options") (codes "nosniff")
              (unfold literals in (refl, refl)) (unfold literals in refl)))
          (fixed (codes "Referrer-Policy") (codes "no-referrer") (unfold literals in (refl, refl))
            (unfold literals in refl)))
        (default-Emits response
          (starts_with (value_or_empty (find_header response (codes "Content-Type")))
            (codes "text/html"))
          (codes "Content-Security-Policy") html_content_security_policy
          (λ e. unfold literals in (refl, refl)) (unfold literals in refl)))
      (default-Emits response (options.secure && options.strict_transport_security)
        (codes "Strict-Transport-Security")
        (codes "max-age=" ++ decimal options.hsts_max_age_seconds)
        (λ e. (
          unfold literals in refl,
          append-IsValue (codes "max-age=") (decimal options.hsts_max_age_seconds)
              (unfold literals in refl) (decimal-IsValue options.hsts_max_age_seconds),
        ))
        (unfold literals in refl))

-- The token of the Connection field, and the sizes that are announced.
abbrev pub connection_token : Bool → Bool → Bytes
connection_token streaming keep_alive =
    if streaming then codes "close" else if keep_alive then codes "keep-alive" else codes "close"

abbrev pub announced : Bool → ℕ → List Bytes
announced silent size = if silent then [] else decimal size ∷ []

connection-Emits :
    (streaming keep_alive : Bool)
    → Emits
        (λ out. append_field out (codes "Connection") (connection_token streaming keep_alive))
        []
        (connection_token streaming keep_alive ∷ [])
        []
unfolding literals
connection-Emits true keep_alive = Emits-field (codes "Connection") (codes "close") (refl, refl)
connection-Emits false true = Emits-field (codes "Connection") (codes "keep-alive") (refl, refl)
connection-Emits false false = Emits-field (codes "Connection") (codes "close") (refl, refl)

length_line :
    (size : ℕ) (out : Bytes)
    → append_number (out ++ (codes "Content-Length" ++ codes ": ")) size ++ crlf
      ≡ append_field out (codes "Content-Length") (decimal size)
unfolding append_number append_field
length_line size out =
    append_assoc (out ++ (codes "Content-Length" ++ codes ": ")) (decimal size) crlf
    ∙ append_assoc out (codes "Content-Length" ++ codes ": ") (decimal size ++ crlf)

length-Emits :
    (size : ℕ)
    → Emits
        (λ out. append_number (out ++ (codes "Content-Length" ++ codes ": ")) size ++ crlf)
        (decimal size ∷ [])
        []
        []
unfolding literals
length-Emits size =
    Emits-same (length_line size)
      (Emits-field (codes "Content-Length") (decimal size) (refl, decimal-IsValue size))

framing-Emits :
    (streaming : Bool) (status : Status) (keep_alive : Bool) (size : ℕ)
    → Emits
        (λ out. append_framing streaming status keep_alive size out)
        (announced (streaming || is_bodiless status) size)
        (connection_token streaming keep_alive ∷ [])
        []
unfolding append_framing
framing-Emits true which keep_alive size = connection-Emits true keep_alive
framing-Emits false which keep_alive size = elim (Bool-cases (is_bodiless which)) [
  | inl e ↦ rw e (connection-Emits false keep_alive)
  | inr e ↦ rw e (Emits-then (length-Emits size) (connection-Emits false keep_alive))
]

-- A head of a response: what a client reads of it.
pub record IsHead (status : Status) (sizes : List Bytes) (connection : Bytes) (written : Bytes)
    : Type 0 where
  pub fields : List HeaderView
  pub text :
      written
      ≡ codes "HTTP/1.1 "
        ++ (decimal (status_code status)
            ++ (codes " " ++ (reason_phrase status ++ (crlf ++ (lines_of_fields fields ++ crlf)))))
  pub clean : All IsClean fields
  pub sized : values_of (codes "Content-Length") fields ≡ sizes
  pub connected : values_of (codes "Connection") fields ≡ connection ∷ []
  pub unchunked : values_of (codes "Transfer-Encoding") fields ≡ []

status_line_text :
    (status : Status) (rest : Bytes)
    → append_status_line status [] ++ rest
      ≡ codes "HTTP/1.1 "
        ++ (decimal (status_code status) ++ (codes " " ++ (reason_phrase status ++ (crlf ++ rest))))
unfolding append_status_line append_number
status_line_text status rest =
    append_assoc (codes "HTTP/1.1 " ++ decimal (status_code status))
      (codes " " ++ (reason_phrase status ++ crlf)) rest
    ∙ (append_assoc (codes "HTTP/1.1 ") (decimal (status_code status))
          (codes " " ++ ((reason_phrase status ++ crlf) ++ rest))
        ∙ ap (λ z. codes "HTTP/1.1 " ++ (decimal (status_code status) ++ (codes " " ++ z)))
            (append_assoc (reason_phrase status) crlf rest))

-- The head of a response, whatever its fields say of the framing, is a status line and lines of fields
-- that are all clean, one of which says whether the connection stays, and one the size of the body,
-- but none where there is none to be sent for the status or where the body is a stream; none says that
-- the body comes in chunks. The fields of the response and the date have to be clean.
pub encode_response-IsHead :
    (deflate : Bytes → Option Bytes) (date : Bytes) (request : Request) (response : Response)
    (options : ResponseEncodingOptions)
    → is_valid_field_value date ≡ true
    → All IsClean response.headers
    → IsHead response.status
        (announced
          (is_stream response || is_bodiless response.status)
          (length (encode_response deflate date request response options).body))
        (connection_token (is_stream response) options.keep_alive)
        (encode_response deflate date request response options).written
unfolding encode_response
encode_response-IsHead deflate date request response options d v =
    let n = negotiate deflate date request response in
    let sent = body_or n.1 n.2 in
    let all =
      Emits-then
        (Emits-then
          (Emits-then (handler_fields-Emits n.0 response.headers v)
            (coding_fields-Emits (is_some n.1) n.0 response v))
          (defaults-Emits date options response d))
        (framing-Emits (is_stream response) response.status options.keep_alive (length sent)) in
    record {
      fields = all.fields;
      text =
          ap (λ z. z ++ crlf) (all.lines (append_status_line response.status []))
          ∙ (append_assoc (append_status_line response.status []) (lines_of_fields all.fields) crlf
              ∙ status_line_text response.status (lines_of_fields all.fields ++ crlf));
      clean = all.clean;
      sized = all.sized;
      connected = all.connected;
      unchunked = all.transferred;
    }
