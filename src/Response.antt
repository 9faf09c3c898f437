-- ===== src/Response.antt =====
-- src/response.cpp: what a handler answers. `std::flat_map` is its list of fields, in the order of the
-- bytes of their names. A dropped field is logged, which has no place here.
pub mod Fields
pub mod Clean
use erikslund_http_embedded.Text.Decimal.{decimal}
use erikslund_http_embedded.Prelude.{
  ℕ, Bool, true, false, not, ◌&&◌, ◌||◌, Option, none, some, List, [], ◌∷◌, ◌++◌, ltb, ◌==◌,
  if◌then◌else◌, Bytes, codes, is_empty, bytes_eq, every,
}
use erikslund_http_embedded.Status.{Status, ok_status}
use erikslund_http_embedded.Request.Types.{HeaderView}
use erikslund_http_embedded.Text.Ascii.{equals_ignore_case}
use erikslund_http_embedded.Request.Chars.{is_token_character, is_valid_field_value_byte}
use erikslund_http_embedded.Text.Etag.{weak_etag}

-- The members of a source that a response reads; the source runs elsewhere.
pub record StreamSource : Type 0 where
  pub content_type : Bytes

pub data ResponseBody : Type 0 where
  owned borrowed_bytes : Bytes → ResponseBody

pub record Response : Type 0 where
  pub status : Status
  pub content : ResponseBody
  pub headers : List HeaderView
  pub stream_source : Option StreamSource

unfoldable pub is_valid_field_name : Bytes → Bool
unfolding every is_token_character
is_valid_field_name name = not (is_empty name) && every is_token_character name

unfoldable pub is_valid_field_value : Bytes → Bool
unfolding every is_valid_field_value_byte
is_valid_field_value value = every is_valid_field_value_byte value

-- `std::less<std::string>`: by bytes.
unfoldable pub comes_before : Bytes → Bytes → Bool
comes_before left [] = false
comes_before [] (r ∷ right) = true
comes_before (l ∷ left) (r ∷ right) = ltb l r || (l == r && comes_before left right)

-- `insert_or_assign` of a map: the value of the key is replaced, or the pair put in its place.
unfoldable pub has_key : Bytes → List HeaderView → Bool
unfolding bytes_eq
has_key name [] = false
has_key name (field ∷ fields) = bytes_eq field.name name || has_key name fields

unfoldable pub assign : Bytes → Bytes → List HeaderView → List HeaderView
unfolding bytes_eq
assign name value [] = []
assign name value (field ∷ fields) =
    let rest = assign name value fields in
    if bytes_eq field.name name then record field { value = value } ∷ fields else field ∷ rest

unfoldable pub insert : Bytes → Bytes → List HeaderView → List HeaderView
unfolding comes_before
insert name value [] = record { name = name; value = value } ∷ []
insert name value (field ∷ fields) =
    let rest = insert name value fields in
    if comes_before name field.name
    then record { name = name; value = value } ∷ (field ∷ fields)
    else field ∷ rest

unfoldable pub set_field : Bytes → Bytes → List HeaderView → List HeaderView
unfolding has_key assign insert
set_field name value fields =
    if has_key name fields then assign name value fields else insert name value fields

-- The key that the loop of `set_header` finds.
unfoldable pub canonical_name : Bytes → List HeaderView → Bytes
unfolding equals_ignore_case
canonical_name name [] = name
canonical_name name (field ∷ fields) =
    let rest = canonical_name name fields in
    if equals_ignore_case field.name name then field.name else rest

unfoldable pub set_header : Bytes → Bytes → Response → Response
unfolding is_valid_field_name is_valid_field_value canonical_name set_field
set_header name value response =
    if not (is_valid_field_name name)
    then response
    else if not (is_valid_field_value value)
    then response
    else record response {
      headers = set_field (canonical_name name response.headers) value response.headers;
    }

-- The loop of `find_header`.
unfoldable pub find_field : List HeaderView → Bytes → Option Bytes
unfolding equals_ignore_case
find_field [] name = none
find_field (field ∷ fields) name =
    let rest = find_field fields name in
    if equals_ignore_case field.name name then some field.value else rest

unfoldable pub find_header : Response → Bytes → Option Bytes
unfolding find_field
find_header response name = find_field response.headers name

unfoldable pub empty_response : Status → Response
empty_response status = record {
  status = status;
  content = owned [];
  headers = [];
  stream_source = none;
}

unfoldable pub typed_response : Status → ResponseBody → Bytes → Response
unfolding set_header empty_response
typed_response status body content_type =
    set_header (codes "Content-Type") content_type
      (record (empty_response status) { content = body })

unfoldable pub text_response : Bytes → Status → Response
unfolding typed_response
text_response body status = typed_response status (owned body) (codes "text/plain; charset=utf-8")

unfoldable pub html_response : Bytes → Status → Response
unfolding typed_response
html_response body status = typed_response status (owned body) (codes "text/html; charset=utf-8")

unfoldable pub json_response : Bytes → Status → Response
unfolding typed_response
json_response body status = typed_response status (owned body) (codes "application/json")

unfoldable pub prometheus_response : Bytes → Response
unfolding typed_response
prometheus_response body =
    typed_response ok_status (owned body) (codes "text/plain; version=0.0.4; charset=utf-8")

unfoldable pub borrowed_response : Bytes → Bytes → Status → Response
unfolding typed_response empty_response
borrowed_response body content_type status =
    if is_empty content_type
    then record (empty_response status) { content = borrowed_bytes body }
    else typed_response status (borrowed_bytes body) content_type

unfoldable pub redirect : Bytes → Status → Response
unfolding set_header empty_response
redirect location status =
    if is_empty location
    then empty_response status
    else set_header (codes "Location") location (empty_response status)

-- The source of a stream is never null.
unfoldable pub stream_response : StreamSource → Response
unfolding typed_response set_header empty_response
stream_response source =
    let typed =
      if is_empty source.content_type
      then empty_response ok_status
      else typed_response ok_status (owned []) source.content_type in
    record (set_header (codes "Cache-Control") (codes "no-store") typed) {
      stream_source = some source;
    }

unfoldable pub response_body : Response → Bytes
response_body response = elim response.content [
  | owned bytes ↦ bytes
  | borrowed_bytes bytes ↦ bytes
]

unfoldable pub is_stream : Response → Bool
is_stream response = elim response.stream_source [ none ↦ false | some source ↦ true ]

unfoldable pub etag : Bytes → Response → Response
unfolding set_header
etag value response = set_header (codes "ETag") value response

unfoldable pub apply_etag_from_body : Response → Response
unfolding is_stream set_header weak_etag response_body
apply_etag_from_body response =
    if is_stream response
    then response
    else set_header (codes "ETag") (weak_etag (response_body response)) response

-- A count of seconds, which may be below zero.
pub data ℤ : Type 0 where
  pos negsuc : ℕ → ℤ

-- The larger one of a count and 0.
unfoldable pub count_or_zero : ℤ → ℕ
count_or_zero (pos n) = n
count_or_zero (negsuc n) = 0

unfoldable pub apply_cache_for : ℤ → Response → Response
unfolding set_header decimal count_or_zero
apply_cache_for max_age response =
    set_header (codes "Cache-Control") (codes "max-age=" ++ decimal (count_or_zero max_age))
      response

unfoldable pub no_store : Response → Response
unfolding set_header
no_store response = set_header (codes "Cache-Control") (codes "no-store") response

unfoldable pub content_encoding : Bytes → Response → Response
unfolding set_header
content_encoding value response = set_header (codes "Content-Encoding") value response
