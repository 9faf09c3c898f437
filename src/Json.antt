-- ===== src/Json.antt =====
-- src/json.cpp: which requests carry JSON, and what one that does not is answered.
pub mod MediaType
pub mod Answer
use erikslund_http_embedded.Prelude.{
  ℕ, ◌-◌, Bool, true, false, not, Option, none, some, ◌++◌, ltb, leb, if◌then◌else◌, Bytes, codes,
  is_empty, cut, length, drop, Result, ok, err,
}
use erikslund_http_embedded.Response.{Response, json_response}
use erikslund_http_embedded.Request.State.{Request, header}
use erikslund_http_embedded.Status.{content_too_large, bad_request, Status}
use erikslund_http_embedded.Text.Ascii.{equals_ignore_case}
use erikslund_http_embedded.Text.Escape.{json_escape}
use erikslund_http_embedded.Request.Chars.{trim_optional_whitespace}

pub data JsonError : Type 0 where
  not_json malformed_json type_mismatch too_large : JsonError

-- The type before its parameters, without the space around it.
unfoldable pub is_json_media_type : Bytes → Bool
unfolding cut trim_optional_whitespace equals_ignore_case
is_json_media_type content_type =
    let media_type = trim_optional_whitespace (cut b';' content_type).0 in
    let suffix = codes "+json" in
    if equals_ignore_case media_type (codes "application/json")
    then true
    else if leb (length media_type) (length suffix)
    then false
    else equals_ignore_case (drop (length media_type - length suffix) media_type) suffix

unfoldable pub json_error_message : JsonError → Bytes
json_error_message not_json = codes "expected a request body with Content-Type: application/json"
json_error_message malformed_json = codes "request body is not well-formed JSON"
json_error_message type_mismatch = codes "request body does not match the expected field types"
json_error_message too_large = codes "request body exceeds the JSON size limit for this route"

abbrev pub json_error_status : JsonError → Status
json_error_status too_large = content_too_large
json_error_status _ = bad_request

unfoldable pub json_error_response : JsonError → Response
unfolding json_response json_escape json_error_message
json_error_response error =
    json_response (codes "{\"error\":\"" ++ (json_escape (json_error_message error) ++ codes "\"}"))
      (json_error_status error)

abbrev pub declares_json : Option Bytes → Bool
declares_json none = false
declares_json (some content_type) = is_json_media_type content_type

unfoldable pub json_body_of : Request → ℕ → Result JsonError Bytes
unfolding is_json_media_type header
json_body_of request max_bytes =
    if not (declares_json (header request (codes "Content-Type")))
    then err not_json
    else if ltb max_bytes (length request.body)
    then err too_large
    else if is_empty request.body
    then err not_json
    else ok request.body
