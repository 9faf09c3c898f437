-- ===== src/Tests/Answers.antt =====
-- Responses and their heads, run on concrete inputs.
use erikslund_http_embedded.Json.Answer.{Explains, json_body_of-Explains}
use erikslund_http_embedded.Prelude.{
  ◌≡◌, refl, ◌&&◌, none, some, [], if◌then◌else◌, codes, bytes_eq, contains_byte, length, every,
  true, false, ◌||◌, Option, ◌++◌, Bytes, starts_with, cut, ◌∷◌, ok, err,
}
use erikslund_http_embedded.Method.{get}
use erikslund_http_embedded.Status.{
  ok_status, reason_phrase, service_unavailable, status_class, status_code, is_bodiless,
}
use erikslund_http_embedded.Response.Clean.{IsSendable, Made-IsSendable, made_text, with_header}
use erikslund_http_embedded.Response.{
  Response, apply_cache_for, apply_etag_from_body, borrowed_response, canonical_name, comes_before,
  content_encoding, empty_response, find_field, find_header, has_key, html_response, is_stream,
  is_valid_field_name, is_valid_field_value, json_response, no_store, prometheus_response,
  set_field, set_header, stream_response, text_response, typed_response, assign, insert, redirect,
  etag, response_body,
}
use erikslund_http_embedded.Text.Ascii.{ascii_to_lower, equals_ignore_case, same_ignoring_case}
use erikslund_http_embedded.Text.Decimal.{digits_from, decimal}
use erikslund_http_embedded.Response.Fields.{find_header-set_header}
use erikslund_http_embedded.Text.Etag.{
  fnv1a_64, hash_from, hex_digit, hex_places, weak_etag, weak_etag_buffer,
}
use erikslund_http_embedded.Request.Chars.{
  is_token_character, is_valid_field_value_byte, is_optional_whitespace, trim_back, trim_front,
  trim_optional_whitespace,
}
use erikslund_http_embedded.Encoder.Head.{IsHead, connection_token, announced}
use erikslund_http_embedded.Request.State.{Request, empty_request, first_ignoring_case, header}
use erikslund_http_embedded.Encoder.{
  ResponseEncodingOptions, accept_encoding_vary, append_coding_fields, append_default,
  append_defaults, append_field, append_framing, append_handler_field, append_handler_fields,
  append_number, append_status_line, apply_conditional_request, encode_response,
  has_control_character, is_framing_field, list_names, list_names_from, not_modified_from, preserve,
  negotiate, preserve_field,
}
use erikslund_http_embedded.Encoder.Answer.{answer-IsHead}
use erikslund_http_embedded.Conditional.{
  candidates_match, if_none_match_matches, names_entity, without_weak_marker,
}
use erikslund_http_embedded.Compress.{
  ends_with_ignore_case, ends_with_some, equals_some, gzip_compress, media_type_is_compressible,
  media_type_of, response_varies_on_accept_encoding, starts_with_ignore_case,
}
use erikslund_http_embedded.Json.{is_json_media_type, json_body_of, not_json, too_large}

answer_runs : Unit {0}
unfolding bytes_eq every ascii_to_lower same_ignoring_case equals_ignore_case is_token_character
    is_valid_field_value_byte contains_byte is_valid_field_name is_valid_field_value comes_before
    has_key assign insert set_field canonical_name set_header find_field find_header empty_response
    typed_response text_response html_response json_response prometheus_response borrowed_response
    redirect stream_response response_body is_stream etag apply_etag_from_body apply_cache_for
    no_store content_encoding hash_from fnv1a_64 hex_digit hex_places weak_etag_buffer weak_etag
    digits_from decimal status_code status_class reason_phrase has_control_character append_number
    append_field is_framing_field list_names_from list_names accept_encoding_vary preserve
    preserve_field not_modified_from apply_conditional_request append_handler_field
    append_handler_fields append_default append_status_line append_coding_fields append_defaults
    append_framing negotiate encode_response is_bodiless starts_with_ignore_case
    ends_with_ignore_case media_type_of ends_with_some equals_some media_type_is_compressible
    response_varies_on_accept_encoding gzip_compress cut trim_optional_whitespace trim_front
    trim_back is_optional_whitespace header first_ignoring_case if_none_match_matches
    candidates_match names_entity without_weak_marker starts_with
answer_runs = tt

abbrev greeting : Response
greeting = set_header (codes "X-A") (codes "1") (text_response (codes "hello") ok_status)

find_header_example : find_header (set_header (codes "x-a") (codes "2") greeting) (codes "X-a") ≡ (
    if is_valid_field_name (codes "x-a")
      && is_valid_field_value (codes "2")
      && equals_ignore_case (codes "x-a") (codes "X-a")
    then some (codes "2")
    else find_header greeting (codes "X-a"))
find_header_example = find_header-set_header (codes "x-a") (codes "2") greeting (codes "X-a")

made_example : IsSendable greeting.headers
made_example =
    Made-IsSendable (with_header (codes "X-A") (codes "1") (made_text (codes "hello") ok_status))

response_tests :
    (find_header (set_header (codes "x-a") (codes "2") greeting) (codes "X-a") ≡ some (codes "2"))
    × (length (set_header (codes "x-a") (codes "2") greeting).headers ≡ 2)
    × (find_header (set_header (codes "X-B") (codes "a\r\nSet-Cookie: b") greeting) (codes "X-B")
        ≡ none)
    × (weak_etag [] ≡ codes "W/\"cbf29ce484222325\"")
    × (status_class service_unavailable ≡ codes "5xx")
unfolding answer_runs
response_tests = (refl, refl, refl, refl, refl)

abbrev no_deflate : Bytes → Option Bytes
no_deflate plain = none

abbrev plain_options : ResponseEncodingOptions
plain_options = record {
  server_header = codes "e";
  keep_alive = true;
  secure = false;
  strict_transport_security = false;
  hsts_max_age_seconds = 0;
}

abbrev some_day : Bytes
some_day = codes "Sun, 06 Nov 1994 08:49:37 GMT"

abbrev a_get : Request
a_get = record empty_request { method = get }

some_day-IsValue : is_valid_field_value some_day ≡ true
unfolding answer_runs
some_day-IsValue = refl

abbrev answered : Response
answered = apply_conditional_request a_get greeting

answer_example :
    IsHead answered.status
      (announced
        (is_stream answered || is_bodiless answered.status)
        (length (encode_response no_deflate some_day a_get answered plain_options).body))
      (connection_token (is_stream answered) true)
      (encode_response no_deflate some_day a_get answered plain_options).written
answer_example =
    answer-IsHead no_deflate some_day a_get plain_options some_day-IsValue
      (with_header (codes "X-A") (codes "1") (made_text (codes "hello") ok_status))

abbrev greeting_head : Bytes
greeting_head =
    codes "HTTP/1.1 200 OK\r\nContent-Type: text/plain; charset=utf-8\r\nX-A: 1\r\n"
    ++ (codes "Date: Sun, 06 Nov 1994 08:49:37 GMT\r\nServer: e\r\nCache-Control: no-store\r\n"
        ++ (codes "X-Content-Type-Options: nosniff\r\nReferrer-Policy: no-referrer\r\n"
            ++ codes "Content-Length: 5\r\nConnection: keep-alive\r\n\r\n"))

head_test :
    (encode_response no_deflate some_day a_get answered plain_options).written ≡ greeting_head
unfolding answer_runs
head_test = refl

abbrev a_post : Request
a_post = record empty_request {
  body = codes "{}";
  headers =
      record {
        name = codes "content-type";
        value = codes " Application/problem+JSON ; charset=utf-8";
      }
      ∷ [];
}

json_body_example : Explains a_post 10 (json_body_of a_post 10)
json_body_example = json_body_of-Explains a_post 10

json_tests :
    (json_body_of a_post 10 ≡ ok (codes "{}"))
    × (json_body_of a_post 1 ≡ err too_large)
    × (json_body_of a_get 10 ≡ err not_json)
unfolding answer_runs is_json_media_type json_body_of
json_tests = (refl, refl, refl)
