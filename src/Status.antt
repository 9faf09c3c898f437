-- ===== src/Status.antt =====
-- include/erikslund/http/status.hpp: the status codes and their texts.
use erikslund_http_embedded.Prelude.{
  ℕ, Bool, true, false, List, [], ◌∷◌, ltb, if◌then◌else◌, Bytes, codes,
}

pub data Status : Type 0 where
  ok_status no_content moved_permanently found_status not_modified bad_request : Status
  unauthorized forbidden not_found method_not_allowed not_acceptable request_timeout : Status
  length_required content_too_large uri_too_long misdirected_request too_many_requests : Status
  request_header_fields_too_large internal_server_error not_implemented : Status
  service_unavailable : Status

abbrev pub all_statuses : List Status
all_statuses =
    ok_status ∷ no_content ∷ moved_permanently ∷ found_status ∷ not_modified ∷ bad_request
    ∷ unauthorized ∷ forbidden ∷ not_found ∷ method_not_allowed ∷ not_acceptable ∷ request_timeout
    ∷ length_required ∷ content_too_large ∷ uri_too_long ∷ misdirected_request ∷ too_many_requests
    ∷ request_header_fields_too_large ∷ internal_server_error ∷ not_implemented
    ∷ service_unavailable ∷ []

unfoldable pub status_code : Status → ℕ
status_code ok_status = 200
status_code no_content = 204
status_code moved_permanently = 301
status_code found_status = 302
status_code not_modified = 304
status_code bad_request = 400
status_code unauthorized = 401
status_code forbidden = 403
status_code not_found = 404
status_code method_not_allowed = 405
status_code not_acceptable = 406
status_code request_timeout = 408
status_code length_required = 411
status_code content_too_large = 413
status_code uri_too_long = 414
status_code misdirected_request = 421
status_code too_many_requests = 429
status_code request_header_fields_too_large = 431
status_code internal_server_error = 500
status_code not_implemented = 501
status_code service_unavailable = 503

unfoldable pub reason_phrase : Status → Bytes
reason_phrase ok_status = codes "OK"
reason_phrase no_content = codes "No Content"
reason_phrase moved_permanently = codes "Moved Permanently"
reason_phrase found_status = codes "Found"
reason_phrase not_modified = codes "Not Modified"
reason_phrase bad_request = codes "Bad Request"
reason_phrase unauthorized = codes "Unauthorized"
reason_phrase forbidden = codes "Forbidden"
reason_phrase not_found = codes "Not Found"
reason_phrase method_not_allowed = codes "Method Not Allowed"
reason_phrase not_acceptable = codes "Not Acceptable"
reason_phrase request_timeout = codes "Request Timeout"
reason_phrase length_required = codes "Length Required"
reason_phrase content_too_large = codes "Content Too Large"
reason_phrase uri_too_long = codes "URI Too Long"
reason_phrase misdirected_request = codes "Misdirected Request"
reason_phrase too_many_requests = codes "Too Many Requests"
reason_phrase request_header_fields_too_large = codes "Request Header Fields Too Large"
reason_phrase internal_server_error = codes "Internal Server Error"
reason_phrase not_implemented = codes "Not Implemented"
reason_phrase service_unavailable = codes "Service Unavailable"

unfoldable pub status_class : Status → Bytes
unfolding status_code
status_class status =
    let code = status_code status in
    if ltb code 200
    then codes "1xx"
    else if ltb code 300
    then codes "2xx"
    else if ltb code 400
    then codes "3xx"
    else if ltb code 500
    then codes "4xx"
    else codes "5xx"

unfoldable pub is_bodiless : Status → Bool
is_bodiless no_content = true
is_bodiless not_modified = true
is_bodiless _ = false
