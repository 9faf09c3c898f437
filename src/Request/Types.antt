-- ===== src/Request/Types.antt =====
-- The data of include/erikslund/http/request.hpp: errors, limits and header fields. A borrowed
-- view is the bytes that it shows.
use erikslund_http_embedded.Prelude.{ℕ, Bytes}
use erikslund_http_embedded.Status.{
  Status, request_header_fields_too_large, uri_too_long, content_too_large, not_implemented,
  misdirected_request, bad_request,
}

pub data ParseError : Type 0 where
  needs_more_data malformed_request_line unsupported_version unknown_method : ParseError
  too_many_headers malformed_header missing_host malformed_host target_too_long : ParseError
  bad_percent_encoding unsupported_transfer_encoding body_too_large : ParseError

pub record HeaderView : Type 0 where
  pub name : Bytes
  pub value : Bytes

pub record RequestLimits : Type 0 where
  pub max_request_line_bytes : ℕ
  pub max_header_block_bytes : ℕ
  pub max_header_count : ℕ
  pub max_target_bytes : ℕ
  pub max_body_bytes : ℕ

abbrev pub max_parsed_headers : ℕ
max_parsed_headers = 64

abbrev pub max_path_parameters : ℕ
max_path_parameters = 8

-- The statuses that a parse error is answered with.
unfoldable pub status_for : ParseError → Status
status_for too_many_headers = request_header_fields_too_large
status_for target_too_long = uri_too_long
status_for body_too_large = content_too_large
status_for unsupported_transfer_encoding = not_implemented
status_for unsupported_version = misdirected_request
status_for needs_more_data = bad_request
status_for malformed_request_line = bad_request
status_for unknown_method = bad_request
status_for malformed_header = bad_request
status_for missing_host = bad_request
status_for malformed_host = bad_request
status_for bad_percent_encoding = bad_request
