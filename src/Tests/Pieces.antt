-- ===== src/Tests/Pieces.antt =====
-- Runs of the parts of the parser: src/request.cpp, src/text.cpp and include/erikslund/http/method.hpp.
use erikslund_http_embedded.Prelude.{
  Bytes, codes, ◌≡◌, refl, List, [], ◌∷◌, ok, some, none, true, false, ◌↔◌, split, ◌≤◌, Option,
  ◌++◌, arith, if◌then◌else◌, bytes_eq, length, replicate, All, err,
}
use erikslund_http_embedded.Tests.{program}
use erikslund_http_embedded.Text.Ascii.{equals_ignore_case, equals_ignore_case_iff, lower}
use erikslund_http_embedded.Method.{get, method_name, method_from_token}
use erikslund_http_embedded.Method.Token.{IsEnumerator, method_from_token_iff}
use erikslund_http_embedded.Request.Types.{
  HeaderView, body_too_large, malformed_header, malformed_host, malformed_request_line,
  max_parsed_headers, missing_host, unknown_method, unsupported_transfer_encoding,
  unsupported_version,
}
use erikslund_http_embedded.Request.Path.{
  path_is_canonical, IsCanonical, path_is_canonical-IsCanonical,
}
use erikslund_http_embedded.Request.Query.{Headers}
use erikslund_http_embedded.Request.Query.Component.{decode_query_component_into-Appends, Appends}
use erikslund_http_embedded.Request.Query.Params.{decode_query_into_lem, parameters_of}
use erikslund_http_embedded.Request.Members.{
  for_each_list_member, visit_all, members, for_each_list_member_lem,
}
use erikslund_http_embedded.Request.Length.{resolve_content_length}
use erikslund_http_embedded.Request.Authority.{resolve_authority}
use erikslund_http_embedded.Request.Authority.Agreement.{resolve_authority_iff, Names, host_values}
use erikslund_http_embedded.Request.Line.{RequestLine, parse_request_line}
use erikslund_http_embedded.Request.Line.Grammar.{parse_request_line_iff, IsLineOf}
use erikslund_http_embedded.Request.Fields.{parse_header_fields}
use erikslund_http_embedded.Request.Fields.RoundTrip.{
  IsField, print_fields, parse_header_fields-IsField, parse_header_fields-print_fields,
}

equals_ignore_case_iff_example :
    (equals_ignore_case (codes "Host") (codes "hOST") ≡ true)
    ↔ (lower (codes "Host") ≡ lower (codes "hOST"))
equals_ignore_case_iff_example = equals_ignore_case_iff (codes "Host") (codes "hOST")

method_from_token_iff_example :
    (method_from_token (codes "GET") ≡ some get)
    ↔ (IsEnumerator get × (method_name get ≡ codes "GET"))
method_from_token_iff_example = method_from_token_iff (codes "GET") get

path_is_canonical_example :
    (path_is_canonical (codes "/a/../b") ≡ true) ↔ IsCanonical (codes "/a/../b")
path_is_canonical_example = path_is_canonical-IsCanonical (codes "/a/../b")

path_tests :
    (path_is_canonical (codes "/") ≡ true)
    × (path_is_canonical (codes "/a/b/") ≡ true)
    × (path_is_canonical (codes "/a//b") ≡ false)
    × (path_is_canonical (codes "/a/./b") ≡ false)
    × (path_is_canonical (codes "/a/%2e%2e") ≡ false)
    × (path_is_canonical (codes "a") ≡ false)
unfolding program
path_tests = (refl, refl, refl, refl, refl, refl)

decode_query_component_into_example : Appends (codes "x") (codes "a+b%21") (codes "xa b!")
unfolding program
decode_query_component_into_example =
    decode_query_component_into-Appends (codes "x") (codes "a+b%21") {out = codes "xa b!"} refl

abbrev field : Bytes → Bytes → HeaderView
field name value = record { name = name; value = value }

abbrev two_parameters : Headers
two_parameters = field (codes "a") (codes "1 2") ∷ field (codes "b") [] ∷ []

decode_query_into_example :
    (length (codes "a1 2b") ≤ length (codes "a=1+2&&b"))
    × (length two_parameters ≤ max_parsed_headers)
    × (parameters_of (split b'&' (codes "a=1+2&&b")) ≡ some two_parameters)
unfolding program
decode_query_into_example =
    decode_query_into_lem (codes "a=1+2&&b") (codes "a1 2b") two_parameters refl

abbrev listed : Bytes → List Bytes → List Bytes
listed m ms = m ∷ ms

for_each_list_member_example :
    for_each_list_member (codes " a ,, b") b',' listed []
    ≡ visit_all listed (members (split b',' (codes " a ,, b"))) []
for_each_list_member_example = for_each_list_member_lem listed (codes " a ,, b") b',' []

member_tests : for_each_list_member (codes " a ,, b") b',' listed [] ≡ codes "b" ∷ codes "a" ∷ []
unfolding program
member_tests = refl

abbrev length_field : Bytes → HeaderView
length_field value = field (codes "content-length") value

length_tests :
    (resolve_content_length (length_field (codes "12") ∷ length_field (codes "12") ∷ []) 20 ≡ ok 12)
    × (resolve_content_length (length_field (codes "12") ∷ length_field (codes "13") ∷ []) 20
        ≡ err malformed_header)
    × (resolve_content_length (length_field (codes "012") ∷ []) 20 ≡ err malformed_header)
    × (resolve_content_length (length_field (codes "21") ∷ []) 20 ≡ err body_too_large)
    × (resolve_content_length (field (codes "Transfer-Encoding") (codes "chunked") ∷ []) 20
        ≡ err unsupported_transfer_encoding)
unfolding program
length_tests = (refl, refl, refl, refl, refl)

-- A stand-in for `inet_pton` that knows only "::1".
abbrev pub only_loopback : Bytes → Option Bytes
only_loopback s = if bytes_eq s (codes "::1") then some (replicate 15 0 ++ (1 ∷ [])) else none

abbrev host_field : Bytes → List HeaderView
host_field value = field (codes "host") value ∷ []

resolve_authority_example :
    (resolve_authority only_loopback (host_field (codes "A.se:80")) (codes "a.se:80") true
      ≡ ok (codes "a.se:80"))
    ↔ Names only_loopback
        (host_values (host_field (codes "A.se:80")))
        (codes "a.se:80")
        true
        (codes "a.se:80")
resolve_authority_example =
    resolve_authority_iff only_loopback (host_field (codes "A.se:80")) (codes "a.se:80") true
      (codes "a.se:80")

authority_tests :
    (resolve_authority only_loopback (host_field (codes "A.se:80")) (codes "a.se:80") true
      ≡ ok (codes "a.se:80"))
    × (resolve_authority only_loopback (host_field (codes "[::1]:8080")) [] true
        ≡ ok (codes "[::1]:8080"))
    × (resolve_authority only_loopback (host_field (codes "[::2]")) [] true ≡ err malformed_host)
    × (resolve_authority only_loopback (host_field (codes "a..b")) [] true ≡ err malformed_host)
    × (resolve_authority only_loopback [] [] true ≡ err missing_host)
    × (resolve_authority only_loopback [] [] false ≡ ok [])
unfolding program
authority_tests = (refl, refl, refl, refl, refl, refl)

abbrev get_line : RequestLine
get_line = record { method = get; target = codes "/a"; is_version_11 = true }

parse_request_line_example :
    (parse_request_line (codes "GET /a HTTP/1.1") ≡ ok get_line)
    ↔ IsLineOf get_line (codes "GET /a HTTP/1.1")
parse_request_line_example = parse_request_line_iff (codes "GET /a HTTP/1.1") get_line

line_tests :
    (parse_request_line (codes "GET /a HTTP/1.1") ≡ ok get_line)
    × (parse_request_line (codes "GET /a HTTP/2.0") ≡ err unsupported_version)
    × (parse_request_line (codes "GET  /a HTTP/1.1") ≡ err malformed_request_line)
    × (parse_request_line (codes "get /a HTTP/1.1") ≡ err unknown_method)
unfolding program
line_tests = (refl, refl, refl, refl)

abbrev plain_fields : List HeaderView
plain_fields = field (codes "Host") (codes "a") ∷ field (codes "X") [] ∷ []

parse_header_fields_example :
    All IsField plain_fields
    × (length plain_fields ≤ 5)
    × (length plain_fields ≤ max_parsed_headers)
unfolding program print_fields
parse_header_fields_example =
    parse_header_fields-IsField (print_fields plain_fields) 5 plain_fields refl

parse_header_fields_round_trip_example :
    parse_header_fields (print_fields plain_fields) 5 [] ≡ ok plain_fields
unfolding program print_fields
parse_header_fields_round_trip_example =
    parse_header_fields-print_fields 5 plain_fields plain_fields-IsField (omega arith) (omega arith)
  where
    plain_fields-IsField : All IsField plain_fields
    plain_fields-IsField =
        (parse_header_fields-IsField (print_fields plain_fields) 5 plain_fields refl).0
