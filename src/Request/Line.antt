-- ===== src/Request/Line.antt =====
-- `version_is_well_formed` and `parse_request_line` of src/request.cpp.
pub mod Grammar
use erikslund_http_embedded.Prelude.{
  Bool, false, not, ◌&&◌, none, some, [], ◌∷◌, ◌==◌, if◌then◌else◌, Bytes, codes, is_empty,
  bytes_eq, starts_with, contains_byte, cut, drop, Result, ok, err,
}
use erikslund_http_embedded.Method.{Method, method_from_token}
use erikslund_http_embedded.Request.Chars.{is_decimal_digit}
use erikslund_http_embedded.Request.Types.{
  ParseError, malformed_request_line, unsupported_version, unknown_method,
}

pub record RequestLine : Type 0 where
  pub method : Method
  pub target : Bytes
  pub is_version_11 : Bool

unfoldable pub version_number_is_well_formed : Bytes → Bool
version_number_is_well_formed (major ∷ separator ∷ minor ∷ []) =
    is_decimal_digit major && (separator == b'.' && is_decimal_digit minor)
version_number_is_well_formed _ = false

unfoldable pub version_is_well_formed : Bytes → Bool
unfolding version_number_is_well_formed
version_is_well_formed version =
    if not (starts_with version (codes "HTTP/"))
    then false
    else version_number_is_well_formed (drop 5 version)

-- The checks on the three parts of a line.
unfoldable pub check_parts : Bytes → Bytes → Bytes → Result ParseError RequestLine
check_parts token target version =
    if is_empty target then err malformed_request_line else elim (method_from_token token) [
      | none ↦ err unknown_method
      | some method ↦
          if not (version_is_well_formed version)
          then err malformed_request_line
          else if not (bytes_eq version (codes "HTTP/1.1"))
              && not (bytes_eq version (codes "HTTP/1.0"))
          then err unsupported_version
          else ok (record {
            method = method;
            target = target;
            is_version_11 = bytes_eq version (codes "HTTP/1.1");
          })
    ]

unfoldable pub parse_request_line : Bytes → Result ParseError RequestLine
unfolding check_parts
parse_request_line line =
    let (token, after_token) = cut b' ' line in
    if is_empty token then err malformed_request_line else elim after_token [
      | none ↦ err malformed_request_line
      | some rest ↦
          let (target, after_target) = cut b' ' rest in
          elim after_target [
            | none ↦ err malformed_request_line
            | some version ↦
                if contains_byte version b' '
                then err malformed_request_line
                else check_parts token target version
          ]
    ]
