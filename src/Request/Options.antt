-- ===== src/Request/Options.antt =====
-- Connection and coding preferences: `resolve_keep_alive`, `weight_is_zero`, `quality_is_zero` and
-- `resolve_wants_gzip` of src/request.cpp.
use erikslund_http_embedded.Prelude.{
  Bool, true, false, not, ◌||◌, Option, none, some, List, [], ◌∷◌, ltb, ◌==◌, if◌then◌else◌, Bytes,
  codes, bytes_eq, cut,
}
use erikslund_http_embedded.Request.Types.{HeaderView}
use erikslund_http_embedded.Request.Chars.{trim_optional_whitespace}
use erikslund_http_embedded.Request.Members.{for_each_list_member}
use erikslund_http_embedded.Text.Ascii.{equals_ignore_case}

pub record Persistence : Type 0 where
  pub close_requested : Bool
  pub keep_alive_requested : Bool

unfoldable pub connection_option : Bytes → Persistence → Persistence
connection_option option s =
    if equals_ignore_case option (codes "close")
    then record s { close_requested = true }
    else if equals_ignore_case option (codes "keep-alive")
    then record s { keep_alive_requested = true }
    else s

unfoldable pub connection_fields : List HeaderView → Persistence → Persistence
unfolding connection_option
connection_fields [] s = s
connection_fields (field ∷ fields) s = connection_fields fields (
    if not (equals_ignore_case field.name (codes "Connection"))
    then s
    else for_each_list_member field.value b',' connection_option s)

-- On contradiction, close wins.
unfoldable pub resolve_keep_alive : List HeaderView → Bool → Bool
unfolding connection_fields
resolve_keep_alive headers is_version_11 =
    let s =
      connection_fields headers
        (record { close_requested = false; keep_alive_requested = false }) in
    if s.close_requested then false else if is_version_11 then true else s.keep_alive_requested

unfoldable pub weight_from : Bool → Bytes → Bool
weight_from saw_digit [] = saw_digit
weight_from saw_digit (character ∷ more) =
    let point = weight_from saw_digit more in
    let zero_digit = weight_from true more in
    if character == b'.'
    then point
    else if ltb character b'0' || ltb b'9' character
    then false
    else if not (character == b'0')
    then false
    else zero_digit

unfoldable pub weight_is_zero : Bytes → Bool
unfolding weight_from
weight_is_zero weight = weight_from false weight

unfoldable pub quality_parameter : Bytes → Bool → Bool
unfolding weight_is_zero
quality_parameter parameter is_zero =
    let (before, after) = cut b'=' parameter in
    elim after [
      | none ↦ is_zero
      | some weight ↦
          if not (equals_ignore_case (trim_optional_whitespace before) (codes "q"))
          then is_zero
          else weight_is_zero (trim_optional_whitespace weight)
    ]

unfoldable pub quality_is_zero : Bytes → Bool
unfolding quality_parameter
quality_is_zero parameters = for_each_list_member parameters b';' quality_parameter false

pub record Codings : Type 0 where
  pub gzip_acceptable : Option Bool
  pub wildcard_acceptable : Option Bool

unfoldable pub coding_member : Bytes → Codings → Codings
unfolding quality_is_zero
coding_member member s =
    let (before, parameters) = cut b';' member in
    let coding = trim_optional_whitespace before in
    let acceptable : Bool = elim parameters [ none ↦ true | some p ↦ not (quality_is_zero p) ] in
    if equals_ignore_case coding (codes "gzip") || equals_ignore_case coding (codes "x-gzip")
    then record s { gzip_acceptable = some acceptable }
    else if bytes_eq coding (codes "*")
    then record s { wildcard_acceptable = some acceptable }
    else s

unfoldable pub coding_fields : List HeaderView → Codings → Codings
unfolding coding_member
coding_fields [] s = s
coding_fields (field ∷ fields) s = coding_fields fields (
    if not (equals_ignore_case field.name (codes "Accept-Encoding"))
    then s
    else for_each_list_member field.value b',' coding_member s)

abbrev pub flag_or : Option Bool → Bool → Bool
flag_or none d = d
flag_or (some b) d = b

unfoldable pub resolve_wants_gzip : List HeaderView → Bool
unfolding coding_fields
resolve_wants_gzip headers =
    let s = coding_fields headers (record { gzip_acceptable = none; wildcard_acceptable = none }) in
    flag_or s.gzip_acceptable (flag_or s.wildcard_acceptable false)
