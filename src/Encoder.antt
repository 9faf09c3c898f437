-- ===== src/Encoder.antt =====
-- src/response_encoder.cpp: the head of a response, and the body that goes with it. The buffer `head`
-- is what is written to it. The date, and what deflate makes of a body, are parameters.
pub mod Blocks
pub mod Values
pub mod Head
pub mod Answer
use erikslund_http_embedded.Prelude.{
  ℕ, zero, suc, ◌+◌, Bool, true, false, not, ◌&&◌, ◌||◌, Option, none, some, List, [], ◌∷◌, ◌++◌,
  ltb, ◌==◌, if◌then◌else◌, Bytes, codes, is_empty, cut, length, starts_with,
}
use erikslund_http_embedded.Response.{
  Response, empty_response, find_header, is_stream, set_header, response_body,
}
use erikslund_http_embedded.Text.Decimal.{decimal}
use erikslund_http_embedded.Method.{head, get, options}
use erikslund_http_embedded.Request.Types.{HeaderView}
use erikslund_http_embedded.Request.State.{Request, header}
use erikslund_http_embedded.Request.Fields.{crlf}
use erikslund_http_embedded.Text.Ascii.{equals_ignore_case}
use erikslund_http_embedded.Conditional.{if_none_match_matches}
use erikslund_http_embedded.Status.{not_modified, status_code, Status, is_bodiless, reason_phrase}
use erikslund_http_embedded.Compress.{response_varies_on_accept_encoding, gzip_compress}
use erikslund_http_embedded.Request.Chars.{trim_optional_whitespace}

pub record ResponseEncodingOptions : Type 0 where
  pub server_header : Bytes
  pub keep_alive : Bool
  pub secure : Bool
  pub strict_transport_security : Bool
  pub hsts_max_age_seconds : ℕ

pub record EncodedResponse : Type 0 where
  pub written : Bytes
  pub body : Bytes
  pub suppress_body : Bool

unfoldable pub has_control_character : Bytes → Bool
has_control_character [] = false
has_control_character (byte ∷ value) =
    (ltb byte 0x20 || byte == 0x7F) || has_control_character value

unfoldable pub append_number : Bytes → ℕ → Bytes
append_number out value = out ++ decimal value

unfoldable pub append_field : Bytes → Bytes → Bytes → Bytes
append_field out name value = out ++ (name ++ (codes ": " ++ (value ++ crlf)))

unfoldable pub is_framing_field : Bytes → Bool
unfolding equals_ignore_case
is_framing_field name =
    equals_ignore_case name (codes "Content-Length")
    || equals_ignore_case name (codes "Connection")
    || equals_ignore_case name (codes "Transfer-Encoding")

-- The loop of `list_names`.
unfoldable pub list_names_from : ℕ → Bytes → Bytes → Bool
unfolding cut trim_optional_whitespace equals_ignore_case
list_names_from zero value member = false
list_names_from (suc fuel) value member =
    let (piece, after) = cut b',' value in
    let later : Bool = elim after [ none ↦ false | some rest ↦ list_names_from fuel rest member ] in
    if is_empty value
    then false
    else if equals_ignore_case (trim_optional_whitespace piece) member
    then true
    else later

unfoldable pub list_names : Bytes → Bytes → Bool
unfolding list_names_from
list_names value member = list_names_from (length value + 1) value member

abbrev pub accept_encoding_field : Bytes
accept_encoding_field = codes "Accept-Encoding"

-- What `append_accept_encoding_vary` hands to its callback, part after part.
unfoldable pub accept_encoding_vary : Bytes → Bytes
unfolding list_names
accept_encoding_vary declared =
    if is_empty declared
    then accept_encoding_field
    else if list_names declared accept_encoding_field
    then declared
    else declared ++ (codes ", " ++ accept_encoding_field)

-- `find_header(name).value_or({})`
abbrev pub value_or_empty : Option Bytes → Bytes
value_or_empty none = []
value_or_empty (some value) = value

-- The loop over the fields that a 304 keeps, and its body.
unfoldable pub preserve_field : Bytes → Option Bytes → Response → Response
unfolding set_header
preserve_field field none kept = kept
preserve_field field (some value) kept = set_header field value kept

unfoldable pub preserve : List Bytes → Response → Response → Response
unfolding find_header preserve_field
preserve [] source kept = kept
preserve (field ∷ fields) source kept =
    preserve fields source (preserve_field field (find_header source field) kept)

abbrev pub preserved_fields : List Bytes
preserved_fields =
    codes "Cache-Control"
    ∷ codes "Content-Location"
    ∷ codes "Date"
    ∷ codes "ETag"
    ∷ codes "Expires"
    ∷ []

unfoldable pub not_modified_from : Response → Response
unfolding empty_response preserve find_header set_header response_varies_on_accept_encoding
    response_body accept_encoding_vary
not_modified_from source =
    let kept = preserve preserved_fields source (empty_response not_modified) in
    let declared_vary = find_header source (codes "Vary") in
    let varies =
      response_varies_on_accept_encoding
        (value_or_empty (find_header source (codes "Content-Type")))
        (value_or_empty (find_header source (codes "Content-Encoding")))
        (length (response_body source)) in
    if varies
    then set_header (codes "Vary") (accept_encoding_vary (value_or_empty declared_vary)) kept
    else elim declared_vary [ none ↦ kept | some value ↦ set_header (codes "Vary") value kept ]

-- `etag && !etag->empty() && condition && if_none_match_matches(*condition, *etag)`
abbrev pub condition_holds : Option Bytes → Option Bytes → Bool
condition_holds (some tag) (some condition) =
    not (is_empty tag) && if_none_match_matches condition tag
condition_holds _ _ = false

unfoldable pub apply_conditional_request : Request → Response → Response
unfolding is_stream find_header not_modified_from status_code header if_none_match_matches
apply_conditional_request request response =
    let is_retrieval = request.method == get || request.method == head in
    if not is_retrieval || not (status_code response.status == 200) || is_stream response
    then response
    else if condition_holds (find_header response (codes "ETag"))
        (header request (codes "If-None-Match"))
    then not_modified_from response
    else response

-- The loop over the fields of the response, and its body.
unfoldable pub append_handler_field : Bool → HeaderView → Bytes → Bytes
unfolding is_framing_field append_field equals_ignore_case
append_handler_field varies field out =
    if is_framing_field field.name
    then out
    else if varies && equals_ignore_case field.name (codes "Vary")
    then out
    else append_field out field.name field.value

unfoldable pub append_handler_fields : Bool → List HeaderView → Bytes → Bytes
unfolding append_handler_field
append_handler_fields varies [] out = out
append_handler_fields varies (field ∷ fields) out =
    append_handler_fields varies fields (append_handler_field varies field out)

-- `if (!response.find_header(name).has_value()) append_field(head, name, value);` with a guard.
unfoldable pub append_default : Response → Bool → Bytes → Bytes → Bytes → Bytes
unfolding find_header append_field
append_default response wanted name value out = elim (find_header response name) [
  | some present ↦ out
  | none ↦ if wanted then append_field out name value else out
]

abbrev pub html_content_security_policy : Bytes
html_content_security_policy =
    codes "default-src 'self'; style-src 'unsafe-inline'; base-uri 'none'; frame-ancestors 'none'; "
    ++ codes "form-action 'none'; object-src 'none'"

unfoldable pub append_status_line : Status → Bytes → Bytes
unfolding append_number status_code reason_phrase
append_status_line status out =
    append_number (out ++ codes "HTTP/1.1 ") (status_code status)
    ++ (codes " " ++ (reason_phrase status ++ crlf))

unfoldable pub append_coding_fields : Bool → Bool → Response → Bytes → Bytes
unfolding append_field accept_encoding_vary find_header
append_coding_fields compressed varies response out =
    let coded =
      if compressed then append_field out (codes "Content-Encoding") (codes "gzip") else out in
    if varies
    then append_field coded (codes "Vary")
        (accept_encoding_vary (value_or_empty (find_header response (codes "Vary"))))
    else coded

-- The fields that are added where the handler did not set them.
unfoldable pub append_defaults : Bytes → ResponseEncodingOptions → Response → Bytes → Bytes
unfolding append_default has_control_character find_header
append_defaults date options response out =
    let content_type = value_or_empty (find_header response (codes "Content-Type")) in
    let dated = append_default response true (codes "Date") date out in
    let named =
      append_default response
        (not (is_empty options.server_header) && not (has_control_character options.server_header))
        (codes "Server") options.server_header dated in
    let cached = append_default response true (codes "Cache-Control") (codes "no-store") named in
    let sniffed =
      append_default response true (codes "X-Content-Type-Options") (codes "nosniff") cached in
    let referred =
      append_default response true (codes "Referrer-Policy") (codes "no-referrer") sniffed in
    let policed =
      append_default response (starts_with content_type (codes "text/html"))
        (codes "Content-Security-Policy") html_content_security_policy referred in
    append_default response (options.secure && options.strict_transport_security)
      (codes "Strict-Transport-Security") (codes "max-age=" ++ decimal options.hsts_max_age_seconds)
      policed

-- The fields that delimit the message.
unfoldable pub append_framing : Bool → Status → Bool → ℕ → Bytes → Bytes
unfolding append_field append_number is_bodiless
append_framing streaming status keep_alive body_size out =
    let token = if keep_alive then codes "keep-alive" else codes "close" in
    if streaming
    then append_field out (codes "Connection") (codes "close")
    else if is_bodiless status
    then append_field out (codes "Connection") token
    else append_field
        (append_number (out ++ (codes "Content-Length" ++ codes ": ")) body_size ++ crlf)
        (codes "Connection") token

-- The compressed body, where there is one.
abbrev pub body_or : Option Bytes → Bytes → Bytes
body_or none plain = plain
body_or (some packed) plain = packed

abbrev pub is_some : Option Bytes → Bool
is_some none = false
is_some (some value) = true

module _ (deflate : Bytes → Option Bytes) (date : Bytes) where
  -- The body that is announced, and whether it is compressed.
  unfoldable pub negotiate : Request → Response → Bool × Option Bytes × Bytes
  unfolding response_varies_on_accept_encoding find_header is_bodiless gzip_compress is_stream
      response_body
  negotiate request response =
      let handler_body = if is_stream response then [] else response_body response in
      let varies =
        not (is_bodiless response.status)
        && response_varies_on_accept_encoding
            (value_or_empty (find_header response (codes "Content-Type")))
            (value_or_empty (find_header response (codes "Content-Encoding")))
            (length handler_body) in
      (
        varies,
        if varies && request.wants_gzip then gzip_compress deflate handler_body else none,
        handler_body,
      )

  unfoldable pub encode_response : Request → Response → ResponseEncodingOptions → EncodedResponse
  unfolding negotiate append_status_line append_handler_fields append_coding_fields append_defaults
      append_framing is_stream is_bodiless
  encode_response request response options =
      let (varies, compressed, handler_body) = negotiate request response in
      let sent = body_or compressed handler_body in
      record {
        written =
            append_framing (is_stream response) response.status options.keep_alive (length sent) (
              append_defaults date options response (
                append_coding_fields (is_some compressed) varies response (
                  append_handler_fields varies response.headers
                    (append_status_line response.status []))))
            ++ crlf;
        body = sent;
        suppress_body = is_stream response || request.method == head || is_bodiless response.status;
      }
