-- ===== src/Request/Parser.antt =====
-- The class `RequestParser`: src/internal/request_parser.hpp and the end of src/request.cpp. Views
-- are bytes, so the buffer's base and the offsets by which views are moved have no place here. The
-- clock's reading is an argument, and so is `inet_pton`.
pub mod Incremental
pub mod HeadSteps
pub mod FirstLine
pub mod Accepted
use erikslund_http_embedded.Prelude.{
  ℕ, ◌+◌, ◌-◌, Bool, true, false, not, Option, none, some, [], ◌∷◌, ltb, if◌then◌else◌, Bytes,
  is_empty, starts_with, find_string, length, drop, Result, ok, err, ◌>>=◌, ◌>>◌, fail_if,
}
use erikslund_http_embedded.Request.Types.{
  RequestLimits, ParseError, needs_more_data, malformed_request_line, too_many_headers,
  target_too_long,
}
use erikslund_http_embedded.Request.State.{Request, empty_request}
use erikslund_http_embedded.Request.Line.{parse_request_line}
use erikslund_http_embedded.Request.Fields.{parse_header_fields, crlf}
use erikslund_http_embedded.Request.Length.{resolve_content_length}
use erikslund_http_embedded.Request.Target.{split_target}
use erikslund_http_embedded.Request.Authority.{resolve_authority}
use erikslund_http_embedded.Request.Path.{path_is_canonical}
use erikslund_http_embedded.Request.Query.{decode_query_into, Headers}
use erikslund_http_embedded.Request.Options.{resolve_keep_alive, resolve_wants_gzip}
use erikslund_http_embedded.Request.Chars.{slice}

abbrev pub header_terminator : Bytes
header_terminator = 13 ∷ 10 ∷ 13 ∷ 10 ∷ []

pub record ParsedRequest : Type 0 where
  pub request : Request
  pub consumed_bytes : ℕ
  pub body_offset : ℕ

pub record RequestParser : Type 0 where
  pub request : Request
  pub body_offset : ℕ
  pub body_bytes : ℕ
  pub head_complete : Bool

-- `RequestParser::reset`, and the state that a parser is constructed in.
abbrev pub fresh : RequestParser
fresh = record { request = empty_request; body_offset = 0; body_bytes = 0; head_complete = false }

-- `request_line_end`, which is not npos where it is used.
abbrev pub index_or_zero : Option ℕ → ℕ
index_or_zero none = 0
index_or_zero (some i) = i

-- The query's parameters, with an arena reserved only where there is a query.
unfoldable pub parse_query : Bytes → Result ParseError (Bytes × Headers)
parse_query query = if is_empty query then ok ([], []) else decode_query_into [] query []

module _ (inet_pton_v6 : Bytes → Option Bytes) (limits : RequestLimits) where
  -- The part of `parse_head` behind the checks on sizes.
  unfoldable pub parse_block : ℕ → ℕ → Bytes → ℕ → ℕ → Result ParseError RequestParser
  unfolding parse_query
  parse_block now prologue_bytes request_bytes request_line_end terminator = do
    line ← parse_request_line (slice request_bytes 0 request_line_end)
    fail_if (ltb limits.max_target_bytes (length line.target)) target_too_long
    let fields_begin = request_line_end + 2
    let fields_end = terminator + 2
    fields ←
        parse_header_fields (slice request_bytes fields_begin (fields_end - fields_begin))
          limits.max_header_count []
    content_length ← resolve_content_length fields limits.max_body_bytes
    target ← split_target line.target
    authority ← resolve_authority inet_pton_v6 fields target.authority line.is_version_11
    fail_if (not (path_is_canonical target.path)) malformed_request_line
    decoded ← parse_query target.query
    ok (record {
      request = record empty_request {
        path = target.path;
        query_parameters = decoded.1;
        method = line.method;
        raw_target = line.target;
        query = target.query;
        authority = authority;
        headers = fields;
        keep_alive = resolve_keep_alive fields line.is_version_11;
        wants_gzip = resolve_wants_gzip fields;
        received_at = now;
      };
      body_offset = prologue_bytes + (terminator + 4);
      body_bytes = content_length;
      head_complete = true;
    })

  -- Behind the optional empty line.
  unfoldable pub parse_request_bytes : ℕ → ℕ → Bytes → Result ParseError RequestParser
  unfolding parse_block
  parse_request_bytes now prologue_bytes request_bytes =
      let request_line_end = find_string crlf request_bytes in
      let request_line_bytes : ℕ = elim request_line_end [
        | none ↦ length request_bytes
        | some i ↦ i
      ] in
      if ltb limits.max_request_line_bytes request_line_bytes
      then err target_too_long
      else elim (find_string header_terminator request_bytes) [
        | none ↦
            if ltb limits.max_header_block_bytes (length request_bytes)
            then err too_many_headers
            else err needs_more_data
        | some terminator ↦
            if ltb limits.max_header_block_bytes (terminator + 4)
            then err too_many_headers
            else parse_block now prologue_bytes request_bytes (index_or_zero request_line_end)
                terminator
      ]

  unfoldable pub parse_head : ℕ → Bytes → Result ParseError RequestParser
  unfolding parse_request_bytes
  parse_head now bytes =
      let prologue_bytes : ℕ = if starts_with bytes crlf then 2 else 0 in
      parse_request_bytes now prologue_bytes (drop prologue_bytes bytes)

  -- `parse` with a complete head.
  unfoldable pub parse_body :
      Bytes → RequestParser → Result ParseError ParsedRequest × RequestParser
  parse_body bytes s =
      if ltb (length bytes) s.body_offset
      then (err needs_more_data, s)
      else if ltb (length bytes - s.body_offset) s.body_bytes
      then (err needs_more_data, s)
      else (
        ok (record {
          request = record (s.request) { body = slice bytes s.body_offset s.body_bytes };
          consumed_bytes = s.body_offset + s.body_bytes;
          body_offset = s.body_offset;
        }),
        fresh,
      )

  unfoldable pub parse : ℕ → Bytes → RequestParser → Result ParseError ParsedRequest × RequestParser
  unfolding parse_head parse_body
  parse now bytes s =
      if s.head_complete
      then parse_body bytes s
      else elim (parse_head now bytes) [ err e ↦ (err e, s) | ok s' ↦ parse_body bytes s' ]

  unfoldable pub parse_request : ℕ → Bytes → Result ParseError ParsedRequest
  unfolding parse
  parse_request now bytes = (parse now bytes fresh).0
