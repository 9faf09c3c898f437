-- ===== src/Request/Parser/Accepted.antt =====
-- What holds of every request that the parser accepts.
use erikslund_http_embedded.Prelude.{
  ℕ, ◌≤◌, ◌≡◌, Option, Bytes, length, All, ok, inl, inr, arith, Result-cases, ◌+◌, [], ◌∷◌, sym,
  subst, Option-cases, find_string, drop, length-take, length-drop,
}
use erikslund_http_embedded.Request.Types.{RequestLimits, max_parsed_headers}
use erikslund_http_embedded.Request.Fields.RoundTrip.{IsField, parse_header_fields-IsField}
use erikslund_http_embedded.Method.Token.{IsEnumerator}
use erikslund_http_embedded.Request.Parser.{
  RequestParser, parse_query, ParsedRequest, header_terminator, index_or_zero, parse_body,
  parse_head, parse_request, parse_request_bytes, fresh,
}
use erikslund_http_embedded.Request.Path.{IsCanonical, path_is_canonical-IsCanonical}
use erikslund_http_embedded.Request.Length.Agreement.{IsFraming, resolve_content_length_iff}
use erikslund_http_embedded.Request.Fields.{crlf}
use erikslund_http_embedded.Request.Query.{Headers}
use erikslund_http_embedded.Request.State.{Request}
use erikslund_http_embedded.Request.Query.Params.{decode_query_into_lem}
use erikslund_http_embedded.Request.Line.Grammar.{parse_request_line_iff}
use erikslund_http_embedded.Request.Chars.{slice}
use erikslund_http_embedded.Request.Parser.HeadSteps.{Steps, parse_block-Steps}
use erikslund_http_embedded.Request.Parser.FirstLine.{IsReadFrom, parse_head-IsReadFrom}

module _ (inet_pton_v6 : Bytes → Option Bytes) (limits : RequestLimits) where
  -- A parsed request: safe to route, and framed in one way only.
  pub record IsSafeRequest (r : Request) : Type 0 where
    pub known_method : IsEnumerator r.method
    pub canonical : IsCanonical r.path
    pub fields : All IsField r.headers
    pub few_fields : length r.headers ≤ max_parsed_headers
    pub few_parameters : length r.query_parameters ≤ max_parsed_headers
    pub framed : IsFraming r.headers (length r.body)
    pub bounded : length r.body ≤ limits.max_body_bytes
    pub short_target : length r.raw_target ≤ limits.max_target_bytes

  -- The same of a head whose body is yet to come.
  record IsSafeHead (s : RequestParser) : Type 0 where
    known_method : IsEnumerator s.request.method
    canonical : IsCanonical s.request.path
    fields : All IsField s.request.headers
    few_fields : length s.request.headers ≤ max_parsed_headers
    few_parameters : length s.request.query_parameters ≤ max_parsed_headers
    framed : IsFraming s.request.headers s.body_bytes
    bounded : s.body_bytes ≤ limits.max_body_bytes
    short_target : length s.request.raw_target ≤ limits.max_target_bytes

  parse_query_few :
      (query arena : Bytes) (params : Headers)
      → parse_query query ≡ ok (arena, params)
      → length params ≤ max_parsed_headers
  unfolding parse_query
  parse_query_few [] arena params h =
      let same : [] ≡ params = ground arith in rw (← same) (omega arith)
  parse_query_few (c ∷ query) arena params h = (decode_query_into_lem (c ∷ query) arena params h).1

  Steps-IsSafeHead :
      {now prologue line_end terminator : ℕ} {bytes : Bytes} {s : RequestParser}
      → Steps inet_pton_v6 limits now prologue line_end terminator bytes s
      → IsSafeHead s
  Steps-IsSafeHead {bytes = bytes} {s = s} v =
      let lined = (parse_request_line_iff _ v.line).0 v.lined in
      let (fields, _, few) =
        parse_header_fields-IsField _ limits.max_header_count s.request.headers v.fielded in
      let (framed, bounded) = (resolve_content_length_iff _ _ _).0 v.framed in
      record {
        known_method = rw v.same_method lined.known;
        canonical = rw v.same_path ((path_is_canonical-IsCanonical v.target.path).0 v.canonical);
        fields = fields;
        few_fields = few;
        few_parameters =
            parse_query_few v.target.query v.arena s.request.query_parameters v.queried;
        framed = framed;
        bounded = bounded;
        short_target = ground (arith, v.short, v.same_target);
      }

  parse_request_bytes-IsSafeHead :
      (now prologue : ℕ) (bytes : Bytes) {s : RequestParser}
      → parse_request_bytes inet_pton_v6 limits now prologue bytes ≡ ok s
      → IsSafeHead s
  unfolding parse_request_bytes
  parse_request_bytes-IsSafeHead now prologue bytes {s} h =
      elim (Option-cases (find_string header_terminator bytes)) [
        | inl e ↦ absurd (ground arith)
        | inr (terminator, e) ↦ Steps-IsSafeHead (
            parse_block-Steps inet_pton_v6 limits now prologue
              (index_or_zero (find_string crlf bytes)) terminator bytes {s = s} (ground arith))
      ]

  parse_head-IsSafeHead :
      (now : ℕ) (bytes : Bytes) {s : RequestParser}
      → parse_head inet_pton_v6 limits now bytes ≡ ok s
      → IsSafeHead s
  unfolding parse_head
  parse_head-IsSafeHead now bytes h = parse_request_bytes-IsSafeHead now _ _ h

  -- What `parse_body` hands over of a head: its fields, and exactly its body's bytes.
  record Delivers (bytes : Bytes) (s : RequestParser) (p : ParsedRequest) : Type 0 where
    same : p.request ≡ record (s.request) { body = p.request.body }
    offset : p.body_offset ≡ s.body_offset
    body : p.request.body ≡ slice bytes p.body_offset s.body_bytes
    size : length p.request.body ≡ s.body_bytes
    consumed : p.consumed_bytes ≡ p.body_offset + s.body_bytes
    within : p.consumed_bytes ≤ length bytes

  slice_size :
      (bytes : Bytes) (offset count : ℕ)
      → offset + count ≤ length bytes
      → length (slice bytes offset count) ≡ count
  unfolding slice
  slice_size bytes offset count h =
      ground (arith, length-take count (drop offset bytes), length-drop offset bytes)

  parse_body-Delivers :
      (bytes : Bytes) (s : RequestParser) {p : ParsedRequest} {s' : RequestParser}
      → parse_body inet_pton_v6 limits bytes s ≡ (ok p, s')
      → Delivers bytes s p × (s' ≡ fresh)
  unfolding parse_body
  parse_body-Delivers bytes s {p} {s'} h =
      let fits : s.body_offset + s.body_bytes ≤ length bytes = ground arith in
      let size = slice_size bytes s.body_offset s.body_bytes fits in
      (
        record {
          same = ground arith;
          offset = ground arith;
          body = ground arith;
          size = ground (arith, size);
          consumed = ground arith;
          within = ground arith;
        },
        ground arith,
      )

  Delivers-IsSafeRequest :
      {bytes : Bytes} {s : RequestParser} {p : ParsedRequest}
      → Delivers bytes s p
      → IsSafeHead s
      → IsSafeRequest p.request
  Delivers-IsSafeRequest {s = s} d v = rw d.same (record {
    known_method = v.known_method;
    canonical = v.canonical;
    fields = v.fields;
    few_fields = v.few_fields;
    few_parameters = v.few_parameters;
    framed = subst (IsFraming s.request.headers) (sym d.size) v.framed;
    bounded = rw d.size v.bounded;
    short_target = v.short_target;
  })

  Delivers-IsReadFrom :
      {bytes : Bytes} {s : RequestParser} {p : ParsedRequest}
      → Delivers bytes s p
      → IsReadFrom inet_pton_v6 bytes s.request
      → IsReadFrom inet_pton_v6 bytes p.request
  Delivers-IsReadFrom d v = rw d.same (record {
    prologue = v.prologue;
    text = v.text;
    more = v.more;
    is_version_11 = v.is_version_11;
    target_authority = v.target_authority;
    whole = v.whole;
    optional = v.optional;
    is_line = v.is_line;
    splits = v.splits;
    named = v.named;
  })

  -- What a parsed request takes from the bytes: its body is the last part of what it consumes.
  pub record IsTakenFrom (bytes : Bytes) (p : ParsedRequest) : Type 0 where
    pub body : p.request.body ≡ slice bytes p.body_offset (length p.request.body)
    pub consumed : p.consumed_bytes ≡ p.body_offset + length p.request.body
    pub within : p.consumed_bytes ≤ length bytes

  -- Of every request that `parse_request` accepts, the method is one of the seven, the path is
  -- canonical, each of its at most 64 header fields is well formed, it has at most 64 query
  -- parameters, the body's length is the one that its fields frame and is within the limit, and the
  -- target is within its limit. The bytes begin, behind at most one empty line, with a request line of
  -- its method, target and version; the target, in origin or absolute form, has its path and query, and
  -- its authority is the one that the Host fields and that target name in that version. It consumes
  -- only bytes that are there, and the last of them are its body.
  pub parse_request-IsSafeRequest :
      (now : ℕ) (bytes : Bytes) (p : ParsedRequest)
      → parse_request inet_pton_v6 limits now bytes ≡ ok p
      → IsSafeRequest p.request × IsReadFrom inet_pton_v6 bytes p.request × IsTakenFrom bytes p
  unfolding parse_request
  parse_request-IsSafeRequest now bytes p h =
      elim (Result-cases (parse_head inet_pton_v6 limits now bytes)) [
        | inr (e, f) ↦ absurd (ground arith)
        | inl (s, f) ↦
            let (d, _) =
              parse_body-Delivers bytes s {p = p} {s' = (parse_body inet_pton_v6 limits bytes s).1}
                (ground arith) in
            (
              Delivers-IsSafeRequest d (parse_head-IsSafeHead now bytes f),
              Delivers-IsReadFrom d (parse_head-IsReadFrom inet_pton_v6 limits now bytes f),
              record {
                body = rw d.size d.body;
                consumed = rw d.size d.consumed;
                within = d.within;
              },
            )
      ]
