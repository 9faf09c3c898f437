-- ===== src/Request/Parser/HeadSteps.antt =====
-- The results that `parse_head` joins, step by step, when it accepts a head.
use erikslund_http_embedded.Prelude.{
  ℕ, ◌+◌, ◌-◌, ◌≡◌, inl, inr, true, false, Option, [], arith, ltb, Bytes, length, ok, Result-cases,
}
use erikslund_http_embedded.Request.Parser.{parse_block, RequestParser, parse_query}
use erikslund_http_embedded.Request.Types.{RequestLimits}
use erikslund_http_embedded.Request.Line.{RequestLine, parse_request_line}
use erikslund_http_embedded.Request.Target.{TargetParts, split_target}
use erikslund_http_embedded.Request.Fields.{parse_header_fields}
use erikslund_http_embedded.Request.Path.{path_is_canonical}
use erikslund_http_embedded.Request.Authority.{resolve_authority}
use erikslund_http_embedded.Request.Length.{resolve_content_length}
use erikslund_http_embedded.Request.Chars.{slice}

module _ (inet_pton_v6 : Bytes → Option Bytes) (limits : RequestLimits) where
  -- The results of the steps of an accepted head.
  pub record Steps (now prologue line_end terminator : ℕ) (bytes : Bytes) (s : RequestParser)
      : Type 0 where
    pub line : RequestLine
    pub target : TargetParts
    pub arena : Bytes
    pub lined : parse_request_line (slice bytes 0 line_end) ≡ ok line
    pub short : ltb limits.max_target_bytes (length line.target) ≡ false
    pub fielded :
        parse_header_fields
          (slice bytes (line_end + 2) (terminator + 2 - (line_end + 2)))
          limits.max_header_count
          []
        ≡ ok s.request.headers
    pub framed : resolve_content_length s.request.headers limits.max_body_bytes ≡ ok s.body_bytes
    pub targeted : split_target line.target ≡ ok target
    pub named :
        resolve_authority inet_pton_v6 s.request.headers target.authority line.is_version_11
        ≡ ok s.request.authority
    pub canonical : path_is_canonical target.path ≡ true
    pub queried : parse_query target.query ≡ ok (arena, s.request.query_parameters)
    pub same_method : s.request.method ≡ line.method
    pub same_target : s.request.raw_target ≡ line.target
    pub same_path : s.request.path ≡ target.path
    pub same_query : s.request.query ≡ target.query

  pub parse_block-Steps :
      (now prologue line_end terminator : ℕ) (bytes : Bytes) {s : RequestParser}
      → parse_block inet_pton_v6 limits now prologue bytes line_end terminator ≡ ok s
      → Steps now prologue line_end terminator bytes s
  unfolding parse_block
  parse_block-Steps now prologue line_end terminator bytes {s} h =
      elim (Result-cases (parse_request_line (slice bytes 0 line_end))) [
        | inr (e, a) ↦ absurd (ground arith)
        | inl (line, a) ↦
            elim (Result-cases (
              parse_header_fields (slice bytes (line_end + 2) (terminator + 2 - (line_end + 2)))
                limits.max_header_count [])) [
                  | inr (e, b) ↦ absurd (ground arith)
                  | inl (fields, b) ↦
                      elim (Result-cases (resolve_content_length fields limits.max_body_bytes)) [
                        | inr (e, c) ↦ absurd (ground arith)
                        | inl (count, c) ↦ elim (Result-cases (split_target line.target)) [
                          | inr (e, d) ↦ absurd (ground arith)
                          | inl (target, d) ↦
                              elim (Result-cases (
                                resolve_authority inet_pton_v6 fields target.authority
                                  line.is_version_11)) [
                                    | inr (e, f) ↦ absurd (ground arith)
                                    | inl (authority, f) ↦
                                        elim (Result-cases (parse_query target.query)) [
                                          | inr (e, g) ↦ absurd (ground arith)
                                          | inl ((arena, params), g) ↦ record {
                                            line = line;
                                            target = target;
                                            arena = arena;
                                            lined = a;
                                            short = ground arith;
                                            fielded = ground arith;
                                            framed = ground arith;
                                            targeted = d;
                                            named = ground arith;
                                            canonical = ground arith;
                                            queried = ground arith;
                                            same_method = ground arith;
                                            same_target = ground arith;
                                            same_path = ground arith;
                                            same_query = ground arith;
                                          }
                                        ]
                                  ]
                        ]
                      ]
                ]
      ]
