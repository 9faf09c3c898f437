-- ===== src/Tests/Parsing.antt =====
-- Runs of the whole parser: src/request.cpp and src/internal/request_parser.hpp.
use erikslund_http_embedded.Tests.{program}
use erikslund_http_embedded.Tests.Pieces.{only_loopback}
use erikslund_http_embedded.Prelude.{Bytes, codes, ◌≡◌, refl, [], ◌∷◌, ◌++◌, true}
use erikslund_http_embedded.Method.{post}
use erikslund_http_embedded.Request.Types.{RequestLimits}
use erikslund_http_embedded.Request.State.{Request, empty_request}
use erikslund_http_embedded.Request.Parser.{parse, fresh, RequestParser, ParsedRequest}
use erikslund_http_embedded.Request.Parser.Accepted.{
  IsSafeRequest, IsTakenFrom, parse_request-IsSafeRequest,
}
use erikslund_http_embedded.Request.Parser.Incremental.{parse_incremental}
use erikslund_http_embedded.Request.Parser.FirstLine.{IsReadFrom}

abbrev small_limits : RequestLimits
small_limits = record {
  max_request_line_bytes = 80;
  max_header_block_bytes = 200;
  max_header_count = 4;
  max_target_bytes = 40;
  max_body_bytes = 10;
}

abbrev head : Bytes
head = codes "POST /a?b=c HTTP/1.1\r\nHost: h\r\nContent-Length: 2\r\n\r\n"

abbrev posted : Request
posted = record empty_request {
  method = post;
  raw_target = codes "/a?b=c";
  path = codes "/a";
  query = codes "b=c";
  authority = codes "h";
  body = codes "hi";
  headers =
      record { name = codes "Host"; value = codes "h" }
      ∷ record { name = codes "Content-Length"; value = codes "2" }
      ∷ [];
  query_parameters = record { name = codes "b"; value = codes "c" } ∷ [];
  received_at = 7;
  keep_alive = true;
}

abbrev posted_from_head : ParsedRequest
posted_from_head = record { request = posted; consumed_bytes = 54; body_offset = 52 }

abbrev waiting : RequestParser
waiting = record {
  request = record posted { body = [] };
  body_offset = 52;
  body_bytes = 2;
  head_complete = true;
}

parse_request_example :
    IsSafeRequest only_loopback small_limits posted
    × IsReadFrom only_loopback (head ++ codes "hi next") posted
    × IsTakenFrom only_loopback small_limits (head ++ codes "hi next") posted_from_head
unfolding program
parse_request_example =
    parse_request-IsSafeRequest only_loopback small_limits 7 (head ++ codes "hi next")
      posted_from_head refl

parse_incremental_example :
    parse only_loopback small_limits 9 (head ++ codes "hi") waiting
    ≡ parse only_loopback small_limits 7 (head ++ codes "hi") fresh
unfolding program
parse_incremental_example =
    parse_incremental only_loopback small_limits 7 9 head (codes "hi") waiting refl
