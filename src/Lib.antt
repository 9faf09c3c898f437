-- ===== src/Lib.antt =====
-- The HTTP/1.x server library erikslund-http-embedded: from the bytes of a request to those of its
-- response, the admission of connections, and server-sent events.
--
-- `CidrAllowList` says which peers may connect, and `ServerState` hands every connection a slot. A
-- connection reads bytes into a `Buffer`, hands what is readable to a `RequestParser`, and consumes
-- what a parsed request took. `Router` chooses the handler that answers the request. The `Response`
-- of the handler, or a 304 in its place, is encoded into a head, which the connection writes with the
-- body. A response may be a stream, whose source a `SseChannel` feeds with frames.
--
-- Prelude      lists over the native numbers, views of bytes, results
-- Text         include/erikslund/http/text.hpp and src/text.cpp: comparison without case,
--              escapes, url_decode, entity tags, the
--              comparison of secrets, and std::to_chars of a number
-- Cidr         src/cidr.cpp: networks, the allow list, the text of an address
-- Conditional  src/conditional_request.cpp: If-None-Match
-- Buffer       src/internal/buffer.hpp; Buffer.Queue and Buffer.Runs compare it with a queue
-- Admission    src/server_state.cpp: `admit` and `release`, and the slots that connections hold
-- Peer         include/erikslund/http/peer_address.hpp: the record
-- Method       include/erikslund/http/method.hpp: masks, names, tokens
-- Request      src/request.cpp, include/erikslund/http/request.hpp and
--              src/internal/request_parser.hpp, a module per function or group of functions, under
--              the names of the source; Request.Parser composes them the way the class does
-- Status       include/erikslund/http/status.hpp: codes and their texts
-- Response     src/response.cpp and include/erikslund/http/response.hpp: what a handler answers
-- Compress     src/compress.cpp: which bodies are compressed
-- Encoder      src/response_encoder.cpp: the head that is sent, 304 answers; Encoder.Answer joins
--              it with Response
-- Json         src/json.cpp: which requests carry JSON, and the answers to those that do not
-- Router       src/router.cpp and include/erikslund/http/router.hpp: Router.Pattern for the
--              patterns, Router.Table for registration, Router.Dispatch for the choice,
--              Router.Registration for routers as calls build them
-- Connection   src/connection.cpp, in part: Connection.Wire for the writing of a response,
--              Connection.Phases for the phases and their deadlines
-- Sse          src/sse.cpp: Sse.Frame for the text of an event, Sse.Subscriber for the queue of one
--              client, Sse.Channel for the subscribers of a channel
-- Tests        runs on concrete inputs
--
-- A byte is a number, and a `std::string_view` is the list of the bytes that it shows. So the
-- offsets by which a parser moves its views to a buffer that has grown do not appear. Functions
-- that return `std::expected` return `Result`. Numbers are natural numbers: sizes are those of
-- arrays in memory, whose sums stay below 2 ^ 64, and `std::from_chars` has its range written out.
--
-- A loop over a view is recursion on fuel. It starts with the view's length, or with one more where
-- a last round sees the end. Each round takes a byte at least, so the fuel is enough.
--
-- `inet_pton` and `inet_ntop` are parameters, functions from text to an optional address and back.
-- The allow list relies on the lengths of the addresses that `inet_pton` gives, 4 and 16 bytes. The
-- clock is an argument, and so are the text of the date, and what deflate makes of a body. What a
-- transport answers to its calls is a list of answers. A mutex makes each admission and release,
-- and each operation on a subscriber and on a channel, one step.
--
-- Not modelled: sockets, TLS, threads, files, zlib and logging, which are calls of other software;
-- the connection's drive functions as a whole; metrics, settings, assets and the status page.
pub mod Prelude
pub mod Text
pub mod Buffer
pub mod Admission
pub mod Peer
pub mod Method
pub mod Status
pub mod Request
pub mod Response
pub mod Compress
pub mod Encoder
pub mod Json
pub mod Router
pub mod Cidr
pub mod Conditional
pub mod Sse
pub mod Connection
pub mod Tests
