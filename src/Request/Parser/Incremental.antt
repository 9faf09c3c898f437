-- ===== src/Request/Parser/Incremental.antt =====
-- Parsing as the bytes arrive gives what parsing all of them at once gives.
use erikslund_http_embedded.Prelude.{
  ℕ, ◌+◌, ◌-◌, ◌≤◌, ◌≡◌, refl, inl, inr, Option, [], ◌∷◌, ◌++◌, arith, Option-cases, Bytes,
  find_string, find_string-bound, find_string-append_found, find_string_prefix, length, drop,
  length-append, length-drop, take-append, drop-append, ok, true, if◌then◌else◌, Bool-cases,
  starts_with, starts_with-append_long, err, Result-cases, subst,
}
use erikslund_http_embedded.Request.Types.{RequestLimits, needs_more_data}
use erikslund_http_embedded.Request.Chars.{slice}
use erikslund_http_embedded.Request.Fields.{crlf}
use erikslund_http_embedded.Request.Parser.{
  parse_block, header_terminator, RequestParser, parse_request_bytes, fresh, parse_head, parse_body,
  parse,
}

slice-append :
    (s more : Bytes) (offset count : ℕ)
    → offset + count ≤ length s
    → slice (s ++ more) offset count ≡ slice s offset count
unfolding slice
slice-append s more offset count h = ground (
  arith,
  length-append s more,
  drop-append offset s more (omega arith),
  take-append count (drop offset s) more (omega (arith, length-drop offset s)),
)

module _ (inet_pton_v6 : Bytes → Option Bytes) (limits : RequestLimits) where
  parse_block-append :
      (now prologue line_end terminator : ℕ) (bytes more : Bytes)
      → line_end ≤ terminator
      → terminator + 4 ≤ length bytes
      → parse_block inet_pton_v6 limits now prologue (bytes ++ more) line_end terminator
        ≡ parse_block inet_pton_v6 limits now prologue bytes line_end terminator
  unfolding parse_block
  parse_block-append now prologue line_end terminator bytes more l m =
      rw
        (
          slice-append bytes more 0 line_end (omega arith),
          slice-append bytes more (line_end + 2) (terminator + 2 - (line_end + 2)) (omega arith),
        )
        refl

  parse_request_bytes-append :
      (now prologue : ℕ) (bytes more : Bytes) {s : RequestParser}
      → parse_request_bytes inet_pton_v6 limits now prologue bytes ≡ ok s
      → (parse_request_bytes inet_pton_v6 limits now prologue (bytes ++ more) ≡ ok s)
        × (4 ≤ length bytes)
  unfolding parse_request_bytes
  parse_request_bytes-append now prologue bytes more h =
      elim (Option-cases (find_string header_terminator bytes)) [
        | inl e ↦ absurd (ground arith)
        | inr (terminator, e) ↦
            let (line_end, f, l) = find_string_prefix 13 (10 ∷ []) (13 ∷ 10 ∷ []) bytes e in
            let fits = find_string-bound 13 (10 ∷ 13 ∷ 10 ∷ []) bytes e in
            (
              ground (
                arith,
                find_string-append_found 13 (10 ∷ 13 ∷ 10 ∷ []) bytes more e,
                find_string-append_found 13 (10 ∷ []) bytes more f,
                f,
                parse_block-append now prologue line_end terminator bytes more l (omega arith),
              ),
              omega arith,
            )
      ]

  parse_head-append :
      (now : ℕ) (bytes more : Bytes) {s : RequestParser}
      → parse_head inet_pton_v6 limits now bytes ≡ ok s
      → parse_head inet_pton_v6 limits now (bytes ++ more) ≡ ok s
  unfolding parse_head
  parse_head-append now bytes more {s} h = elim (Bool-cases (starts_with bytes crlf)) [
    | inl e ↦
        let (next, long) =
          parse_request_bytes-append now 2 (drop 2 bytes) more {s = s} (ground arith) in
        let size : 2 ≤ length bytes = omega (arith, long, length-drop 2 bytes) in
        ground (
          arith,
          e,
          starts_with-append_long bytes more crlf size,
          drop-append 2 bytes more size,
          next,
        )
    | inr e ↦
        let (next, long) = parse_request_bytes-append now 0 bytes more {s = s} (ground arith) in
        ground (arith, e, starts_with-append_long bytes more crlf (omega (arith, long)), next)
  ]

  parse_head-head_complete :
      (now : ℕ) (bytes : Bytes) {s : RequestParser}
      → parse_head inet_pton_v6 limits now bytes ≡ ok s
      → s.head_complete ≡ true
  unfolding parse_head parse_request_bytes parse_block
  parse_head-head_complete now bytes h = ground arith

  -- A parser that was fed the bytes so far and asks for more goes on, on any continuation, exactly
  -- as a parser does that sees everything at once: same request, same error, same state. Only the
  -- time stamp is that of the call that completed the head.
  pub parse_incremental :
      (now later : ℕ) (bytes more : Bytes) (s : RequestParser)
      → parse inet_pton_v6 limits now bytes fresh ≡ (err needs_more_data, s)
      → parse inet_pton_v6 limits later (bytes ++ more) s
        ≡ parse inet_pton_v6 limits (if s.head_complete then now else later) (bytes ++ more) fresh
  unfolding parse parse_body
  parse_incremental now later bytes more s h =
      elim (Result-cases (parse_head inet_pton_v6 limits now bytes)) [
        | inr (e, f) ↦
            let same : fresh ≡ s = ground arith in
            subst
              (λ (z : RequestParser).
                parse inet_pton_v6 limits later (bytes ++ more) z
                ≡ parse inet_pton_v6 limits (if z.head_complete then now else later) (bytes ++ more)
                    fresh)
              same refl
        | inl (t, f) ↦
            let full = parse_head-head_complete now bytes f in
            let same : s ≡ t = ground arith in
            ground (arith, same, full, parse_head-append now bytes more f)
      ]
