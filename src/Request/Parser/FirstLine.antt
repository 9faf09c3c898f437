-- ===== src/Request/Parser/FirstLine.antt =====
-- What of an accepted request is read from the first line of its bytes.
use erikslund_http_embedded.Prelude.{
  ℕ, ◌+◌, ◌≡◌, refl, sym, ap, subst, ◌∙◌, ◌⊎◌, inl, inr, Bool, Option, [], ◌∷◌, ◌++◌, arith,
  Bool-cases, Option-cases, if_false, Bytes, starts_with, find_string, starts_with-drop,
  find_string-at, length, take, drop, length-append, ok, ltb,
}
use erikslund_http_embedded.Request.Parser.{
  parse_head, parse_request_bytes, RequestParser, header_terminator, index_or_zero,
}
use erikslund_http_embedded.Request.Parser.HeadSteps.{Steps, parse_block-Steps}
use erikslund_http_embedded.Request.Authority.Agreement.{Names, host_values, resolve_authority_iff}
use erikslund_http_embedded.Request.Line.Grammar.{IsLineOf, parse_request_line_iff, version_text}
use erikslund_http_embedded.Request.Target.Grammar.{IsTargetOf, split_target_sound}
use erikslund_http_embedded.Request.State.{Request}
use erikslund_http_embedded.Request.Types.{RequestLimits}
use erikslund_http_embedded.Request.Line.{RequestLine, parse_request_line}
use erikslund_http_embedded.Request.Fields.{crlf}
use erikslund_http_embedded.Method.{method_name}
use erikslund_http_embedded.Request.Chars.{slice}

module _ (inet_pton_v6 : Bytes → Option Bytes) where
  -- The bytes begin, behind at most one empty line, with a request line of the request's method and
  -- target; the target has the request's path and query, and names, with the Host fields, its authority.
  pub record IsReadFrom (bytes : Bytes) (r : Request) : Type 0 where
    pub prologue : Bytes
    pub text : Bytes
    pub more : Bytes
    pub is_version_11 : Bool
    pub target_authority : Bytes
    pub whole : bytes ≡ prologue ++ (text ++ (crlf ++ more))
    pub optional : (prologue ≡ []) ⊎ (prologue ≡ crlf)
    pub is_line :
        IsLineOf
          (record { method = r.method; target = r.raw_target; is_version_11 = is_version_11 })
          text
    pub splits : IsTargetOf r.raw_target target_authority r.path r.query
    pub named :
        Names inet_pton_v6 (host_values r.headers) target_authority is_version_11 r.authority

  module _ (limits : RequestLimits) where
    slice_front : (bytes : Bytes) (count : ℕ) → slice bytes 0 count ≡ take count bytes
    unfolding slice
    slice_front bytes count = if_false {b = ltb (length bytes) 0} _ _ (ground arith)

    no_empty_line : (line : RequestLine) → IsLineOf line [] → ⊥
    no_empty_line line v =
        let size = ap length v.shape in
        absurd (
          omega (
            arith,
            size,
            length-append (method_name line.method)
                (b' ' ∷ (line.target ++ (b' ' ∷ version_text line.is_version_11))),
          ))

    -- The first line, as it stands in the bytes.
    first_line :
        (bytes : Bytes) (line : RequestLine)
        → parse_request_line (slice bytes 0 (index_or_zero (find_string crlf bytes))) ≡ ok line
        → (text : Bytes) × (more : Bytes) × (bytes ≡ text ++ (crlf ++ more)) × IsLineOf line text
    first_line bytes line h = elim (Option-cases (find_string crlf bytes)) [
      | inl e ↦
          let nothing_read : slice bytes 0 (index_or_zero (find_string crlf bytes)) ≡ [] =
            ap (λ i. slice bytes 0 (index_or_zero i)) e ∙ slice_front bytes 0 in
          absurd (
            no_empty_line line
              ((parse_request_line_iff [] line).0 (ap parse_request_line (sym nothing_read) ∙ h)))
      | inr (i, e) ↦
          let read : slice bytes 0 (index_or_zero (find_string crlf bytes)) ≡ take i bytes =
            ap (λ i. slice bytes 0 (index_or_zero i)) e ∙ slice_front bytes i in
          (
            take i bytes,
            drop (i + 2) bytes,
            find_string-at 13 (10 ∷ []) bytes e,
            (parse_request_line_iff (take i bytes) line).0 (ap parse_request_line (sym read) ∙ h),
          )
    ]

    Steps-IsReadFrom :
        (now prologue_bytes terminator : ℕ) (prologue bytes : Bytes) {s : RequestParser}
        → (prologue ≡ []) ⊎ (prologue ≡ crlf)
        → Steps inet_pton_v6 limits now prologue_bytes
            (index_or_zero (find_string crlf bytes))
            terminator
            bytes
            s
        → IsReadFrom (prologue ++ bytes) s.request
    Steps-IsReadFrom now prologue_bytes terminator prologue bytes {s} optional v =
        let (text, more, whole, is_line) = first_line bytes v.line v.lined in
        record {
          prologue = prologue;
          text = text;
          more = more;
          is_version_11 = v.line.is_version_11;
          target_authority = v.target.authority;
          whole = ap (λ b. prologue ++ b) whole;
          optional = optional;
          is_line =
              rw (v.same_method, v.same_target)
                (record {
                  known = is_line.known;
                  has_target = is_line.has_target;
                  no_space = is_line.no_space;
                  shape = is_line.shape;
                });
          splits =
              rw (v.same_target, v.same_path, v.same_query)
                (split_target_sound v.line.target v.target v.targeted);
          named =
              (resolve_authority_iff inet_pton_v6 s.request.headers v.target.authority
                  v.line.is_version_11 s.request.authority).0
                v.named;
        }

    parse_request_bytes-IsReadFrom :
        (now prologue_bytes : ℕ) (prologue bytes : Bytes) {s : RequestParser}
        → (prologue ≡ []) ⊎ (prologue ≡ crlf)
        → parse_request_bytes inet_pton_v6 limits now prologue_bytes bytes ≡ ok s
        → IsReadFrom (prologue ++ bytes) s.request
    unfolding parse_request_bytes
    parse_request_bytes-IsReadFrom now prologue_bytes prologue bytes {s} optional h =
        elim (Option-cases (find_string header_terminator bytes)) [
          | inl e ↦ absurd (ground arith)
          | inr (terminator, e) ↦
              Steps-IsReadFrom now prologue_bytes terminator prologue bytes optional (
                parse_block-Steps inet_pton_v6 limits now prologue_bytes
                  (index_or_zero (find_string crlf bytes)) terminator bytes {s = s} (ground arith))
        ]

    pub parse_head-IsReadFrom :
        (now : ℕ) (bytes : Bytes) {s : RequestParser}
        → parse_head inet_pton_v6 limits now bytes ≡ ok s
        → IsReadFrom bytes s.request
    unfolding parse_head
    parse_head-IsReadFrom now bytes {s} h = elim (Bool-cases (starts_with bytes crlf)) [
      | inl e ↦
          subst (λ b. IsReadFrom b s.request) (sym (starts_with-drop bytes crlf e))
            (parse_request_bytes-IsReadFrom now 2 crlf (drop 2 bytes) {s = s} (inr refl)
              (ground arith))
      | inr e ↦ parse_request_bytes-IsReadFrom now 0 [] bytes {s = s} (inl refl) (ground arith)
    ]
