-- ===== src/Request/Line/Grammar.antt =====
-- The request lines that the parser accepts are exactly the ones of the grammar.
use erikslund_http_embedded.Prelude.{
  ◌≡◌, refl, ◌≢◌, inl, inr, Bool, true, false, some, [], ◌∷◌, ◌++◌, arith, Bytes, codes, bytes_eq,
  starts_with, bytes_eq_iff, Lacks, cut_cases, ok, sym, ap₂, subst, ◌∙◌, ◌↔◌, not, is_empty,
  contains_byte, cut-append,
}
use erikslund_http_embedded.Method.{method_name, method_from_token, Method}
use erikslund_http_embedded.Method.Token.{IsEnumerator, method_from_token_iff}
use erikslund_http_embedded.Request.Chars.{is_decimal_digit}
use erikslund_http_embedded.Request.Line.{
  check_parts, RequestLine, version_is_well_formed, parse_request_line,
}

abbrev pub version_text : Bool → Bytes
version_text true = codes "HTTP/1.1"
version_text false = codes "HTTP/1.0"

-- A line is "METHOD target HTTP/1.x" with single spaces.
pub record IsLineOf (r : RequestLine) (line : Bytes) : Type 0 where
  pub known : IsEnumerator r.method
  pub has_target : r.target ≢ []
  pub no_space : Lacks b' ' r.target
  pub shape :
      line ≡ method_name r.method ++ (b' ' ∷ (r.target ++ (b' ' ∷ version_text r.is_version_11)))

-- The three parts.
record IsParts (r : RequestLine) (token target version : Bytes) : Type 0 where
  named : method_from_token token ≡ some r.method
  same_target : target ≡ r.target
  has_target : target ≢ []
  same_version : version ≡ version_text r.is_version_11

check_parts_sound :
    (token target version : Bytes) {r : RequestLine}
    → check_parts token target version ≡ ok r
    → IsParts r token target version
unfolding check_parts
check_parts_sound token target version {r} h = record {
  named = ground arith;
  same_target = ground arith;
  has_target = ground arith;
  same_version =
      ground
        (arith, bytes_eq_iff version (codes "HTTP/1.1"), bytes_eq_iff version (codes "HTTP/1.0"));
}

version_is_known : (v : Bool) → version_is_well_formed (version_text v) ≡ true
unfolding version_is_well_formed starts_with is_decimal_digit
version_is_known true = refl
version_is_known false = refl

is_version_text_11 : (v : Bool) → bytes_eq (version_text v) (codes "HTTP/1.1") ≡ v
unfolding bytes_eq
is_version_text_11 true = refl
is_version_text_11 false = refl

is_version_text_10 : (v : Bool) → bytes_eq (version_text v) (codes "HTTP/1.0") ≡ not v
unfolding bytes_eq
is_version_text_10 true = refl
is_version_text_10 false = refl

check_parts_complete :
    (r : RequestLine) (token : Bytes)
    → method_from_token token ≡ some r.method
    → r.target ≢ []
    → check_parts token r.target (version_text r.is_version_11) ≡ ok r
unfolding check_parts
check_parts_complete r token named has_target = ground (
  arith,
  version_is_known r.is_version_11,
  is_version_text_11 r.is_version_11,
  is_version_text_10 r.is_version_11,
)

-- What a method's name is not: empty, or with a space in it.
method_name_shape :
    (m : Method) → IsEnumerator m → (is_empty (method_name m) ≡ false) × Lacks b' ' (method_name m)
unfolding method_name
method_name_shape m (inl e) = rw e (refl, omega arith)
method_name_shape m (inr (inl e)) = rw e (refl, omega arith)
method_name_shape m (inr (inr (inl e))) = rw e (refl, omega arith)
method_name_shape m (inr (inr (inr (inl e)))) = rw e (refl, omega arith)
method_name_shape m (inr (inr (inr (inr (inl e))))) = rw e (refl, omega arith)
method_name_shape m (inr (inr (inr (inr (inr (inl e)))))) = rw e (refl, omega arith)
method_name_shape m (inr (inr (inr (inr (inr (inr e)))))) = rw e (refl, omega arith)

version_text-Lacks : (v : Bool) → contains_byte (version_text v) b' ' ≡ false
unfolding contains_byte
version_text-Lacks true = refl
version_text-Lacks false = refl

parse_request_line_sound :
    (line : Bytes) {r : RequestLine} → parse_request_line line ≡ ok r → IsLineOf r line
unfolding parse_request_line
parse_request_line_sound line {r} h = elim (cut_cases b' ' line) [
  | inl (e, _, _) ↦ absurd (ground arith)
  | inr (token, rest, e, _, g, free, _) ↦ elim (cut_cases b' ' rest) [
    | inl (e', _, _) ↦ absurd (ground arith)
    | inr (target, version, e', _, g', free', _) ↦
        let v = check_parts_sound token target version {r = r} (ground arith) in
        let (known, named) = (method_from_token_iff token r.method).0 v.named in
        record {
          known = known;
          has_target = subst (λ t. t ≢ []) v.same_target v.has_target;
          no_space = subst (Lacks b' ') v.same_target free';
          shape =
              g
              ∙ ap₂ (λ t s. t ++ (b' ' ∷ s)) (sym named)
                  (g' ∙ ap₂ (λ t s. t ++ (b' ' ∷ s)) v.same_target v.same_version);
        }
  ]
]

parse_request_line_complete :
    (line : Bytes) (r : RequestLine) → IsLineOf r line → parse_request_line line ≡ ok r
unfolding parse_request_line
parse_request_line_complete line r v =
    let name = method_name r.method in
    let rest = r.target ++ (b' ' ∷ version_text r.is_version_11) in
    let (full, free) = method_name_shape r.method v.known in
    rw v.shape (
      ground (
        arith,
        full,
        cut-append b' ' name rest free,
        cut-append b' ' r.target (version_text r.is_version_11) v.no_space,
        version_text-Lacks r.is_version_11,
        check_parts_complete r name ((method_from_token_iff name r.method).1 (v.known, refl))
            v.has_target,
      ))

-- A request line is accepted, and read as `r`, exactly when it is the method's name, one space, a
-- target that is not empty and holds no space, one space, and "HTTP/1.1" or "HTTP/1.0".
pub parse_request_line_iff :
    (line : Bytes) (r : RequestLine) → (parse_request_line line ≡ ok r) ↔ IsLineOf r line
parse_request_line_iff line r = (parse_request_line_sound line, parse_request_line_complete line r)
