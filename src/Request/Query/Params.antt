-- ===== src/Request/Query/Params.antt =====
-- The query parameters of a request: the shared arena never outgrows the bytes reserved for it, and
-- each parameter holds its own name and value decoded alone.
use erikslund_http_embedded.Prelude.{
  ℕ, ◌+◌, ◌≤◌, ◌≡◌, ap, inl, inr, Option, none, some, List, [], ◌∷◌, ◌++◌, arith, if◌then◌else◌,
  Bytes, is_empty, cut, cut_cases, length, length-append, ok, ◌-◌, subst, ◌≢◌, append_assoc, take,
  take-append_length, drop-append_length, take_all, refl, ◌⊎◌, Bool-cases, Option-cases, split,
  zero, suc, ◌<◌, sym, append-nil, ◌∙◌, Result, Result-cases,
}
use erikslund_http_embedded.Request.Types.{HeaderView, max_parsed_headers, ParseError}
use erikslund_http_embedded.Request.Query.Component.{
  decode_query_component_into-arena, decode_query_component_into-Appends,
}
use erikslund_http_embedded.Request.Query.{
  decode_query_component_into, Headers, arena_view, add_parameter, after_separator, decode_pair,
  decode_query_from, decode_query_into,
}
use mathlib.Core.Option

-- A parameter decoded on its own.
pub parameter_alone : Bytes → Bytes → Option HeaderView
parameter_alone raw_name raw_value = elim (decode_query_component_into [] raw_name) [
  | none ↦ none
  | some name ↦ elim (decode_query_component_into [] raw_value) [
    | none ↦ none
    | some value ↦ some (record { name = name; value = value })
  ]
]

-- The parameters that the pieces between "&" stand for: a piece with no name stands for none.
pub parameters_of : List Bytes → Option Headers
parameters_of [] = some []
parameters_of (pair ∷ pairs) =
    let (raw_name, value) = cut b'=' pair in
    let later = parameters_of pairs in
    if is_empty raw_name then later else elim (parameter_alone raw_name (after_separator value)) [
      | none ↦ none
      | some p ↦ Option.map (λ ps. p ∷ ps) later
    ]

cut-length :
    (sep : ℕ) (s : Bytes) → length (cut sep s).0 + length (after_separator (cut sep s).1) ≤ length s
cut-length sep s = elim (cut_cases sep s) [
  | inl (e, _, _) ↦ rw e (omega arith)
  | inr (p, r, e, _, g, _, _) ↦ rw e (omega (arith, ap length g, length-append p (sep ∷ r)))
]

view_of_name :
    (arena name value : Bytes)
    → arena_view ((arena ++ name) ++ value) (length arena) (length (arena ++ name) - length arena)
      ≡ name
view_of_name arena name value =
    rw (append_assoc arena name value, drop-append_length arena (name ++ value))
      (subst (λ k. take k (name ++ value) ≡ name) (omega (arith, length-append arena name))
        (take-append_length name value))

view_of_value :
    (with_name value : Bytes)
    → arena_view
        (with_name ++ value)
        (length with_name)
        (length (with_name ++ value) - length with_name)
      ≡ value
view_of_value with_name value =
    rw (drop-append_length with_name value)
      (take_all _ value (omega (arith, length-append with_name value)))

-- What a pair with a name adds.
record Adds (arena : Bytes) (out : Headers) (raw_name raw_value arena' : Bytes) (out' : Headers)
    : Type 0 where
  param : HeaderView
  decoded : parameter_alone raw_name raw_value ≡ some param
  added : out' ≡ out ++ (param ∷ [])
  short : length arena' ≤ length arena + (length raw_name + length raw_value)
  few : length out ≢ max_parsed_headers

-- Decoding into an arena either fails as decoding alone does, or appends what that gives.
decoded_cases :
    (arena raw : Bytes)
    → (decode_query_component_into arena raw ≡ none)
      ⊎ ((t : Bytes) × (decode_query_component_into [] raw ≡ some t)
          × (decode_query_component_into arena raw ≡ some (arena ++ t))
          × (length t ≤ length raw))
decoded_cases arena raw = elim (Option-cases (decode_query_component_into [] raw)) [
  | inl e ↦ inl (rw (decode_query_component_into-arena arena raw, e) refl)
  | inr (t, e) ↦
      let a = decode_query_component_into-Appends [] raw e in
      inr (
        t,
        e,
        rw (decode_query_component_into-arena arena raw, e) refl,
        omega (arith, a.short, ap length a.splits),
      )
]

add_parameter-Adds :
    (arena raw_name raw_value : Bytes) (out : Headers) {arena' : Bytes} {out' : Headers}
    → add_parameter arena out raw_name raw_value ≡ ok (arena', out')
    → Adds arena out raw_name raw_value arena' out'
unfolding add_parameter parameter_alone
add_parameter-Adds arena raw_name raw_value out {arena'} {out'} h =
    elim (decoded_cases arena raw_name) [
      | inl e ↦ absurd (ground arith)
      | inr (name, e, e', l) ↦ elim (decoded_cases (arena ++ name) raw_value) [
        | inl f ↦ absurd (ground arith)
        | inr (value, f, f', m) ↦ record {
          param = record { name = name; value = value };
          decoded = ground arith;
          added =
              ground (arith, view_of_name arena name value, view_of_value (arena ++ name) value);
          short =
              let same : arena' ≡ (arena ++ name) ++ value = ground arith in
              omega (
                arith,
                ap length same,
                length-append (arena ++ name) value,
                length-append arena name,
              );
          few = ground arith;
        }
      ]
    ]

-- What the loop leaves: the arena grows by no more than was read, and the parameters are those of
-- the pieces, after the ones that were there.
record Collects (arena : Bytes) (out : Headers) (rest arena' : Bytes) (out' : Headers)
    : Type 0 where
  params : Headers
  decoded : parameters_of (split b'&' rest) ≡ some params
  added : out' ≡ out ++ params
  short : length arena' ≤ length arena + length rest
  few : length out ≤ max_parsed_headers → length out' ≤ max_parsed_headers

-- One round: a pair that names nothing adds nothing.
record Round (arena : Bytes) (out : Headers) (pair arena' : Bytes) (out' : Headers) : Type 0 where
  before :
      (pairs : List Bytes) (ps : Headers)
      → parameters_of pairs ≡ some ps
      → (qs : Headers) × (parameters_of (pair ∷ pairs) ≡ some qs) × (out ++ qs ≡ out' ++ ps)
  short : length arena' ≤ length arena + length pair
  few : length out ≤ max_parsed_headers → length out' ≤ max_parsed_headers

decode_pair-Round :
    (arena pair : Bytes) (out : Headers) {arena' : Bytes} {out' : Headers}
    → decode_pair arena out pair ≡ ok (arena', out')
    → Round arena out pair arena' out'
unfolding decode_pair parameters_of
decode_pair-Round arena pair out {arena'} {out'} h =
    elim (Bool-cases (is_empty (cut b'=' pair).0)) [
      | inl e ↦
          let same : (arena' ≡ arena) × (out' ≡ out) = ground arith in
          record {
            before = λ pairs ps k. (ps, ground arith, rw same.1 refl);
            short = rw same.0 (omega arith);
            few = λ k. subst (λ o. length o ≤ max_parsed_headers) (sym same.1) k;
          }
      | inr e ↦
          let a =
            add_parameter-Adds arena (cut b'=' pair).0 (after_separator (cut b'=' pair).1) out
              {arena' = arena'} {out' = out'} (ground arith) in
          record {
            before = λ pairs ps k. (
              a.param ∷ ps,
              ground (arith, a.decoded),
              rw a.added (sym (append_assoc out (a.param ∷ []) ps)),
            );
            short = omega (arith, a.short, cut-length b'=' pair);
            few = λ k. omega (arith, a.few, ap length a.added, length-append out (a.param ∷ []));
          }
    ]

-- An empty pair is skipped.
skip-Round : (arena : Bytes) (out : Headers) → Round arena out [] arena out
unfolding parameters_of cut
skip-Round arena out = record {
  before = λ pairs ps k. (ps, k, refl);
  short = omega arith;
  few = λ k. k;
}

round_lem :
    (arena pair : Bytes) (out : Headers) {arena' : Bytes} {out' : Headers}
    → (if is_empty pair then ok (arena, out) else decode_pair arena out pair) ≡ ok (arena', out')
    → Round arena out pair arena' out'
round_lem arena [] out {arena'} {out'} h =
    let same : (arena' ≡ arena) × (out' ≡ out) = ground arith in
    rw (same.0, same.1) (skip-Round arena out)
round_lem arena (c ∷ pair) out h = decode_pair-Round arena (c ∷ pair) out h

parameters_of-nil : parameters_of [] ≡ some []
unfolding parameters_of
parameters_of-nil = refl

decode_query_from-nil :
    (fuel : ℕ) (arena : Bytes) (out : Headers)
    → 0 < fuel
    → decode_query_from fuel arena out [] ≡ ok (arena, out)
unfolding decode_query_from
decode_query_from-nil zero arena out l = elim l [ ]
decode_query_from-nil (suc fuel) arena out l = refl

decode_query_from-Collects :
    (fuel : ℕ) (arena rest : Bytes) (out : Headers) {arena' : Bytes} {out' : Headers}
    → length rest < fuel
    → decode_query_from fuel arena out rest ≡ ok (arena', out')
    → Collects arena out rest arena' out'
unfolding decode_query_from
decode_query_from-Collects zero arena rest out l h = absurd (omega arith)
decode_query_from-Collects (suc fuel) arena [] out {arena'} {out'} l h =
    let same : (arena' ≡ arena) × (out' ≡ out) = ground arith in
    record {
      params = [];
      decoded = unfold split parameters_of cut in refl;
      added = rw append-nil same.1;
      short = rw same.0 (omega arith);
      few = λ k. rw same.1 k;
    }
decode_query_from-Collects (suc fuel) arena (c ∷ rest) out {arena'} {out'} l h =
    elim (Result-cases round) [
      | inr (e, failed) ↦ absurd (ground arith)
      | inl ((a, o), done) ↦ elim (cut_cases b'&' (c ∷ rest)) [
        | inl (e, f, _) ↦
            let stop : decode_query_from fuel a o [] ≡ ok (a, o) =
              decode_query_from-nil fuel a o (omega arith) in
            let same : (arena' ≡ a) × (out' ≡ o) = ground arith in
            let r : Round arena out (c ∷ rest) a o =
              subst (λ x. Round arena out x a o) (ap (λ x. x.0) e)
                (round_lem arena pair out done) in
            let (qs, decoded, added) = r.before [] [] parameters_of-nil in
            record {
              params = qs;
              decoded = rw f decoded;
              added = same.1 ∙ sym (added ∙ append-nil o);
              short = rw same.0 r.short;
              few = λ k. rw same.1 (r.few k);
            }
        | inr (p, q, e, f, g, _, m) ↦
            let r : Round arena out p a o =
              subst (λ x. Round arena out x a o) (ap (λ x. x.0) e)
                (round_lem arena pair out done) in
            let ih =
              decode_query_from-Collects fuel a q o {arena' = arena'} {out' = out'} (omega arith)
                (ground arith) in
            let (qs, decoded, added) = r.before (split b'&' q) ih.params ih.decoded in
            record {
              params = qs;
              decoded = rw f decoded;
              added = ih.added ∙ sym added;
              short = omega (arith, ih.short, r.short, ap length g, length-append p (b'&' ∷ q));
              few = λ k. ih.few (r.few k);
            }
      ]
    ]
  where
    pair : Bytes
    pair = (cut b'&' (c ∷ rest)).0

    round : Result ParseError (Bytes × Headers)
    round = if is_empty pair then ok (arena, out) else decode_pair arena out pair

-- What decoding a query gives a request: the arena is never longer than the query, for which it was
-- reserved, there are no more parameters than the table holds, and they are exactly those of the
-- pieces between "&", each decoded on its own.
pub decode_query_into_lem :
    (raw_query arena : Bytes) (params : Headers)
    → decode_query_into [] raw_query [] ≡ ok (arena, params)
    → (length arena ≤ length raw_query)
      × (length params ≤ max_parsed_headers)
      × (parameters_of (split b'&' raw_query) ≡ some params)
unfolding decode_query_into
decode_query_into_lem raw_query arena params h =
    let c = decode_query_from-Collects (length raw_query + 1) [] raw_query [] (omega arith) h in
    (omega (arith, c.short), c.few (omega arith), c.decoded ∙ ap some (sym c.added))
