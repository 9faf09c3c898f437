-- ===== src/Router/Matching.antt =====
-- Which paths a route matches, and with which captures.
use erikslund_http_embedded.Prelude.{
  Bytes, ◌≡◌, cut_cases, Lacks, refl, subst, ◌≢◌, ◌⊎◌, inl, inr, true, false, Option, none, some,
  List, [], ◌∷◌, ◌++◌, arith, Bool-cases, Option-cases, cut, bytes_eq_iff, sym, ap, ap₂, ◌∙◌, ◌↔◌,
  Bool, append-nil, cut-append, cut_of_Lacks,
}
use erikslund_http_embedded.Request.Query.{Headers}
use erikslund_http_embedded.Router.Table.{Segment, Route}
use erikslund_http_embedded.Router.Dispatch.{match_segments, from_slash, ends_match, match}

-- One segment takes one piece of a path: a parameter any that is not empty, a literal its own text.
abbrev pub Takes : Segment → Bytes → Headers → Headers → Type 0
Takes segment piece captures later =
    ((segment.is_parameter ≡ true)
      × (piece ≢ [])
      × (captures ≡ record { name = segment.parameter_name; value = piece } ∷ later))
    ⊎ ((segment.is_parameter ≡ false) × (piece ≡ segment.literal) × (captures ≡ later))

-- The segments spell the path up to what is left of it.
abbrev pub Spells : List Segment → Headers → Bytes → Bytes → Type 0
Spells [] captures left path = (captures ≡ []) × (left ≡ path)
Spells (segment ∷ segments) captures left path =
    (piece : Bytes) × (tail : Bytes) × (later : Headers) × (path ≡ b'/' ∷ (piece ++ tail))
    × Lacks b'/' piece
    × ((tail ≡ []) ⊎ ((r : Bytes) × (tail ≡ b'/' ∷ r)))
    × Takes segment piece captures later
    × Spells segments later left tail

-- One round, with the piece cut off.
match_round :
    (segment : Segment) (segments : List Segment) (piece remaining : Bytes) (after : Option Bytes)
    (captures : Headers) (left : Bytes)
    → cut b'/' remaining ≡ (piece, after)
    → match_segments (segment ∷ segments) (b'/' ∷ remaining) ≡ some (captures, left)
    → (later : Headers) × (match_segments segments (from_slash after) ≡ some (later, left))
      × Takes segment piece captures later
unfolding match_segments
match_round segment segments piece remaining after captures left e h =
    elim (Option-cases (match_segments segments (from_slash after))) [
      | inl f ↦ absurd (ground arith)
      | inr ((later, l), f) ↦ elim (Bool-cases segment.is_parameter) [
        | inl p ↦ (later, ground arith, inl (p, λ n. ground arith, ground arith))
        | inr p ↦ (
          later,
          ground arith,
          inr (p, (bytes_eq_iff piece segment.literal).0 (ground arith), ground arith),
        )
      ]
    ]

match_round_back :
    (segment : Segment) (segments : List Segment) (piece remaining : Bytes) (after : Option Bytes)
    (captures later : Headers) (left : Bytes)
    → cut b'/' remaining ≡ (piece, after)
    → match_segments segments (from_slash after) ≡ some (later, left)
    → Takes segment piece captures later
    → match_segments (segment ∷ segments) (b'/' ∷ remaining) ≡ some (captures, left)
unfolding match_segments
match_round_back segment segments piece remaining after captures later left e h (inl (p, n, c)) =
    ground arith
match_round_back segment segments piece remaining after captures later left e h (inr (p, n, c)) =
    ground (arith, (bytes_eq_iff piece segment.literal).1 n)

match_segments_sound :
    (segments : List Segment) (path : Bytes) (captures : Headers) (left : Bytes)
    → match_segments segments path ≡ some (captures, left)
    → Spells segments captures left path
match_segments_sound [] path captures left h = unfold match_segments in (ground arith, ground arith)
match_segments_sound (segment ∷ segments) [] captures left h = unfold match_segments in cc
match_segments_sound (segment ∷ segments) (c ∷ remaining) captures left h =
    let slash : c ≡ b'/' = unfold match_segments in ground arith in
    let g =
      subst (λ x. match_segments (segment ∷ segments) (x ∷ remaining) ≡ some (captures, left)) slash
        h in
    elim (cut_cases b'/' remaining) [
      | inl (e, _, free) ↦
          let (later, f, t) =
            match_round segment segments remaining remaining none captures left e g in
          (
            remaining,
            [],
            later,
            ap₂ ◌∷◌ slash (sym (append-nil remaining)),
            free,
            inl refl,
            t,
            match_segments_sound segments [] later left f,
          )
      | inr (p, r, e, _, joined, free, _) ↦
          let (later, f, t) = match_round segment segments p remaining (some r) captures left e g in
          (
            p,
            b'/' ∷ r,
            later,
            ap₂ ◌∷◌ slash joined,
            free,
            inr (r, refl),
            t,
            match_segments_sound segments (b'/' ∷ r) later left f,
          )
    ]

match_segments_complete :
    (segments : List Segment) (path : Bytes) (captures : Headers) (left : Bytes)
    → Spells segments captures left path
    → match_segments segments path ≡ some (captures, left)
match_segments_complete [] path captures left (c, l) = unfold match_segments in cc
match_segments_complete (segment ∷ segments) path captures left
      (piece, tail, later, e, free, inl n, t, v) =
    let rest : path ≡ b'/' ∷ piece =
      e ∙ ap (λ z. b'/' ∷ z) (ap (λ z. piece ++ z) n ∙ append-nil piece) in
    rw rest (
      match_round_back segment segments piece piece none captures later left
        (cut_of_Lacks b'/' piece free)
        (match_segments_complete segments [] later left
          (subst (λ z. Spells segments later left z) n v))
        t)
match_segments_complete (segment ∷ segments) path captures left
      (piece, tail, later, e, free, inr (r, n), t, v) =
    let rest : path ≡ b'/' ∷ (piece ++ (b'/' ∷ r)) = e ∙ ap (λ z. b'/' ∷ (piece ++ z)) n in
    rw rest (
      match_round_back segment segments piece (piece ++ (b'/' ∷ r)) (some r) captures later left
        (cut-append b'/' piece r free)
        (match_segments_complete segments (b'/' ∷ r) later left
          (subst (λ z. Spells segments later left z) n v))
        t)

-- What may be left: with a wildcard something that starts with "/", without one nothing.
abbrev pub MayBeLeft : Bool → Bytes → Type 0
MayBeLeft has_wildcard left =
    ((has_wildcard ≡ true) × ((r : Bytes) × (left ≡ b'/' ∷ r)))
    ⊎ ((has_wildcard ≡ false) × (left ≡ []))

ends_match-MayBeLeft :
    (has_wildcard : Bool) (left : Bytes)
    → (ends_match has_wildcard left ≡ true) ↔ MayBeLeft has_wildcard left
unfolding ends_match
ends_match-MayBeLeft true [] = (λ h. cc, λ v. ground arith)
ends_match-MayBeLeft false [] = (λ h. inr (refl, refl), λ v. refl)
ends_match-MayBeLeft false (c ∷ left) = (λ h. cc, λ v. ground arith)
ends_match-MayBeLeft true (c ∷ left) = (
  λ h. inl (refl, (left, ap (λ z. z ∷ left) (unfold ends_match in ground arith))),
  λ v. ground arith,
)

-- A route matches a path with some captures exactly when its segments spell the path piece by piece,
-- a literal by its own text and a parameter by any text that is not empty and has no "/", which is
-- its capture; behind them stands nothing, or for a route with a wildcard something with a "/" first.
pub match_iff :
    {R : Type 0} (path : Bytes) (candidate : Route R) (captures : Headers)
    → (match path candidate ≡ some captures) ↔ (
        (left : Bytes) × Spells candidate.segments captures left path
        × MayBeLeft candidate.has_wildcard left)
unfolding match
match_iff path candidate captures = (there, back)
  where
    there :
        match path candidate ≡ some captures
        → (left : Bytes) × Spells candidate.segments captures left path
          × MayBeLeft candidate.has_wildcard left
    there h = elim (Option-cases (match_segments candidate.segments path)) [
      | inl e ↦ absurd (ground arith)
      | inr ((these, left), e) ↦
          let same : these ≡ captures = ground arith in
          (
            left,
            subst (λ z. Spells candidate.segments z left path) same
                (match_segments_sound candidate.segments path these left e),
            (ends_match-MayBeLeft candidate.has_wildcard left).0 (ground arith),
          )
    ]

    back :
        (left : Bytes) × Spells candidate.segments captures left path
          × MayBeLeft candidate.has_wildcard left
        → match path candidate ≡ some captures
    back (left, v, m) = ground (
      arith,
      match_segments_complete candidate.segments path captures left v,
      (ends_match-MayBeLeft candidate.has_wildcard left).1 m,
    )
