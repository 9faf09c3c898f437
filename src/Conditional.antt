-- ===== src/Conditional.antt =====
-- src/conditional_request.cpp: whether an If-None-Match field names an entity tag.
use erikslund_http_embedded.Prelude.{
  ℕ, Bytes, Bool, length, zero, suc, ◌+◌, ◌<◌, ◌≡◌, refl, inl, inr, true, false, not, ◌&&◌, ◌||◌,
  none, some, List, [], ◌∷◌, arith, if◌then◌else◌, codes, is_empty, bytes_eq, starts_with, cut,
  split, cut_cases, drop, sym, ap, subst, ◌∙◌, ◌≢◌, ◌↔◌, ◌⊎◌, ◌++◌, Bool-cases, if_true,
  bytes_eq_iff, starts_with-append, starts_with-drop, Some,
}
use erikslund_http_embedded.Request.Chars.{trim_optional_whitespace}
use erikslund_http_embedded.Request.Chars.Padding.{IsTrimOf, trim-IsTrimOf, trim_of_IsTrimOf}

unfoldable pub without_weak_marker : Bytes → Bytes
without_weak_marker tag = if starts_with tag (codes "W/") then drop 2 tag else tag

-- One candidate of the list.
unfoldable pub names_entity : Bytes → Bytes → Bool
unfolding without_weak_marker
names_entity wanted piece =
    let candidate = trim_optional_whitespace piece in
    bytes_eq candidate (codes "*")
    || (not (is_empty candidate) && bytes_eq (without_weak_marker candidate) wanted)

-- The loop, with the field behind the cursor.
unfoldable pub candidates_match : ℕ → Bytes → Bytes → Bool
unfolding names_entity
candidates_match zero wanted field = false
candidates_match (suc fuel) wanted field =
    let (piece, after) = cut b',' field in
    let later : Bool = elim after [ none ↦ false | some r ↦ candidates_match fuel wanted r ] in
    if names_entity wanted piece then true else later

unfoldable pub if_none_match_matches : Bytes → Bytes → Bool
unfolding candidates_match
if_none_match_matches field etag =
    if is_empty etag
    then false
    else candidates_match (length field + 1) (without_weak_marker etag) field

-- Some member of the list passes.
some_member : (Bytes → Bool) → List Bytes → Bool
some_member test [] = false
some_member test (piece ∷ pieces) = test piece || some_member test pieces

some_member_iff :
    (test : Bytes → Bool) (P : Bytes → Type 0)
    → ((piece : Bytes) → (test piece ≡ true) ↔ P piece)
    → (pieces : List Bytes) → (some_member test pieces ≡ true) ↔ Some P pieces
unfolding some_member
some_member_iff test P same [] = (λ e. cc, λ k. absurd k)
some_member_iff test P same (piece ∷ pieces) =
    let ih = some_member_iff test P same pieces in
    elim (Bool-cases (test piece)) [
      | inl e ↦ rw e (λ k. inl ((same piece).0 e), λ k. refl)
      | inr e ↦ rw e (
        λ k. inr (ih.0 k),
        λ k. elim k [ inl p ↦ absurd (ground (arith, (same piece).1 p)) | inr later ↦ ih.1 later ],
      )
    ]

candidates_match-split :
    (fuel : ℕ) (wanted field : Bytes)
    → length field < fuel
    → candidates_match fuel wanted field ≡ some_member (names_entity wanted) (split b',' field)
unfolding candidates_match some_member
candidates_match-split zero wanted field h = absurd (omega arith)
candidates_match-split (suc fuel) wanted field h = elim (cut_cases b',' field) [
  | inl (e, f, _) ↦ rw (e, f) (ground arith)
  | inr (p, r, e, f, _, _, l) ↦
      rw (e, f) (ground (arith, candidates_match-split fuel wanted r (omega arith)))
]

-- What a tag is with a weak marker in front of it, or as it is when none stands there.
abbrev pub Strips : Bytes → Bytes → Type 0
Strips tag core =
    (tag ≡ codes "W/" ++ core) ⊎ ((tag ≡ core) × ((rest : Bytes) → tag ≢ (codes "W/" ++ rest)))

without_weak_marker-Strips : (tag : Bytes) → Strips tag (without_weak_marker tag)
unfolding without_weak_marker
without_weak_marker-Strips tag = elim (Bool-cases (starts_with tag (codes "W/"))) [
  | inl e ↦ rw e (inl (starts_with-drop tag (codes "W/") e))
  | inr e ↦ rw e (
      inr (
        refl,
        λ rest same. absurd (
            ground (
              arith,
              ap (λ t. starts_with t (codes "W/")) same,
              starts_with-append (codes "W/") rest,
            )),
      ))
]

without_weak_marker_of_Strips :
    (tag core : Bytes) → Strips tag core → without_weak_marker tag ≡ core
unfolding without_weak_marker
without_weak_marker_of_Strips tag core (inl e) =
    ap without_weak_marker e ∙ if_true _ _ (starts_with-append (codes "W/") core)
without_weak_marker_of_Strips tag core (inr (e, bare)) = elim (without_weak_marker-Strips tag) [
  | inl f ↦ absurd (bare _ f)
  | inr (f, _) ↦ sym f ∙ e
]

-- A member of the list names a tag: without the space around it, it is "*", or not empty and the
-- same as the tag behind the weak markers of both.
abbrev pub NamesTag : Bytes → Bytes → Type 0
NamesTag etag piece =
    (candidate : Bytes) × IsTrimOf candidate piece
    × ((candidate ≡ codes "*")
        ⊎ ((candidate ≢ []) × ((core : Bytes) × Strips candidate core × Strips etag core)))

abbrev IsStarOrTag : Bytes → Bytes → Type 0
IsStarOrTag etag candidate =
    (candidate ≡ codes "*")
    ⊎ ((candidate ≢ []) × ((core : Bytes) × Strips candidate core × Strips etag core))

names_candidate : Bytes → Bytes → Bool
names_candidate etag candidate =
    bytes_eq candidate (codes "*")
    || (not (is_empty candidate)
        && bytes_eq (without_weak_marker candidate) (without_weak_marker etag))

names_candidate_there :
    (etag candidate : Bytes) → names_candidate etag candidate ≡ true → IsStarOrTag etag candidate
unfolding names_candidate
names_candidate_there etag candidate h = elim (Bool-cases (bytes_eq candidate (codes "*"))) [
  | inl e ↦ inl ((bytes_eq_iff candidate (codes "*")).0 e)
  | inr e ↦
      let same = bytes_eq_iff (without_weak_marker candidate) (without_weak_marker etag) in
      inr (
        (λ empty. ground (arith, ap is_empty empty)),
        (
          without_weak_marker etag,
          subst (Strips candidate) (same.0 (ground arith)) (without_weak_marker-Strips candidate),
          without_weak_marker-Strips etag,
        ),
      )
]

names_candidate_back :
    (etag candidate : Bytes) → IsStarOrTag etag candidate → names_candidate etag candidate ≡ true
unfolding names_candidate
names_candidate_back etag candidate (inl e) =
    ground (arith, (bytes_eq_iff candidate (codes "*")).1 e)
names_candidate_back etag [] (inr (full, _)) = absurd (full refl)
names_candidate_back etag (c ∷ candidate) (inr (full, (core, f, g))) =
    let same =
      without_weak_marker_of_Strips (c ∷ candidate) core f
      ∙ sym (without_weak_marker_of_Strips etag core g) in
    ground (
      arith,
      (bytes_eq_iff (without_weak_marker (c ∷ candidate)) (without_weak_marker etag)).1 same,
    )

names_entity_iff :
    (etag piece : Bytes)
    → (names_entity (without_weak_marker etag) piece ≡ true) ↔ NamesTag etag piece
unfolding names_entity names_candidate
names_entity_iff etag piece = (
  λ h. (
    trim_optional_whitespace piece,
    trim-IsTrimOf piece,
    names_candidate_there etag (trim_optional_whitespace piece) h,
  ),
  λ (candidate, trimmed, k).
      ap (names_candidate etag) (trim_of_IsTrimOf candidate piece trimmed)
      ∙ names_candidate_back etag candidate k,
)

-- A field matches a tag exactly when the tag is not empty and some member between the field's commas
-- is, without the space around it, "*", or not empty and the tag, weak markers aside.
pub if_none_match_matches_lem :
    (field etag : Bytes)
    → (if_none_match_matches field etag ≡ true)
      ↔ ((etag ≢ []) × Some (NamesTag etag) (split b',' field))
unfolding if_none_match_matches
if_none_match_matches_lem field [] = (λ e. cc, λ (full, _). absurd (full refl))
if_none_match_matches_lem field (c ∷ etag) =
    let tag : Bytes = c ∷ etag in
    let whole =
      candidates_match-split (length field + 1) (without_weak_marker tag) field (omega arith) in
    let some_iff =
      some_member_iff (names_entity (without_weak_marker tag)) (NamesTag tag) (names_entity_iff tag)
        (split b',' field) in
    (λ e. ((λ empty. cc), some_iff.0 (sym whole ∙ e)), λ (_, k). whole ∙ some_iff.1 k)
