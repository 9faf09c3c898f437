-- ===== src/Request/Target/Grammar.antt =====
-- The forms of a request target, and that `split_target` tells them apart.
use erikslund_http_embedded.Prelude.{
  ℕ, ◌+◌, ◌<◌, ◌≡◌, refl, sym, ap, ap₂, subst, ◌∙◌, ◌≢◌, ◌⊎◌, inl, inr, true, false, not, ◌&&◌,
  ◌||◌, [], ◌∷◌, ◌++◌, arith, ◌==◌, Bool-cases, Option-cases, Bytes, codes, is_empty, Lacks,
  cut_cases, find_string, find_string-at, take, drop, All, every, ok, Result-cases,
}
use erikslund_http_embedded.Request.Target.{
  TargetParts, begins_with, cut_authority, split_absolute, split_path, split_target,
}
use erikslund_http_embedded.Text.Ascii.{
  equals_ignore_case, equals_ignore_case_iff, lower, ascii_to_lower,
}
use erikslund_http_embedded.Request.Chars.{is_valid_target_byte}

-- What may stand behind an authority.
abbrev pub IsRemainder : Bytes → Type 0
IsRemainder [] = Unit
IsRemainder (c ∷ s) = (c ≡ b'/') ⊎ (c ≡ b'?')

-- The absolute form: a scheme, an authority up to the first "/" or "?", and what is left.
abbrev pub IsAbsolute : Bytes → Bytes → Bytes → Type 0
IsAbsolute target authority remainder =
    (scheme : Bytes) × (target ≡ scheme ++ (codes "://" ++ (authority ++ remainder)))
    × ((lower scheme ≡ codes "http") ⊎ (lower scheme ≡ codes "https"))
    × (authority ≢ [])
    × All (λ c. (c ≢ b'/') × (c ≢ b'?')) authority
    × IsRemainder remainder

-- The origin form names no server.
abbrev pub HasRemainder : Bytes → Bytes → Bytes → Type 0
HasRemainder target authority remainder =
    (((rest : Bytes) × (target ≡ b'/' ∷ rest)) × (authority ≡ []) × (remainder ≡ target))
    ⊎ IsAbsolute target authority remainder

-- The path and the query, with "/" for a path that is left out.
abbrev pub SplitsQuery : Bytes → Bytes → Bytes → Type 0
SplitsQuery remainder path query =
    (before : Bytes) × Lacks b'?' before
    × (((remainder ≡ before) × (query ≡ [])) ⊎ (remainder ≡ before ++ (b'?' ∷ query)))
    × (((before ≡ []) × (path ≡ codes "/"))
        ⊎ ((path ≡ before) × ((rest : Bytes) × (path ≡ b'/' ∷ rest))))

abbrev pub IsTargetByte : ℕ → Type 0
IsTargetByte c = (0x20 < c) × (c ≢ 0x7F) × (c ≢ b'#')

-- What the parts of a target are.
pub record IsTargetOf (target authority path query : Bytes) : Type 0 where
  pub clean : All IsTargetByte target
  pub remainder : Bytes
  pub has_remainder : HasRemainder target authority remainder
  pub splits_query : SplitsQuery remainder path query

clean_target : (s : Bytes) → every is_valid_target_byte s ≡ true → All IsTargetByte s
unfolding every is_valid_target_byte
clean_target [] h = tt
clean_target (c ∷ s) h =
    ((ground arith, (λ e. ground arith), (λ e. ground arith)), clean_target s (ground arith))

begins : (s : Bytes) (c : ℕ) → begins_with s c ≡ true → (rest : Bytes) × (s ≡ c ∷ rest)
begins [] c h = cc
begins (x ∷ s) c h = (s, ap (λ y. y ∷ s) (ground arith))

split_path_sound :
    (authority remainder : Bytes) (parts : TargetParts)
    → split_path authority remainder ≡ ok parts
    → SplitsQuery remainder parts.path parts.query × (parts.authority ≡ authority)
unfolding split_path
split_path_sound authority remainder parts h = elim (cut_cases b'?' remainder) [
  | inl (e, _, free) ↦ elim (Bool-cases (is_empty remainder)) [
    | inl k ↦ (
      (remainder, free, inl (refl, ground arith), inl (ground arith, ground arith)),
      ground arith,
    )
    | inr k ↦ elim (Bool-cases (begins_with remainder b'/')) [
      | inl b ↦
          let same : parts.path ≡ remainder = ground arith in
          let (rest, f) = begins remainder b'/' b in
          ((remainder, free, inl (refl, ground arith), inr (same, (rest, same ∙ f))), ground arith)
      | inr b ↦ absurd (ground arith)
    ]
  ]
  | inr (before, query, e, _, g, free, _) ↦
      let asked : parts.query ≡ query = ground arith in
      let cut_here = g ∙ ap (λ q. before ++ (b'?' ∷ q)) (sym asked) in
      elim (Bool-cases (is_empty before)) [
        | inl k ↦ ((before, free, inr cut_here, inl (ground arith, ground arith)), ground arith)
        | inr k ↦ elim (Bool-cases (begins_with before b'/')) [
          | inl b ↦
              let same : parts.path ≡ before = ground arith in
              let (rest, f) = begins before b'/' b in
              ((before, free, inr cut_here, inr (same, (rest, same ∙ f))), ground arith)
          | inr b ↦ absurd (ground arith)
        ]
      ]
]

cut_authority_lem :
    (s : Bytes)
    → (s ≡ (cut_authority s).0 ++ (cut_authority s).1)
      × All (λ c. (c ≢ b'/') × (c ≢ b'?')) (cut_authority s).0
      × IsRemainder (cut_authority s).1
unfolding cut_authority
cut_authority_lem [] = (refl, tt, tt)
cut_authority_lem (c ∷ s) =
    let (e, free, rest) = cut_authority_lem s in
    elim (Bool-cases (c == b'/' || c == b'?')) [
      | inl k ↦ rw k (refl, tt, ground arith)
      | inr k ↦ rw k (ap (◌∷◌ c) e, (((λ f. ground arith), (λ f. ground arith)), free), rest)
    ]

schemes :
    (scheme : Bytes)
    → (not (equals_ignore_case scheme (codes "http"))
        && not (equals_ignore_case scheme (codes "https")))
      ≡ false
    → (lower scheme ≡ codes "http") ⊎ (lower scheme ≡ codes "https")
unfolding ascii_to_lower
schemes scheme h = elim (Bool-cases (equals_ignore_case scheme (codes "http"))) [
  | inl e ↦ inl ((equals_ignore_case_iff scheme (codes "http")).0 e)
  | inr e ↦ inr ((equals_ignore_case_iff scheme (codes "https")).0 (ground arith))
]

split_absolute_sound :
    (target authority remainder : Bytes)
    → split_absolute target ≡ ok (authority, remainder)
    → IsAbsolute target authority remainder
unfolding split_absolute
split_absolute_sound target authority remainder h =
    elim (Option-cases (find_string (codes "://") target)) [
      | inl e ↦ absurd (ground arith)
      | inr (i, e) ↦
          let scheme = take i target in
          let (g, free, rest) = cut_authority_lem (drop (i + 3) target) in
          let first : (cut_authority (drop (i + 3) target)).0 ≡ authority = ground arith in
          let second : (cut_authority (drop (i + 3) target)).1 ≡ remainder = ground arith in
          (
            scheme,
            find_string-at b':' (codes "//") target e
                ∙ ap (λ t. scheme ++ (codes "://" ++ t)) (g ∙ ap₂ (λ a r. a ++ r) first second),
            schemes scheme (ground arith),
            (λ k. ground arith),
            subst (All (λ c. (c ≢ b'/') × (c ≢ b'?'))) first free,
            subst IsRemainder second rest,
          )
    ]

pub split_target_sound :
    (target : Bytes) (parts : TargetParts)
    → split_target target ≡ ok parts
    → IsTargetOf target parts.authority parts.path parts.query
unfolding split_target
split_target_sound target parts h =
    let clean = clean_target target (ground arith) in
    elim (Bool-cases (begins_with target b'/')) [
      | inl e ↦
          let (splits, named) = split_path_sound [] target parts (ground arith) in
          record {
            clean = clean;
            remainder = target;
            has_remainder = inl (begins target b'/' e, named, refl);
            splits_query = splits;
          }
      | inr e ↦ elim (Result-cases (split_absolute target)) [
        | inr (error, f) ↦ absurd (ground arith)
        | inl ((authority, remainder), f) ↦
            let (splits, named) = split_path_sound authority remainder parts (ground arith) in
            record {
              clean = clean;
              remainder = remainder;
              has_remainder = inr (
                  subst (λ a. IsAbsolute target a remainder) (sym named)
                    (split_absolute_sound target authority remainder f));
              splits_query = splits;
            }
      ]
    ]
