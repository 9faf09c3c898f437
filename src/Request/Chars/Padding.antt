-- ===== src/Request/Chars/Padding.antt =====
-- What trimming optional whitespace takes away, told without the trimming.
use erikslund_http_embedded.Prelude.{
  ℕ, ◌≡◌, refl, ap, ◌∙◌, ◌↔◌, ◌⊎◌, inl, inr, true, ◌&&◌, [], ◌∷◌, ◌++◌, arith, Bool-cases, if_true,
  if_false, Bytes, is_empty, All,
}
use erikslund_http_embedded.Request.Chars.Trim.{
  IsTrimmed, trim-IsTrimmed, trim_back-cons, trim_back_of_clear,
}
use erikslund_http_embedded.Request.Chars.{
  is_optional_whitespace, trim_back, trim_front, trim_optional_whitespace,
}

abbrev pub IsSpace : ℕ → Type 0
IsSpace c = (c ≡ 32) ⊎ (c ≡ 9)

-- A trimmed part of a piece: around it stand spaces and tabs only.
abbrev pub IsTrimOf : Bytes → Bytes → Type 0
IsTrimOf part piece =
    IsTrimmed part
    × ((before : Bytes) × (after : Bytes) × (piece ≡ before ++ (part ++ after))
        × All IsSpace before
        × All IsSpace after)

is_optional_whitespace_iff : (c : ℕ) → (is_optional_whitespace c ≡ true) ↔ IsSpace c
unfolding is_optional_whitespace
is_optional_whitespace_iff c = (λ e. ground arith, λ h. ground arith)

trim_front-splits :
    (s : Bytes) → (before : Bytes) × (s ≡ before ++ trim_front s) × All IsSpace before
unfolding trim_front
trim_front-splits [] = ([], refl, tt)
trim_front-splits (c ∷ s) = elim (Bool-cases (is_optional_whitespace c)) [
  | inl e ↦
      let (before, same, h) = trim_front-splits s in
      rw e (c ∷ before, ap (◌∷◌ c) same, ((is_optional_whitespace_iff c).0 e, h))
  | inr e ↦ rw e ([], refl, tt)
]

trim_back-splits : (s : Bytes) → (after : Bytes) × (s ≡ trim_back s ++ after) × All IsSpace after
trim_back-splits [] = unfold trim_back in ([], refl, tt)
trim_back-splits (c ∷ s) =
    let (after, same, h) = trim_back-splits s in
    elim (Bool-cases (is_optional_whitespace c && is_empty (trim_back s))) [
      | inl e ↦
          let none_left : trim_back s ≡ [] = ground arith in
          let all_of : s ≡ after = same ∙ ap (λ t. t ++ after) none_left in
          rw (trim_back-cons c s, e)
            (c ∷ after, ap (◌∷◌ c) all_of, ((is_optional_whitespace_iff c).0 (ground arith), h))
      | inr e ↦ rw (trim_back-cons c s, e) (after, ap (◌∷◌ c) same, h)
    ]

-- What trimming leaves is a trimmed part.
pub trim-IsTrimOf : (s : Bytes) → IsTrimOf (trim_optional_whitespace s) s
unfolding trim_optional_whitespace
trim-IsTrimOf s =
    let (before, e, h) = trim_front-splits s in
    let (after, f, k) = trim_back-splits (trim_front s) in
    (trim-IsTrimmed s, (before, after, e ∙ ap (λ t. before ++ t) f, h, k))

trim_front-padded :
    (before s : Bytes) → All IsSpace before → trim_front (before ++ s) ≡ trim_front s
unfolding trim_front
trim_front-padded [] s h = refl
trim_front-padded (c ∷ before) s (p, h) =
    if_true _ _ ((is_optional_whitespace_iff c).1 p) ∙ trim_front-padded before s h

trim_back_of_space : (after : Bytes) → All IsSpace after → trim_back after ≡ []
trim_back_of_space [] h = unfold trim_back in refl
trim_back_of_space (c ∷ after) (p, h) =
    rw (trim_back-cons c after, trim_back_of_space after h, (is_optional_whitespace_iff c).1 p) refl

trim_back-padded : (s after : Bytes) → All IsSpace after → trim_back (s ++ after) ≡ trim_back s
trim_back-padded [] after h = unfold trim_back in trim_back_of_space after h
trim_back-padded (c ∷ s) after h =
    rw (trim_back-cons c (s ++ after), trim_back-cons c s, trim_back-padded s after h) refl

trim_front_of_space : (after : Bytes) → All IsSpace after → trim_front after ≡ []
unfolding trim_front
trim_front_of_space [] h = refl
trim_front_of_space (c ∷ after) (p, h) =
    if_true _ _ ((is_optional_whitespace_iff c).1 p) ∙ trim_front_of_space after h

trim-between :
    (part after : Bytes)
    → IsTrimmed part
    → All IsSpace after
    → trim_back (trim_front (part ++ after)) ≡ part
unfolding trim_front
trim-between [] after t k = rw (trim_front_of_space after k) (unfold trim_back in refl)
trim-between (c ∷ s) after t k =
    ap trim_back (if_false _ _ t.0)
    ∙ (trim_back-padded (c ∷ s) after k ∙ trim_back_of_clear (c ∷ s) t.1)

-- Trimming leaves the one trimmed part that there is.
pub trim_of_IsTrimOf :
    (part piece : Bytes) → IsTrimOf part piece → trim_optional_whitespace piece ≡ part
unfolding trim_optional_whitespace
trim_of_IsTrimOf part piece (t, (before, after, e, h, k)) =
    ap (λ s. trim_back (trim_front s)) e
    ∙ (ap trim_back (trim_front-padded before (part ++ after) h) ∙ trim-between part after t k)
