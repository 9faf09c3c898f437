-- ===== src/Request/Chars/Trim.antt =====
-- Trimming optional whitespace: what it leaves begins and ends with another byte.
use erikslund_http_embedded.Prelude.{
  ℕ, ◌≡◌, refl, inl, inr, false, ◌&&◌, [], ◌∷◌, arith, Bool-cases, Bytes, is_empty, All,
  if◌then◌else◌,
}
use erikslund_http_embedded.Request.Chars.{
  trim_front, trim_back, trim_optional_whitespace, is_optional_whitespace,
}

-- The first and the last byte are no whitespace.
abbrev pub StartsClear : Bytes → Type 0
StartsClear [] = Unit
StartsClear (c ∷ s) = is_optional_whitespace c ≡ false

abbrev pub EndsClear : Bytes → Type 0
EndsClear [] = Unit
EndsClear (c ∷ []) = is_optional_whitespace c ≡ false
EndsClear (c ∷ d ∷ s) = EndsClear (d ∷ s)

abbrev pub IsTrimmed : Bytes → Type 0
IsTrimmed s = StartsClear s × EndsClear s

trim_front-StartsClear : (s : Bytes) → StartsClear (trim_front s)
unfolding trim_front
trim_front-StartsClear [] = tt
trim_front-StartsClear (c ∷ s) = ground (arith, trim_front-StartsClear s)

trim_back-StartsClear : (s : Bytes) → StartsClear s → StartsClear (trim_back s)
unfolding trim_back
trim_back-StartsClear [] h = tt
trim_back-StartsClear (c ∷ s) h = ground arith

EndsClear-cons :
    (c : ℕ) (s : Bytes)
    → EndsClear s
    → (s ≡ [] → is_optional_whitespace c ≡ false)
    → EndsClear (c ∷ s)
EndsClear-cons c [] h k = k refl
EndsClear-cons c (d ∷ s) h k = h

trim_back-EndsClear : (s : Bytes) → EndsClear (trim_back s)
unfolding trim_back
trim_back-EndsClear [] = tt
trim_back-EndsClear (c ∷ s) =
    elim (Bool-cases (is_optional_whitespace c && is_empty (trim_back s))) [
      | inl e ↦ rw e tt
      | inr e ↦ rw e (EndsClear-cons c (trim_back s) (trim_back-EndsClear s) (λ k. ground arith))
    ]

pub trim-IsTrimmed : (s : Bytes) → IsTrimmed (trim_optional_whitespace s)
unfolding trim_optional_whitespace
trim-IsTrimmed s = (
  trim_back-StartsClear (trim_front s) (trim_front-StartsClear s),
  trim_back-EndsClear (trim_front s),
)

trim_front_of_clear : (s : Bytes) → StartsClear s → trim_front s ≡ s
unfolding trim_front
trim_front_of_clear [] h = refl
trim_front_of_clear (c ∷ s) h = ground arith

pub trim_back-cons :
    (c : ℕ) (s : Bytes)
    → trim_back (c ∷ s)
      ≡ (if is_optional_whitespace c && is_empty (trim_back s) then [] else c ∷ trim_back s)
unfolding trim_back
trim_back-cons c s = refl

full_tail : (c d : ℕ) (s : Bytes) → trim_back (d ∷ s) ≡ d ∷ s → trim_back (c ∷ d ∷ s) ≡ c ∷ d ∷ s
full_tail c d s h = rw (trim_back-cons c (d ∷ s), h) (ground arith)

pub trim_back_of_clear : (s : Bytes) → EndsClear s → trim_back s ≡ s
unfolding trim_back
trim_back_of_clear [] h = refl
trim_back_of_clear (c ∷ []) h = ground arith
trim_back_of_clear (c ∷ d ∷ s) h = full_tail c d s (trim_back_of_clear (d ∷ s) h)

-- Trimming leaves a trimmed view alone.
pub trim_of_IsTrimmed : (s : Bytes) → IsTrimmed s → trim_optional_whitespace s ≡ s
unfolding trim_optional_whitespace
trim_of_IsTrimmed s (a, b) = rw (trim_front_of_clear s a) (trim_back_of_clear s b)

-- A space in front is trimmed away.
pub trim-space : (s : Bytes) → trim_optional_whitespace (b' ' ∷ s) ≡ trim_optional_whitespace s
unfolding trim_optional_whitespace
trim-space s = refl

module _ (P : ℕ → Type 0) where
  trim_front-All : (s : Bytes) → All P s → All P (trim_front s)
  unfolding trim_front
  trim_front-All [] h = tt
  trim_front-All (c ∷ s) h = elim (Bool-cases (is_optional_whitespace c)) [
    | inl e ↦ rw e (trim_front-All s h.1)
    | inr e ↦ rw e h
  ]

  trim_back-All : (s : Bytes) → All P s → All P (trim_back s)
  trim_back-All [] h = unfold trim_back in tt
  trim_back-All (c ∷ s) h = elim (Bool-cases (is_optional_whitespace c && is_empty (trim_back s))) [
    | inl e ↦ rw (trim_back-cons c s, e) tt
    | inr e ↦ rw (trim_back-cons c s, e) (h.0, trim_back-All s h.1)
  ]

  -- What holds of every byte holds of every byte that trimming leaves.
  pub trim-All : (s : Bytes) → All P s → All P (trim_optional_whitespace s)
  unfolding trim_optional_whitespace
  trim-All s h = trim_back-All (trim_front s) (trim_front-All s h)
