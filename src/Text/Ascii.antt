-- ===== src/Text/Ascii.antt =====
-- ASCII case folding: include/erikslund/http/text.hpp, lines 34 to 48. A `char` is its byte.
use erikslund_http_embedded.Prelude.{
  ℕ, suc, ◌+◌, ◌≡◌, refl, ap, ◌↔◌, Bool, true, false, ◌&&◌, [], ◌∷◌, map, arith, leb, ◌==◌,
  if◌then◌else◌, length, Bytes,
}

-- 'a' - 'A' is 32; the sum stays below 'z' + 1, so the cast back to `char` changes nothing.
unfoldable pub ascii_to_lower : ℕ → ℕ
ascii_to_lower character =
    if leb b'A' character && leb character b'Z' then character + 32 else character

-- The loop of `equals_ignore_case`, on views whose sizes have been compared.
unfoldable pub same_ignoring_case : Bytes → Bytes → Bool
same_ignoring_case [] right = true
same_ignoring_case (l ∷ left) [] = true
same_ignoring_case (l ∷ left) (r ∷ right) =
    ascii_to_lower l == ascii_to_lower r && same_ignoring_case left right

unfoldable pub equals_ignore_case : Bytes → Bytes → Bool
unfolding same_ignoring_case
equals_ignore_case left right =
    if length left == length right then same_ignoring_case left right else false

abbrev pub lower : Bytes → Bytes
lower = map ascii_to_lower

same_ignoring_case_iff :
    (left right : Bytes)
    → length left ≡ length right
    → (same_ignoring_case left right ≡ true) ↔ (lower left ≡ lower right)
unfolding same_ignoring_case
same_ignoring_case_iff [] [] h = (λ _. refl, λ _. refl)
same_ignoring_case_iff [] (r ∷ right) h = absurd (omega arith)
same_ignoring_case_iff (l ∷ left) [] h = absurd (omega arith)
same_ignoring_case_iff (l ∷ left) (r ∷ right) h =
    let ih = same_ignoring_case_iff left right (omega arith) in
    (λ e. ground (arith, ih.0), λ e. ground (arith, ih.1))

pub length-lower : (s : Bytes) → length (lower s) ≡ length s
length-lower [] = refl
length-lower (c ∷ s) = ap suc (length-lower s)

-- Two views are equal without case exactly when their lower-case forms are equal.
pub equals_ignore_case_iff :
    (left right : Bytes) → (equals_ignore_case left right ≡ true) ↔ (lower left ≡ lower right)
unfolding equals_ignore_case
equals_ignore_case_iff left right = (there, back)
  where
    there : equals_ignore_case left right ≡ true → lower left ≡ lower right
    there h = (same_ignoring_case_iff left right (ground arith)).0 (ground arith)

    back : lower left ≡ lower right → equals_ignore_case left right ≡ true
    back e =
        let same : length left ≡ length right =
          omega (arith, length-lower left, length-lower right, ap length e) in
        ground (arith, (same_ignoring_case_iff left right same).1 e)
