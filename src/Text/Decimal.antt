-- ===== src/Text/Decimal.antt =====
-- `std::to_chars` and `std::to_string` for numbers that are not negative: the decimal digits.
use erikslund_http_embedded.Prelude.{
  ℕ, Bytes, length, zero, suc, ◌+◌, ◌-◌, ◌*◌, ◌/◌, ◌%◌, ◌^◌, ◌≤◌, ◌<◌, ◌≡◌, refl, ◌∙◌, ◌≢◌, ◌⊎◌,
  inl, inr, true, false, [], ◌∷◌, ◌++◌, arith, ltb, if◌then◌else◌, Bool-cases, All, All-append, ok,
  ◌==◌, lt→ltb, is_empty, All→every,
}
use erikslund_http_embedded.Request.Length.{parse_decimal, decimal_value, has_leading_zero}
use erikslund_http_embedded.Request.Chars.{is_decimal_digit}

-- More fuel than the number has digits.
unfoldable pub digits_from : ℕ → ℕ → Bytes
digits_from zero n = []
digits_from (suc fuel) n =
    let before = digits_from fuel (n / 10) in
    if ltb n 10 then (b'0' + n) ∷ [] else before ++ ((b'0' + n % 10) ∷ [])

unfoldable pub decimal : ℕ → Bytes
unfolding digits_from
decimal n = digits_from (n + 1) n

decimal_value-append :
    (acc : ℕ) (s : Bytes) (d : ℕ)
    → decimal_value acc (s ++ (d ∷ [])) ≡ decimal_value acc s * 10 + (d - b'0')
unfolding decimal_value
decimal_value-append acc [] d = refl
decimal_value-append acc (c ∷ s) d = decimal_value-append (acc * 10 + (c - b'0')) s d

digits_value : (fuel n : ℕ) → n < fuel → decimal_value 0 (digits_from fuel n) ≡ n
unfolding digits_from
digits_value zero n h = absurd (omega arith)
digits_value (suc fuel) n h = elim (Bool-cases (ltb n 10)) [
  | inl e ↦ rw e (unfold decimal_value in omega arith)
  | inr e ↦
      let big : 10 ≤ n = ground arith in
      let ih = digits_value fuel (n / 10) (omega arith) in
      rw e (decimal_value-append 0 (digits_from fuel (n / 10)) (b'0' + n % 10) ∙ omega (arith, ih))
]

IsDigits : Bytes → Type 0
IsDigits = All (λ c. is_decimal_digit c ≡ true)

digits_from-IsDigits : (fuel n : ℕ) → IsDigits (digits_from fuel n)
unfolding digits_from IsDigits is_decimal_digit
digits_from-IsDigits zero n = tt
digits_from-IsDigits (suc fuel) n = elim (Bool-cases (ltb n 10)) [
  | inl e ↦ rw e (ground arith, tt)
  | inr e ↦ rw e (
      All-append _ (digits_from fuel (n / 10)) _ (digits_from-IsDigits fuel (n / 10))
        (ground arith, tt))
]

-- The first digit is 0 for the number 0 alone.
StartsWell : ℕ → Bytes → Type 0
StartsWell n [] = ⊥
StartsWell n (c ∷ s) = (n ≡ 0) ⊎ (c ≢ b'0')

StartsWell-append : (n m : ℕ) (s t : Bytes) → 0 < m → StartsWell m s → StartsWell n (s ++ t)
unfolding StartsWell
StartsWell-append n m [] t h v = absurd v
StartsWell-append n m (c ∷ s) t h (inl e) = absurd (omega arith)
StartsWell-append n m (c ∷ s) t h (inr e) = inr e

digits_from-StartsWell : (fuel n : ℕ) → n < fuel → StartsWell n (digits_from fuel n)
unfolding digits_from
digits_from-StartsWell zero n h = absurd (omega arith)
digits_from-StartsWell (suc fuel) n h = elim (Bool-cases (ltb n 10)) [
  | inl e ↦ rw e (
      unfold StartsWell in
      elim (Bool-cases (n == 0)) [ inl z ↦ inl (ground arith) | inr z ↦ inr (λ k. ground arith) ])
  | inr e ↦
      let big : 10 ≤ n = ground arith in
      rw e (
        StartsWell-append n (n / 10) (digits_from fuel (n / 10)) ((b'0' + n % 10) ∷ [])
          (omega arith) (digits_from-StartsWell fuel (n / 10) (omega arith)))
]

no_leading_zero :
    (n : ℕ) (s : Bytes) → StartsWell n s → (n ≡ 0 → length s ≡ 1) → has_leading_zero s ≡ false
unfolding StartsWell
no_leading_zero n [] v one = refl
no_leading_zero n (c ∷ []) v one = refl
no_leading_zero n (c ∷ d ∷ s) (inl e) one = absurd (omega (arith, one e))
no_leading_zero n (c ∷ d ∷ s) (inr e) one = ground arith

not_empty : (n : ℕ) (s : Bytes) → StartsWell n s → is_empty s ≡ false
unfolding StartsWell
not_empty n [] v = absurd v
not_empty n (c ∷ s) v = refl

length-decimal_zero : (n : ℕ) → n ≡ 0 → length (digits_from (n + 1) n) ≡ 1
unfolding digits_from
length-decimal_zero n e = rw e refl

pub decimal-digits : (n : ℕ) → All (λ c. is_decimal_digit c ≡ true) (decimal n)
unfolding decimal IsDigits
decimal-digits n = digits_from-IsDigits (n + 1) n

-- The digits of a number of 64 bits are read back as that number.
pub parse_decimal-decimal : (n : ℕ) → n < 2 ^ 64 → parse_decimal (decimal n) ≡ ok n
unfolding parse_decimal decimal
parse_decimal-decimal n h =
    let start = digits_from-StartsWell (n + 1) n (omega arith) in
    rw (not_empty n (digits_from (n + 1) n) start) (
      rw
        (All→every is_decimal_digit (digits_from (n + 1) n)
          (unfold IsDigits in digits_from-IsDigits (n + 1) n))
        (rw (no_leading_zero n (digits_from (n + 1) n) start (length-decimal_zero n))
          (rw (digits_value (n + 1) n (omega arith)) (rw (lt→ltb n (2 ^ 64) h) refl))))
