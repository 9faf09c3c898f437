-- ===== src/Text/Secrets.antt =====
-- `constant_time_equals` of src/text.cpp.
use erikslund_http_embedded.Prelude.{
  ℕ, bit_xor, bit_or, ◌≡◌, refl, Bool, true, false, not, ◌&&◌, [], ◌∷◌, ltb, ◌==◌, if◌then◌else◌,
  Bytes, length, all_below, ◌<◌, ap, ◌↔◌, inl, inr, arith, ltb→lt, ==_iff, Bool-cases, &&-eq-true,
  All, all_below-lt,
}

-- The loop, on views whose sizes have been compared.
unfoldable pub differences : ℕ → Bytes → Bytes → ℕ
differences difference [] right = difference
differences difference (l ∷ left) [] = difference
differences difference (l ∷ left) (r ∷ right) =
    differences (bit_or difference (bit_xor l r)) left right

unfoldable pub constant_time_equals : Bytes → Bytes → Bool
unfolding differences
constant_time_equals left right =
    if not (length left == length right) then false else differences 0 left right == 0

agrees : ℕ → ℕ → Bool
agrees l r = (if bit_xor l r == 0 then l == r else not (l == r)) && ltb (bit_xor l r) 256

gathers : ℕ → ℕ → Bool
gathers d x =
    (if bit_or d x == 0 then d == 0 && x == 0 else not (d == 0 && x == 0)) && ltb (bit_or d x) 256

agrees_table : all_below 256 (λ l. all_below 256 (agrees l)) ≡ true
unfolding all_below agrees
agrees_table = refl

gathers_table : all_below 256 (λ d. all_below 256 (gathers d)) ≡ true
unfolding all_below gathers
gathers_table = refl

-- Of two bytes the digits differ in no place just if they are equal.
bit_xor-zero : (l r : ℕ) → l < 256 → r < 256 → ((bit_xor l r ≡ 0) ↔ (l ≡ r)) × (bit_xor l r < 256)
bit_xor-zero l r hl hr =
    let e : agrees l r ≡ true =
      all_below-lt 256 (agrees l) r
        (all_below-lt 256 (λ l. all_below 256 (agrees l)) l agrees_table hl) hr in
    read l r e
  where
    read : (l r : ℕ) → agrees l r ≡ true → ((bit_xor l r ≡ 0) ↔ (l ≡ r)) × (bit_xor l r < 256)
    read l r e =
        let parts =
          &&-eq-true (if bit_xor l r == 0 then l == r else not (l == r)) (ltb (bit_xor l r) 256)
            (unfold agrees in e) in
        (
          (λ h. ground (arith, parts.0, h), λ h. ground (arith, parts.0, h)),
          ltb→lt (bit_xor l r) 256 parts.1,
        )

bit_or-zero :
    (d x : ℕ) → d < 256 → x < 256 → ((bit_or d x ≡ 0) ↔ ((d ≡ 0) × (x ≡ 0))) × (bit_or d x < 256)
bit_or-zero d x hd hx =
    let e : gathers d x ≡ true =
      all_below-lt 256 (gathers d) x
        (all_below-lt 256 (λ d. all_below 256 (gathers d)) d gathers_table hd) hx in
    read d x e
  where
    read :
        (d x : ℕ)
        → gathers d x ≡ true
        → ((bit_or d x ≡ 0) ↔ ((d ≡ 0) × (x ≡ 0))) × (bit_or d x < 256)
    read d x e =
        let parts =
          &&-eq-true (if bit_or d x == 0 then d == 0 && x == 0 else not (d == 0 && x == 0))
            (ltb (bit_or d x) 256) (unfold gathers in e) in
        (
          (
            λ h. (ground (arith, parts.0, h), ground (arith, parts.0, h)),
            λ h. ground (arith, parts.0, h),
          ),
          ltb→lt (bit_or d x) 256 parts.1,
        )

abbrev AreBytes : Bytes → Type 0
AreBytes = All (λ b. b < 256)

-- Nothing is gathered just if nothing was there and the views are equal.
differences_iff :
    (d : ℕ) (left right : Bytes)
    → d < 256
    → AreBytes left
    → AreBytes right
    → length left ≡ length right
    → (differences d left right ≡ 0) ↔ ((d ≡ 0) × (left ≡ right))
unfolding differences
differences_iff d [] [] hd u v e = (λ h. (h, refl), λ h. h.0)
differences_iff d [] (r ∷ right) hd u v e = absurd (omega arith)
differences_iff d (l ∷ left) [] hd u v e = absurd (omega arith)
differences_iff d (l ∷ left) (r ∷ right) hd (hl, u) (hr, v) e =
    let (byte, small) = bit_xor-zero l r hl hr in
    let (sum, fits) = bit_or-zero d (bit_xor l r) hd small in
    let ih = differences_iff (bit_or d (bit_xor l r)) left right fits u v (omega (arith, e)) in
    (
      λ h.
          let (none_yet, same) = ih.0 h in
          let (none_before, none_here) = sum.0 none_yet in
          (none_before, cc (byte.0 none_here, same)),
      λ (none_before, same).
          ih.1 (sum.1 (none_before, byte.1 (ground (arith, same))), ground (arith, same)),
    )

-- Two views of bytes are found equal just if they are.
pub constant_time_equals_iff :
    (left right : Bytes)
    → All (λ b. b < 256) left
    → All (λ b. b < 256) right
    → (constant_time_equals left right ≡ true) ↔ (left ≡ right)
unfolding constant_time_equals
constant_time_equals_iff left right u v = elim (Bool-cases (length left == length right)) [
  | inr e ↦ (λ h. absurd (ground arith), λ h. absurd (ground (arith, e, ap length h)))
  | inl e ↦
      let iff =
        differences_iff 0 left right (omega arith) u v
          ((==_iff (length left) (length right)).0 e) in
      (λ h. (iff.0 (ground arith)).1, λ h. ground (arith, e, iff.1 (refl, h)))
]
