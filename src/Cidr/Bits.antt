-- ===== src/Cidr/Bits.antt =====
-- The bits of a byte, and what the mask of a partial prefix keeps of them.
use erikslund_http_embedded.Prelude.{
  ℕ, ◌-◌, ◌/◌, ◌%◌, ◌^◌, ◌<◌, bit_and, ◌≡◌, refl, sym, ap, ◌∙◌, ◌↔◌, inl, inr, Bool, true, arith,
  ltb, ◌==◌, if◌then◌else◌, ltb→lt, lt→ltb, ==_iff, Bool-cases, if_true, if_false, all_below,
  all_below-lt,
}
use erikslund_http_embedded.Cidr.{partial_mask}

-- Bits are counted from the highest.
unfoldable pub byte_bit : ℕ → ℕ → ℕ
byte_bit b j = b / 2 ^ (7 - j) % 2

keeps : ℕ → ℕ → ℕ → Bool
unfolding byte_bit
keeps r j b = byte_bit (bit_and b (partial_mask r)) j == (if ltb j r then byte_bit b j else 0)

masked_small : ℕ → ℕ → Bool
masked_small r b = ltb (bit_and b (partial_mask r)) 256

keeps_table : all_below 8 (λ r. all_below 8 (λ j. all_below 256 (keeps r j))) ≡ true
unfolding all_below keeps byte_bit
keeps_table = refl

small_table : all_below 8 (λ r. all_below 256 (masked_small r)) ≡ true
unfolding all_below masked_small
small_table = refl

-- The mask keeps the bits of the prefix, and clears those behind.
pub byte_bit-bit_and :
    (r j b : ℕ)
    → r < 8
    → j < 8
    → b < 256
    → byte_bit (bit_and b (partial_mask r)) j ≡ (if ltb j r then byte_bit b j else 0)
unfolding keeps
byte_bit-bit_and r j b hr hj hb =
    (==_iff (byte_bit (bit_and b (partial_mask r)) j) (if ltb j r then byte_bit b j else 0)).0 (
      all_below-lt 256 (keeps r j) b
        (all_below-lt 8 (λ j. all_below 256 (keeps r j)) j
          (all_below-lt 8 (λ r. all_below 8 (λ j. all_below 256 (keeps r j))) r keeps_table hr) hj)
        hb)

pub bit_and-lt : (r b : ℕ) → r < 8 → b < 256 → bit_and b (partial_mask r) < 256
unfolding masked_small
bit_and-lt r b hr hb = ltb→lt (bit_and b (partial_mask r)) 256 (
    all_below-lt 256 (masked_small r) b
      (all_below-lt 8 (λ r. all_below 256 (masked_small r)) r small_table hr) hb)

-- A byte is what its bits say.
pub byte-ext :
    (a b : ℕ) → a < 256 → b < 256 → ((j : ℕ) → j < 8 → byte_bit a j ≡ byte_bit b j) → a ≡ b
unfolding byte_bit
byte-ext a b ha hb h = omega (
  arith,
  h 0 (omega arith),
  h 1 (omega arith),
  h 2 (omega arith),
  h 3 (omega arith),
  h 4 (omega arith),
  h 5 (omega arith),
  h 6 (omega arith),
  h 7 (omega arith),
)

-- Two bytes agree under the mask just if they agree in the bits of the prefix.
pub bit_and_iff :
    (r a b : ℕ)
    → r < 8
    → a < 256
    → b < 256
    → (bit_and a (partial_mask r) ≡ bit_and b (partial_mask r))
      ↔ ((j : ℕ) → j < r → byte_bit a j ≡ byte_bit b j)
bit_and_iff r a b hr ha hb = (
  λ e j hj.
      let left = byte_bit-bit_and r j a hr (omega arith) ha ∙ if_true _ _ (lt→ltb j r hj) in
      let right = byte_bit-bit_and r j b hr (omega arith) hb ∙ if_true _ _ (lt→ltb j r hj) in
      sym left ∙ (ap (λ z. byte_bit z j) e ∙ right),
  λ h.
      byte-ext (bit_and a (partial_mask r)) (bit_and b (partial_mask r)) (bit_and-lt r a hr ha)
        (bit_and-lt r b hr hb)
        (λ j hj. elim (Bool-cases (ltb j r)) [
          | inl e ↦
              byte_bit-bit_and r j a hr hj ha
              ∙ (if_true _ _ e
                  ∙ (h j (ltb→lt j r e) ∙ sym (byte_bit-bit_and r j b hr hj hb ∙ if_true _ _ e)))
          | inr e ↦
              byte_bit-bit_and r j a hr hj ha
              ∙ (if_false _ _ e ∙ sym (byte_bit-bit_and r j b hr hj hb ∙ if_false _ _ e))
        ]),
)
