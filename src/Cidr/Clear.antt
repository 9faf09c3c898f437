-- ===== src/Cidr/Clear.antt =====
-- What `clear_host_bits` leaves of an address.
use native.Mathlib.Nat.{zero-div}
use erikslund_http_embedded.Prelude.{
  ℕ, zero, suc, ◌+◌, ◌/◌, ◌%◌, ◌≤◌, ◌<◌, bit_and, ◌≡◌, refl, sym, ap, subst, ◌∙◌, inl, inr, Bool,
  true, false, [], ◌∷◌, arith, ltb, ◌==◌, if◌then◌else◌, lt→ltb, ==_iff, Bool-cases, if_true,
  if_false, Bytes, length, get_or, set, length-set, All, ◌-◌, ◌^◌,
}
use erikslund_http_embedded.Cidr.Network.{IsAddress, IsByte, address_bit, get_or-IsByte}
use erikslund_http_embedded.Cidr.Bits.{bit_and-lt, byte_bit, byte_bit-bit_and}
use erikslund_http_embedded.Cidr.{clear_host_bits, partial_mask, zero_from}

get_or-zero_from :
    (start : ℕ) (bytes : Bytes) (k : ℕ)
    → get_or (zero_from start bytes) k 0 ≡ (if ltb k start then get_or bytes k 0 else 0)
unfolding zero_from
get_or-zero_from start [] k = ground arith
get_or-zero_from zero (b ∷ bytes) zero = refl
get_or-zero_from zero (b ∷ bytes) (suc k) = ground (arith, get_or-zero_from zero bytes k)
get_or-zero_from (suc start) (b ∷ bytes) zero = ground arith
get_or-zero_from (suc start) (b ∷ bytes) (suc k) = ground (arith, get_or-zero_from start bytes k)

get_or-set :
    (bytes : Bytes) (i v k : ℕ)
    → i < length bytes
    → get_or (set bytes i v) k 0 ≡ (if k == i then v else get_or bytes k 0)
get_or-set [] i v k h = absurd (omega arith)
get_or-set (b ∷ bytes) zero v zero h = refl
get_or-set (b ∷ bytes) zero v (suc k) h = ground arith
get_or-set (b ∷ bytes) (suc i) v zero h = ground arith
get_or-set (b ∷ bytes) (suc i) v (suc k) h = ground (arith, get_or-set bytes i v k (omega arith))

length-zero_from : (start : ℕ) (bytes : Bytes) → length (zero_from start bytes) ≡ length bytes
unfolding zero_from
length-zero_from start [] = refl
length-zero_from zero (b ∷ bytes) = ap suc (length-zero_from zero bytes)
length-zero_from (suc start) (b ∷ bytes) = ap suc (length-zero_from start bytes)

zero_from-IsByte :
    (start : ℕ) (bytes : Bytes) → All IsByte bytes → All IsByte (zero_from start bytes)
unfolding zero_from
zero_from-IsByte start [] v = tt
zero_from-IsByte zero (b ∷ bytes) (h, v) = (omega arith, zero_from-IsByte zero bytes v)
zero_from-IsByte (suc start) (b ∷ bytes) (h, v) = (h, zero_from-IsByte start bytes v)

set-IsByte : (bytes : Bytes) (i v : ℕ) → v < 256 → All IsByte bytes → All IsByte (set bytes i v)
set-IsByte [] i v h u = tt
set-IsByte (b ∷ bytes) zero v h (l, u) = (h, u)
set-IsByte (b ∷ bytes) (suc i) v h (l, u) = (l, set-IsByte bytes i v h u)

pub clear_host_bits-IsAddress :
    (bytes : Bytes) (p : ℕ) → IsAddress bytes → IsAddress (clear_host_bits bytes p)
unfolding clear_host_bits
clear_host_bits-IsAddress bytes p v = elim (Bool-cases (p % 8 == 0)) [
  | inl e ↦ rw (if_true _ _ e) (record {
    sixteen = length-zero_from (p / 8) bytes ∙ v.sixteen;
    small = zero_from-IsByte (p / 8) bytes v.small;
  })
  | inr e ↦
      let masked = bit_and (get_or bytes (p / 8) 0) (partial_mask (p % 8)) in
      rw (if_false _ _ e) (record {
        sixteen =
            length-zero_from (p / 8 + 1) (set bytes (p / 8) masked)
            ∙ (length-set bytes (p / 8) masked ∙ v.sixteen);
        small = zero_from-IsByte (p / 8 + 1) (set bytes (p / 8) masked) (
            set-IsByte bytes (p / 8) masked
              (bit_and-lt (p % 8) (get_or bytes (p / 8) 0) (omega arith)
                (get_or-IsByte bytes (p / 8) v.small))
              v.small);
      })
]

byte_bit-zero : (j : ℕ) → byte_bit 0 j ≡ 0
unfolding byte_bit
byte_bit-zero j = rw (zero-div (2 ^ (7 - j))) refl

whole_part :
    (p i b : ℕ)
    → p % 8 ≡ 0
    → byte_bit (if ltb (i / 8) (p / 8) then b else 0) (i % 8)
      ≡ (if ltb i p then byte_bit b (i % 8) else 0)
whole_part p i b e = elim (Bool-cases (ltb i p)) [
  | inl f ↦ rw (lt→ltb (i / 8) (p / 8) (ground arith)) (rw f refl)
  | inr f ↦
      let out : ltb (i / 8) (p / 8) ≡ false = ground arith in rw out (rw f (byte_bit-zero (i % 8)))
]

last_part :
    (p i : ℕ) (bytes : Bytes)
    → All IsByte bytes
    → byte_bit
        (if ltb (i / 8) (p / 8 + 1)
          then if i / 8 == p / 8
            then bit_and (get_or bytes (p / 8) 0) (partial_mask (p % 8))
            else get_or bytes (i / 8) 0
          else 0)
        (i % 8)
      ≡ (if ltb i p then byte_bit (get_or bytes (i / 8) 0) (i % 8) else 0)
last_part p i bytes v = elim (Bool-cases (i / 8 == p / 8)) [
  | inl e ↦
      let here : i / 8 ≡ p / 8 = (==_iff (i / 8) (p / 8)).0 e in
      let inside : ltb (i / 8) (p / 8 + 1) ≡ true = ground arith in
      let ends : ltb i p ≡ ltb (i % 8) (p % 8) = ground arith in
      rw inside (
        rw e (
          rw ends (
            subst
              (λ k.
                byte_bit (bit_and (get_or bytes (p / 8) 0) (partial_mask (p % 8))) (i % 8)
                ≡ (if ltb (i % 8) (p % 8) then byte_bit (get_or bytes k 0) (i % 8) else 0))
              (sym here)
              (byte_bit-bit_and (p % 8) (i % 8) (get_or bytes (p / 8) 0) (omega arith) (omega arith)
                (get_or-IsByte bytes (p / 8) v)))))
  | inr e ↦ elim (Bool-cases (ltb (i / 8) (p / 8))) [
    | inl f ↦
        let inside : ltb (i / 8) (p / 8 + 1) ≡ true = ground arith in
        let below : ltb i p ≡ true = ground arith in rw inside (rw e (rw below refl))
    | inr f ↦
        let outside : ltb (i / 8) (p / 8 + 1) ≡ false = ground arith in
        let behind : ltb i p ≡ false = ground arith in
        rw outside (rw behind (byte_bit-zero (i % 8)))
  ]
]

-- Clearing keeps the bits of the prefix and sets those behind to zero.
pub clear_host_bits_lem :
    (bytes : Bytes) (p i : ℕ)
    → length bytes ≡ 16
    → All IsByte bytes
    → p ≤ 128
    → address_bit (clear_host_bits bytes p) i ≡ (if ltb i p then address_bit bytes i else 0)
unfolding clear_host_bits address_bit
clear_host_bits_lem bytes p i l v h = elim (Bool-cases (p % 8 == 0)) [
  | inl e ↦
      if_at (p % 8 == 0) (zero_from (p / 8) bytes) _ i e
      ∙ (ap (λ z. byte_bit z (i % 8)) (get_or-zero_from (p / 8) bytes (i / 8))
          ∙ whole_part p i (get_or bytes (i / 8) 0) ((==_iff (p % 8) 0).0 e))
  | inr e ↦
      let masked = bit_and (get_or bytes (p / 8) 0) (partial_mask (p % 8)) in
      if_not_at (p % 8 == 0) _ (zero_from (p / 8 + 1) (set bytes (p / 8) masked)) i e
      ∙ (ap (λ z. byte_bit z (i % 8))
            (get_or-zero_from (p / 8 + 1) (set bytes (p / 8) masked) (i / 8))
          ∙ (ap (λ z. byte_bit (if ltb (i / 8) (p / 8 + 1) then z else 0) (i % 8))
                (get_or-set bytes (p / 8) masked (i / 8) (ground arith))
              ∙ last_part p i bytes v))
]
  where
    if_at :
        (b : Bool) (x y : Bytes) (i : ℕ)
        → b ≡ true
        → byte_bit (get_or (if b then x else y) (i / 8) 0) (i % 8)
          ≡ byte_bit (get_or x (i / 8) 0) (i % 8)
    if_at b x y i e = rw e refl

    if_not_at :
        (b : Bool) (x y : Bytes) (i : ℕ)
        → b ≡ false
        → byte_bit (get_or (if b then x else y) (i / 8) 0) (i % 8)
          ≡ byte_bit (get_or y (i / 8) 0) (i % 8)
    if_not_at b x y i e = rw e refl
