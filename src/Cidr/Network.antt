-- ===== src/Cidr/Network.antt =====
-- Which addresses a network holds, and what a prefix clears.
use erikslund_http_embedded.Prelude.{
  ℕ, zero, suc, ◌+◌, ◌*◌, ◌/◌, ◌%◌, ◌≤◌, ◌<◌, bit_and, ◌≡◌, refl, sym, ap, subst, ◌↔◌, inl, inr,
  Bool, true, false, not, [], ◌∷◌, arith, ltb, ◌==◌, if◌then◌else◌, ltb→lt, ==_iff, Bool-cases,
  &&-eq-true, Bytes, length, get_or, All,
}
use erikslund_http_embedded.Cidr.Bits.{byte_bit, bit_and_iff, byte-ext}
use erikslund_http_embedded.Cidr.{Rule, partial_mask, same_before, matches}

abbrev pub IsByte : ℕ → Type 0
IsByte b = b < 256

-- 16 bytes.
pub record IsAddress (bytes : Bytes) : Type 0 where
  pub sixteen : length bytes ≡ 16
  pub small : All IsByte bytes

-- A bit of an address, counted from the first.
unfoldable pub address_bit : Bytes → ℕ → ℕ
address_bit bytes i = byte_bit (get_or bytes (i / 8) 0) (i % 8)

pub get_or-IsByte : (bytes : Bytes) (k : ℕ) → All IsByte bytes → get_or bytes k 0 < 256
get_or-IsByte [] k v = omega arith
get_or-IsByte (b ∷ bytes) zero (h, v) = h
get_or-IsByte (b ∷ bytes) (suc k) (h, v) = get_or-IsByte bytes k v

same_before_iff :
    (n : ℕ) (address network : Bytes)
    → n ≤ length address
    → n ≤ length network
    → (same_before n address network ≡ true)
      ↔ ((k : ℕ) → k < n → get_or address k 0 ≡ get_or network k 0)
unfolding same_before
same_before_iff zero address network h l = (λ e k hk. absurd (omega arith), λ f. refl)
same_before_iff (suc n) [] network h l = absurd (omega arith)
same_before_iff (suc n) (a ∷ address) [] h l = absurd (omega arith)
same_before_iff (suc n) (a ∷ address) (b ∷ network) h l =
    let ih = same_before_iff n address network (omega arith) (omega arith) in
    (
      λ e k hk. below k (&&-eq-true (a == b) (same_before n address network) e) ih.0 hk,
      λ f. ground (arith, ih.1 (λ k hk. f (suc k) (omega arith)), f 0 (omega arith)),
    )
  where
    below :
        (k : ℕ)
        → ((a == b) ≡ true) × (same_before n address network ≡ true)
        → (same_before n address network ≡ true
            → (k : ℕ) → k < n
            → get_or address k 0 ≡ get_or network k 0)
        → k < suc n
        → get_or (a ∷ address) k 0 ≡ get_or (b ∷ network) k 0
    below zero (e, s) ih hk = (==_iff a b).0 e
    below (suc k) (e, s) ih hk = ih s k (omega arith)

abbrev pub SameBits : ℕ → Bytes → Bytes → Type 0
SameBits n address network = (i : ℕ) → i < n → address_bit address i ≡ address_bit network i

-- Bytes below the last of a prefix agree where their bits do.
same_bytes :
    (p : ℕ) (address network : Bytes)
    → All IsByte address
    → All IsByte network
    → SameBits p address network
    → (k : ℕ) → k < p / 8
    → get_or address k 0 ≡ get_or network k 0
unfolding address_bit
same_bytes p address network u v h k hk =
    byte-ext (get_or address k 0) (get_or network k 0) (get_or-IsByte address k u)
      (get_or-IsByte network k v)
      (λ j hj.
        let there : (k * 8 + j) / 8 ≡ k = omega arith in
        let inside : (k * 8 + j) % 8 ≡ j = omega arith in
        subst (λ z. byte_bit (get_or address z 0) j ≡ byte_bit (get_or network z 0) j) there
          (subst
            (λ z.
              byte_bit (get_or address ((k * 8 + j) / 8) 0) z
              ≡ byte_bit (get_or network ((k * 8 + j) / 8) 0) z)
            inside (h (k * 8 + j) (omega arith))))

last_bits :
    (p : ℕ) (address network : Bytes)
    → SameBits p address network
    → (j : ℕ) → j < p % 8
    → byte_bit (get_or address (p / 8) 0) j ≡ byte_bit (get_or network (p / 8) 0) j
unfolding address_bit
last_bits p address network h j hj =
    let there : (p / 8 * 8 + j) / 8 ≡ p / 8 = omega arith in
    let inside : (p / 8 * 8 + j) % 8 ≡ j = omega arith in
    subst (λ z. byte_bit (get_or address z 0) j ≡ byte_bit (get_or network z 0) j) there
      (subst
        (λ z.
          byte_bit (get_or address ((p / 8 * 8 + j) / 8) 0) z
          ≡ byte_bit (get_or network ((p / 8 * 8 + j) / 8) 0) z)
        inside (h (p / 8 * 8 + j) (omega arith)))

-- Bits agree where the whole bytes do and those of the last byte do.
agree :
    (p : ℕ) (address network : Bytes)
    → ((k : ℕ) → k < p / 8 → get_or address k 0 ≡ get_or network k 0)
    → ((j : ℕ)
        → j < p % 8
        → byte_bit (get_or address (p / 8) 0) j ≡ byte_bit (get_or network (p / 8) 0) j)
    → SameBits p address network
unfolding address_bit
agree p address network whole part i hi = elim (Bool-cases (ltb (i / 8) (p / 8))) [
  | inl e ↦ ap (λ z. byte_bit z (i % 8)) (whole (i / 8) (ltb→lt (i / 8) (p / 8) e))
  | inr e ↦
      let last : i / 8 ≡ p / 8 = ground arith in
      subst (λ z. byte_bit (get_or address z 0) (i % 8) ≡ byte_bit (get_or network z 0) (i % 8))
        (sym last) (part (i % 8) (omega arith))
]

-- A rule matches just those addresses whose bits agree with its network as far as its prefix goes.
pub matches_iff :
    (rule : Rule) (address : Bytes)
    → rule.prefix_bits ≤ 128
    → IsAddress rule.network
    → IsAddress address
    → (matches rule address ≡ true)
      ↔ ((i : ℕ) → i < rule.prefix_bits → address_bit address i ≡ address_bit rule.network i)
unfolding matches
matches_iff rule address h net adr =
    let p = rule.prefix_bits in
    let mask = partial_mask (p % 8) in
    let same =
      same_before_iff (p / 8) address rule.network (omega (arith, adr.sixteen))
        (omega (arith, net.sixteen)) in
    let low =
      bit_and_iff (p % 8) (get_or address (p / 8) 0) (get_or rule.network (p / 8) 0) (omega arith)
        (get_or-IsByte address (p / 8) adr.small) (get_or-IsByte rule.network (p / 8) net.small) in
    let small : ltb 128 p ≡ false = ground arith in
    (
      λ e.
          let (s, t) =
            passed p (same_before (p / 8) address rule.network)
              (bit_and (get_or address (p / 8) 0) mask)
              (bit_and (get_or rule.network (p / 8) 0) mask) e in
          agree p address rule.network (same.0 s) (λ j hj. low.0 (t (omega arith)) j hj),
      λ f. rw small (
          rw (same.1 (same_bytes p address rule.network adr.small net.small f))
            (ground (arith, low.1 (last_bits p address rule.network f)))),
    )
  where
    passed :
        (p : ℕ) (s : Bool) (a b : ℕ)
        → (if ltb 128 p
            then false
            else if not s
            then false
            else if p % 8 == 0
            then true
            else a == b)
          ≡ true
        → (s ≡ true) × (0 < p % 8 → a ≡ b)
    passed p s a b e = (ground arith, λ pos. ground arith)
