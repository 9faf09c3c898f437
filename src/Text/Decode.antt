-- ===== src/Text/Decode.antt =====
-- `url_decode` of src/text.cpp.
use erikslund_http_embedded.Prelude.{
  ℕ, Bytes, length, zero, suc, ◌+◌, ◌-◌, ◌*◌, ◌<◌, ◌≡◌, refl, ap, ◌≢◌, ◌⊎◌, inl, inr, ◌&&◌, Option,
  none, some, [], ◌∷◌, ◌++◌, arith, leb, ◌==◌, if◌then◌else◌, length-append, ◌∙◌, if_false,
}
use mathlib.Core.Option

-- `none` is the source's -1.
unfoldable pub hex_digit_value : ℕ → Option ℕ
hex_digit_value character =
    if leb b'0' character && leb character b'9'
    then some (character - b'0')
    else if leb b'a' character && leb character b'f'
    then some (character - b'a' + 10)
    else if leb b'A' character && leb character b'F'
    then some (character - b'A' + 10)
    else none

unfoldable pub url_decode_escape : ℕ → ℕ → Option ℕ
unfolding hex_digit_value
url_decode_escape high low = elim (hex_digit_value high) [
  | none ↦ none
  | some h ↦ elim (hex_digit_value low) [
    | none ↦ none
    | some l ↦ if h * 16 + l == 0 then none else some (h * 16 + l)
  ]
]

-- One round: the byte that is appended, and the input behind it.
unfoldable pub url_decode_byte : ℕ → Bytes → Option (ℕ × Bytes)
unfolding url_decode_escape
url_decode_byte character rest =
    if character == b'+'
    then some (b' ', rest)
    else if character == b'%'
    then elim rest [
      | [] ↦ none
      | _ ∷ [] ↦ none
      | high ∷ low ∷ more ↦ elim (url_decode_escape high low) [
        | none ↦ none
        | some b ↦ some (b, more)
      ]
    ]
    else if character == 0
    then none
    else some (character, rest)

unfoldable pub url_decode_from : ℕ → Bytes → Option Bytes
unfolding url_decode_byte
url_decode_from zero input = none
url_decode_from (suc fuel) [] = some []
url_decode_from (suc fuel) (character ∷ rest) = elim (url_decode_byte character rest) [
  | none ↦ none
  | some (b, behind) ↦ Option.map (λ decoded. b ∷ decoded) (url_decode_from fuel behind)
]

unfoldable pub url_decode : Bytes → Option Bytes
unfolding url_decode_from
url_decode input = url_decode_from (length input + 1) input

-- A character is a hexadecimal digit of a value: a decimal one, or a letter of either case.
abbrev pub IsHexDigit : ℕ → ℕ → Type 0
IsHexDigit character value =
    ((value < 10) × (character ≡ 48 + value))
    ⊎ ((9 < value) × (value < 16) × ((character ≡ 87 + value) ⊎ (character ≡ 55 + value)))

hex_digit_value-IsHexDigit :
    (character value : ℕ) → IsHexDigit character value → hex_digit_value character ≡ some value
unfolding hex_digit_value
hex_digit_value-IsHexDigit character value (inl (u, e)) = ground (arith, e)
hex_digit_value-IsHexDigit character value (inr (l, u, inl e)) = ground (arith, e)
hex_digit_value-IsHexDigit character value (inr (l, u, inr e)) = ground (arith, e)

escape-IsHexDigit :
    (high low h l b : ℕ)
    → IsHexDigit high h
    → IsHexDigit low l
    → b ≡ 16 * h + l
    → b ≢ 0
    → url_decode_escape high low ≡ some b
unfolding url_decode_escape
escape-IsHexDigit high low h l b x y e z =
    rw (url_decode_escape, hex_digit_value-IsHexDigit high h x, hex_digit_value-IsHexDigit low l y)
      (if_false {b = h * 16 + l == 0} _ _ (ground (arith, e, z)) ∙ ap some (omega (arith, e)))

-- How a byte may be written: as itself, a space as "+", and any as a percent sign and two digits.
abbrev pub Writes : ℕ → Bytes → Type 0
Writes b text =
    ((text ≡ b ∷ []) × (b ≢ b'+') × (b ≢ b'%') × (b ≢ 0))
    ⊎ (((text ≡ b'+' ∷ []) × (b ≡ b' '))
        ⊎ ((high : ℕ) × (low : ℕ) × (h : ℕ) × (l : ℕ) × (text ≡ b'%' ∷ high ∷ low ∷ [])
            × IsHexDigit high h
            × IsHexDigit low l
            × (b ≡ 16 * h + l)
            × (b ≢ 0)))

url_decode_byte_written :
    (b : ℕ) (text rest : Bytes)
    → Writes b text
    → (c : ℕ) × (more : Bytes) × (text ++ rest ≡ c ∷ more)
      × (url_decode_byte c more ≡ some (b, rest))
unfolding url_decode_byte
url_decode_byte_written b text rest (inl (e, p, q, z)) =
    (b, rest, ap (λ t. t ++ rest) e, ground arith)
url_decode_byte_written b text rest (inr (inl (e, s))) =
    (b'+', rest, ap (λ t. t ++ rest) e, ground arith)
url_decode_byte_written b text rest (inr (inr (high, low, h, l, e, x, y, v, z))) =
    let d = escape-IsHexDigit high low h l b x y v z in
    (b'%', high ∷ low ∷ rest, ap (λ t. t ++ rest) e, rw d refl)

-- A text that writes some bytes, one after the other.
pub data WritesAll : Bytes → Bytes → Type 0 where
  nothing : WritesAll [] []
  next :
      (b : ℕ) (decoded text rest : Bytes)
      → Writes b text
      → WritesAll decoded rest
      → WritesAll (b ∷ decoded) (text ++ rest)

written-length : (b : ℕ) (text : Bytes) → Writes b text → 0 < length text
written-length b text (inl (e, _, _, _)) = rw e (omega arith)
written-length b text (inr (inl (e, v))) = rw e (omega arith)
written-length b text (inr (inr (high, low, h, l, e, _, _, _, _))) = rw e (omega arith)

decoded_round :
    (fuel c b : ℕ) (more rest decoded : Bytes)
    → url_decode_byte c more ≡ some (b, rest)
    → url_decode_from fuel rest ≡ some decoded
    → url_decode_from (suc fuel) (c ∷ more) ≡ some (b ∷ decoded)
unfolding url_decode_from
decoded_round fuel c b more rest decoded d e = rw (url_decode_from, d) (rw e refl)

url_decode_from_written :
    (fuel : ℕ) (decoded input : Bytes)
    → WritesAll decoded input
    → length input < fuel
    → url_decode_from fuel input ≡ some decoded
unfolding url_decode_from
url_decode_from_written zero decoded input w h = absurd (omega arith)
url_decode_from_written (suc fuel) _ _ nothing h = refl
url_decode_from_written (suc fuel) _ _ (next b decoded text rest t w) h =
    let (c, more, e, d) = url_decode_byte_written b text rest t in
    let size : length rest < fuel =
      omega (arith, h, length-append text rest, written-length b text t) in
    ap (url_decode_from (suc fuel)) e
    ∙ decoded_round fuel c b more rest decoded d (url_decode_from_written fuel decoded rest w size)

-- An input that writes bytes one after the other, a space as "+", any byte but 0 as a percent sign and
-- its two hexadecimal digits, of either case, and any byte but "+", "%" and 0 as itself, is decoded to those bytes.
pub url_decode-WritesAll :
    (decoded input : Bytes) → WritesAll decoded input → url_decode input ≡ some decoded
unfolding url_decode
url_decode-WritesAll decoded input w =
    url_decode_from_written (length input + 1) decoded input w (omega arith)
