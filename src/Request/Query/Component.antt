-- ===== src/Request/Query/Component.antt =====
-- What decoding one query component gives: it appends to the arena, never more than it reads, and
-- no control byte.
use erikslund_http_embedded.Prelude.{
  ℕ, zero, suc, ◌≤◌, ◌≡◌, ◌≢◌, some, [], ◌∷◌, arith, Bytes, length, drop, length-drop, All, ◌⊎◌,
  inl, inr, ◌++◌, append-nil, Option-cases, ◌+◌, refl, sym, ap, ◌∙◌, append_assoc,
}
use erikslund_http_embedded.Request.Query.{
  decode_query_byte, decode_escape, decode_query_component_from, decode_query_component_into,
}
use mathlib.Core.Option

abbrev pub IsClean : ℕ → Type 0
IsClean b = (0x20 ≤ b) × (b ≢ 0x7F)

All-drop : (P : ℕ → Type 0) (n : ℕ) (s : Bytes) → All P s → All P (drop n s)
All-drop P zero s h = h
All-drop P (suc n) [] h = tt
All-drop P (suc n) (c ∷ s) (p, h) = All-drop P n s h

-- One round.
decode_query_byte-length :
    (c : ℕ) (after : Bytes) {b : ℕ} {rest : Bytes}
    → decode_query_byte c after ≡ some (b, rest)
    → length rest ≤ length after
unfolding decode_query_byte
decode_query_byte-length c after h = ground (arith, length-drop 2 after)

decode_escape-IsClean : (s : Bytes) {b : ℕ} → decode_escape s ≡ some b → IsClean b
unfolding decode_escape
decode_escape-IsClean s h = ground arith

decode_query_byte-IsClean :
    (c : ℕ) (after : Bytes) {b : ℕ} {rest : Bytes}
    → IsClean c
    → decode_query_byte c after ≡ some (b, rest)
    → IsClean b
unfolding decode_query_byte
decode_query_byte-IsClean c after k h = ground (arith, k)

rest_cases :
    (c : ℕ) (after : Bytes) {b : ℕ} {rest : Bytes}
    → decode_query_byte c after ≡ some (b, rest)
    → (rest ≡ after) ⊎ (rest ≡ drop 2 after)
unfolding decode_query_byte
rest_cases c after h = ground arith

decode_query_byte-All :
    (P : ℕ → Type 0) (c : ℕ) (after : Bytes) {b : ℕ} {rest : Bytes}
    → All P after
    → decode_query_byte c after ≡ some (b, rest)
    → All P rest
decode_query_byte-All P c after k h = elim (rest_cases c after h) [
  | inl e ↦ rw e k
  | inr e ↦ rw e (All-drop P 2 after k)
]

-- What a whole component appends.
pub record Appends (arena raw out : Bytes) : Type 0 where
  pub tail : Bytes
  pub splits : out ≡ arena ++ tail
  pub short : length tail ≤ length raw
  pub clean : All IsClean raw → All IsClean tail

decode_from-Appends :
    (fuel : ℕ) (arena raw : Bytes) {out : Bytes}
    → decode_query_component_from fuel arena raw ≡ some out
    → Appends arena raw out
unfolding decode_query_component_from
decode_from-Appends zero arena raw h = cc
decode_from-Appends (suc fuel) arena [] h = record {
  tail = [];
  splits = rw append-nil (ground arith);
  short = omega arith;
  clean = λ k. tt;
}
decode_from-Appends (suc fuel) arena (c ∷ after) {out} h =
    elim (Option-cases (decode_query_byte c after)) [
      | inl e ↦ absurd (ground arith)
      | inr ((b, rest), e) ↦
          let ih = decode_from-Appends fuel (arena ++ (b ∷ [])) rest (ground arith) in
          record {
            tail = b ∷ ih.tail;
            splits = ih.splits ∙ append_assoc arena (b ∷ []) ih.tail;
            short = omega (arith, ih.short, decode_query_byte-length c after e);
            clean = λ k. (
              decode_query_byte-IsClean c after k.0 e,
              ih.clean (decode_query_byte-All IsClean c after k.1 e),
            );
          }
    ]

-- Decoding appends to the arena at most as many bytes as it reads, none of them a control byte if
-- the raw bytes hold none.
pub decode_query_component_into-Appends :
    (arena raw : Bytes) {out : Bytes}
    → decode_query_component_into arena raw ≡ some out
    → Appends arena raw out
unfolding decode_query_component_into
decode_query_component_into-Appends arena raw h = decode_from-Appends (length raw + 1) arena raw h

decode_from-arena :
    (fuel : ℕ) (arena more raw : Bytes)
    → decode_query_component_from fuel (arena ++ more) raw
      ≡ Option.map (λ t. arena ++ t) (decode_query_component_from fuel more raw)
unfolding decode_query_component_from
decode_from-arena zero arena more raw = refl
decode_from-arena (suc fuel) arena more [] = refl
decode_from-arena (suc fuel) arena more (c ∷ after) =
    elim (Option-cases (decode_query_byte c after)) [
      | inl e ↦ rw (e, decode_query_component_from) refl
      | inr ((b, rest), e) ↦
          rw (e, decode_query_component_from)
            (rw (append_assoc arena more (b ∷ []))
              (decode_from-arena fuel arena (more ++ (b ∷ [])) rest))
    ]

-- The arena that is there already changes nothing of what is appended.
pub decode_query_component_into-arena :
    (arena raw : Bytes)
    → decode_query_component_into arena raw
      ≡ Option.map (λ t. arena ++ t) (decode_query_component_into [] raw)
unfolding decode_query_component_into
decode_query_component_into-arena arena raw =
    ap (λ a. decode_query_component_from (length raw + 1) a raw) (sym (append-nil arena))
    ∙ decode_from-arena (length raw + 1) arena [] raw
