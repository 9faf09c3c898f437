-- ===== src/Prelude/Splits.antt =====
-- The pieces of a view between separators: what they hold, and how they join.
use mathlib.Core.Path.{◌≡◌, refl}
use mathlib.Core.Logic.{◌≢◌, inl, inr}
use mathlib.Core.List.{List, [], ◌∷◌, ◌++◌}
use Prim.Native.Nat.{ℕ}
use native.Mathlib.Omega.{arith}
use erikslund_http_embedded.Prelude.Tests.{Bool-cases, ◌==◌}
use erikslund_http_embedded.Prelude.Lists.{All}
use erikslund_http_embedded.Prelude.Views.{Bytes, split, grow, Lacks}

pub split-append :
    (sep : ℕ) (piece rest : Bytes)
    → Lacks sep piece
    → split sep (piece ++ (sep ∷ rest)) ≡ piece ∷ split sep rest
unfolding split
split-append sep [] rest h = ground arith
split-append sep (c ∷ piece) rest (p, h) = ground (arith, split-append sep piece rest h)

All-grow :
    (P : ℕ → Type 0) (c : ℕ) (ps : List Bytes) → P c → All (All P) ps → All (All P) (grow c ps)
All-grow P c [] h v = ((h, tt), tt)
All-grow P c (p ∷ ps) h (v, vs) = ((h, v), vs)

pub split-All : (P : ℕ → Type 0) (sep : ℕ) (s : Bytes) → All P s → All (All P) (split sep s)
unfolding split
split-All P sep [] h = (tt, tt)
split-All P sep (c ∷ s) (p, h) = elim (Bool-cases (c == sep)) [
  | inl e ↦ rw e (tt, split-All P sep s h)
  | inr e ↦ rw e (All-grow P c (split sep s) p (split-All P sep s h))
]

pub split-Lacks : (sep : ℕ) (s : Bytes) → All (Lacks sep) (split sep s)
unfolding split
split-Lacks sep [] = (tt, tt)
split-Lacks sep (c ∷ s) = elim (Bool-cases (c == sep)) [
  | inl e ↦ rw e (tt, split-Lacks sep s)
  | inr e ↦ rw e (All-grow (λ b. b ≢ sep) c (split sep s) (ground arith) (split-Lacks sep s))
]

pub split_of_Lacks : (sep : ℕ) (s : Bytes) → Lacks sep s → split sep s ≡ s ∷ []
unfolding split
split_of_Lacks sep [] h = refl
split_of_Lacks sep (c ∷ s) (p, h) = ground (arith, split_of_Lacks sep s h)
