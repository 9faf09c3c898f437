-- ===== src/Prelude/Tables.antt =====
-- What holds of every number below a bound, by trying each.
use mathlib.Core.Path.{◌≡◌, sym, subst}
use mathlib.Core.Bool.{Bool, true, ◌&&◌}
use mathlib.Core.Logic.{inl, inr}
use Prim.Native.Nat.{ℕ, zero, suc, ◌<◌}
use native.Mathlib.Omega.{arith}
use erikslund_http_embedded.Prelude.Tests.{Bool-cases, ◌==◌, ==_iff, &&-eq-true}

unfoldable pub all_below : ℕ → (ℕ → Bool) → Bool
all_below zero p = true
all_below (suc n) p = p n && all_below n p

pub all_below-lt : (n : ℕ) (p : ℕ → Bool) (x : ℕ) → all_below n p ≡ true → x < n → p x ≡ true
unfolding all_below
all_below-lt zero p x h lt = absurd (omega arith)
all_below-lt (suc n) p x h lt = elim (Bool-cases (x == n)) [
  | inl e ↦ subst (λ z. p z ≡ true) (sym ((==_iff x n).0 e)) (&&-eq-true (p n) (all_below n p) h).0
  | inr e ↦ all_below-lt n p x (&&-eq-true (p n) (all_below n p) h).1 (ground arith)
]
