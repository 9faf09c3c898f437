-- ===== src/Prelude/Views.antt =====
-- `std::string_view` as a list of bytes, and the members of it that the source calls.
use Prim.Native.Char.{code}
use Prim.Native.String.{String}
use mathlib.Core.Path.{◌≡◌, refl, ap}
use mathlib.Core.Logic.{◌↔◌, ◌≢◌, ◌⊎◌, inl, inr}
use mathlib.Core.Bool.{Bool, true, false, ◌&&◌, ◌||◌}
use mathlib.Core.List.{List, [], ◌∷◌, ◌++◌}
use mathlib.Core.Option.{Option, none, some}
use erikslund_http_embedded.Prelude.Tests.{Option-cases, Bool-cases, ◌==◌, if◌then◌else◌}
use native.Mathlib.Omega.{arith}
use Prim.Native.Nat.{ℕ, suc, ◌+◌, ◌≤◌, ◌<◌}
use erikslund_http_embedded.Prelude.Lists.{length, take, drop, All}

abbrev pub Bytes : Type 0
Bytes = List ℕ

-- The code points of a literal; these are its bytes when the text is ASCII.
abbrev pub codes : String → Bytes
codes String.[] = []
codes (String.◌∷◌ c s) = code c ∷ codes s

abbrev pub is_empty {ℓ} : {A : Type ℓ} → List A → Bool
is_empty [] = true
is_empty (x ∷ xs) = false

-- `left == right` on views.
unfoldable pub bytes_eq : Bytes → Bytes → Bool
bytes_eq [] [] = true
bytes_eq [] (y ∷ ys) = false
bytes_eq (x ∷ xs) [] = false
bytes_eq (x ∷ xs) (y ∷ ys) = x == y && bytes_eq xs ys

unfoldable pub starts_with : Bytes → Bytes → Bool
starts_with s [] = true
starts_with [] (p ∷ ps) = false
starts_with (c ∷ s) (p ∷ ps) = c == p && starts_with s ps

-- `view.contains(character)`
unfoldable pub contains_byte : Bytes → ℕ → Bool
contains_byte [] c = false
contains_byte (x ∷ xs) c = x == c || contains_byte xs c

-- The view before the first `sep`, and the view after it: `find` with the two `substr` calls.
unfoldable pub cut : ℕ → Bytes → Bytes × Option Bytes
cut sep [] = ([], none)
cut sep (c ∷ s) =
    let (piece, rest) = cut sep s in if c == sep then ([], some s) else (c ∷ piece, rest)

pub bytes_eq_iff : (xs ys : Bytes) → (bytes_eq xs ys ≡ true) ↔ (xs ≡ ys)
unfolding bytes_eq
bytes_eq_iff [] [] = (λ _. refl, λ _. refl)
bytes_eq_iff [] (y ∷ ys) = (λ h. cc, λ h. cc)
bytes_eq_iff (x ∷ xs) [] = (λ h. cc, λ h. cc)
bytes_eq_iff (x ∷ xs) (y ∷ ys) =
    let ih = bytes_eq_iff xs ys in (λ h. ground (arith, ih.0), λ h. ground (arith, ih.1))

pub bytes_eq_refl : (xs : Bytes) → bytes_eq xs xs ≡ true
bytes_eq_refl xs = (bytes_eq_iff xs xs).1 refl

abbrev pub Lacks : ℕ → Bytes → Type 0
Lacks b = All (λ c. c ≢ b)

pub contains_byte-Lacks : (s : Bytes) (c : ℕ) → (contains_byte s c ≡ false) ↔ Lacks c s
unfolding contains_byte
contains_byte-Lacks [] c = (λ _. tt, λ _. refl)
contains_byte-Lacks (x ∷ xs) c =
    let ih = contains_byte-Lacks xs c in
    (λ h. (ground arith, ih.0 (ground arith)), λ h. ground (arith, ih.1 h.1))

-- The pieces between separators: `a.b.` has the pieces `a`, `b` and the empty one.
abbrev pub grow : ℕ → List Bytes → List Bytes
grow c [] = (c ∷ []) ∷ []
grow c (p ∷ ps) = (c ∷ p) ∷ ps

unfoldable pub split : ℕ → Bytes → List Bytes
split sep [] = [] ∷ []
split sep (c ∷ s) = if c == sep then [] ∷ split sep s else grow c (split sep s)

-- `split` in terms of the first cut: what a proof about a loop over the pieces needs.
abbrev pub CutsOff : ℕ → Bytes → Type 0
CutsOff sep s =
    (piece : Bytes) × (rest : Bytes) × (cut sep s ≡ (piece, some rest))
    × (split sep s ≡ piece ∷ split sep rest)
    × (s ≡ piece ++ (sep ∷ rest))
    × Lacks sep piece
    × (length rest < length s)

abbrev pub IsWhole : ℕ → Bytes → Type 0
IsWhole sep s = (cut sep s ≡ (s, none)) × (split sep s ≡ s ∷ []) × Lacks sep s

pub cut_cases : (sep : ℕ) (s : Bytes) → IsWhole sep s ⊎ CutsOff sep s
unfolding cut split
cut_cases sep [] = inl (refl, refl, tt)
cut_cases sep (c ∷ s) = elim (Bool-cases (c == sep)) [
  | inl same ↦ inr ([], s, rw same, rw same, ground arith, tt, omega arith)
  | inr other ↦ elim (cut_cases sep s) [
    | inl (e, f, h) ↦ inl (rw (other, e), rw (other, f), (ground arith, h))
    | inr (p, r, e, f, g, h, l) ↦
        inr (c ∷ p, r, rw (other, e), rw (other, f), ap (◌∷◌ c) g, (ground arith, h), omega arith)
  ]
]

pub cut-append :
    (sep : ℕ) (piece rest : Bytes)
    → Lacks sep piece
    → cut sep (piece ++ (sep ∷ rest)) ≡ (piece, some rest)
unfolding cut
cut-append sep [] rest h = ground arith
cut-append sep (c ∷ piece) rest (p, h) = ground (arith, cut-append sep piece rest h)

pub cut_of_Lacks : (sep : ℕ) (s : Bytes) → Lacks sep s → cut sep s ≡ (s, none)
unfolding cut
cut_of_Lacks sep [] h = refl
cut_of_Lacks sep (c ∷ s) (p, h) = ground (arith, cut_of_Lacks sep s h)

-- `find(pattern)` for a pattern of several bytes: the first index at which it stands.
unfoldable pub find_string : Bytes → Bytes → Option ℕ
find_string wanted [] = if is_empty wanted then some 0 else none
find_string wanted (c ∷ s) =
    let later = find_string wanted s in
    if starts_with (c ∷ s) wanted
    then some 0
    else elim later [ none ↦ none | some i ↦ some (suc i) ]

-- A pattern is found behind a prefix that lacks its first byte, at the prefix's length.
pub find_string-append :
    (c : ℕ) (wanted prefix rest : Bytes)
    → Lacks c prefix
    → starts_with rest (c ∷ wanted) ≡ true
    → find_string (c ∷ wanted) (prefix ++ rest) ≡ some (length prefix)
unfolding find_string starts_with
find_string-append c wanted [] [] h k = cc
find_string-append c wanted [] (x ∷ rest) h k = ground arith
find_string-append c wanted (p ∷ prefix) rest (q, h) k =
    ground (arith, find_string-append c wanted prefix rest h k)

pub starts_with-append : (prefix rest : Bytes) → starts_with (prefix ++ rest) prefix ≡ true
unfolding starts_with
starts_with-append [] [] = refl
starts_with-append [] (x ∷ rest) = refl
starts_with-append (p ∷ prefix) rest = ground (arith, starts_with-append prefix rest)

pub starts_with-drop :
    (s prefix : Bytes) → starts_with s prefix ≡ true → s ≡ prefix ++ drop (length prefix) s
unfolding starts_with
starts_with-drop s [] h = refl
starts_with-drop [] (p ∷ prefix) h = cc
starts_with-drop (c ∷ s) (p ∷ prefix) h = ground (arith, starts_with-drop s prefix)

starts_with-nil : (s : Bytes) → starts_with s [] ≡ true
unfolding starts_with
starts_with-nil [] = refl
starts_with-nil (c ∷ s) = refl

starts_with-length : (s wanted : Bytes) → starts_with s wanted ≡ true → length wanted ≤ length s
unfolding starts_with
starts_with-length s [] h = omega arith
starts_with-length [] (p ∷ ps) h = cc
starts_with-length (c ∷ s) (p ∷ ps) h = ground (arith, starts_with-length s ps)

starts_with_prefix :
    (s wanted tail : Bytes) → starts_with s (wanted ++ tail) ≡ true → starts_with s wanted ≡ true
unfolding starts_with
starts_with_prefix s [] tail h = starts_with-nil s
starts_with_prefix [] (p ∷ ps) tail h = cc
starts_with_prefix (c ∷ s) (p ∷ ps) tail h = ground (arith, starts_with_prefix s ps tail)

-- A prefix test is decided by as many bytes as the prefix has.
pub starts_with-append_long :
    (s more wanted : Bytes)
    → length wanted ≤ length s
    → starts_with (s ++ more) wanted ≡ starts_with s wanted
unfolding starts_with
starts_with-append_long [] more [] h = starts_with-nil more
starts_with-append_long [] more (p ∷ ps) h = absurd (omega arith)
starts_with-append_long (c ∷ s) more [] h = refl
starts_with-append_long (c ∷ s) more (p ∷ ps) h =
    ap (λ b. c == p && b) (starts_with-append_long s more ps (omega arith))

pub find_string-bound :
    (c : ℕ) (wanted s : Bytes) {i : ℕ}
    → find_string (c ∷ wanted) s ≡ some i
    → i + suc (length wanted) ≤ length s
unfolding find_string
find_string-bound c wanted [] h = cc
find_string-bound c wanted (x ∷ s) {i} h = elim (Bool-cases (starts_with (x ∷ s) (c ∷ wanted))) [
  | inl e ↦
      let first : i ≡ 0 = ground arith in omega (arith, starts_with-length (x ∷ s) (c ∷ wanted) e)
  | inr e ↦ elim (Option-cases (find_string (c ∷ wanted) s)) [
    | inl f ↦ absurd (ground arith)
    | inr (j, f) ↦
        let later : i ≡ suc j = ground arith in omega (arith, find_string-bound c wanted s f)
  ]
]

-- What stands where a pattern is found.
pub find_string-at :
    (c : ℕ) (wanted s : Bytes) {i : ℕ}
    → find_string (c ∷ wanted) s ≡ some i
    → s ≡ take i s ++ ((c ∷ wanted) ++ drop (i + suc (length wanted)) s)
unfolding find_string
find_string-at c wanted [] h = cc
find_string-at c wanted (x ∷ s) {i} h = elim (Bool-cases (starts_with (x ∷ s) (c ∷ wanted))) [
  | inl e ↦
      let first : i ≡ 0 = ground arith in
      let size : 0 + suc (length wanted) ≡ suc (length wanted) = omega arith in
      rw (first, size) (starts_with-drop (x ∷ s) (c ∷ wanted) e)
  | inr e ↦ elim (Option-cases (find_string (c ∷ wanted) s)) [
    | inl f ↦ absurd (ground arith)
    | inr (j, f) ↦
        let later : i ≡ suc j = ground arith in
        let step : suc j + suc (length wanted) ≡ suc (j + suc (length wanted)) = omega arith in
        rw (later, step) (ap (◌∷◌ x) (find_string-at c wanted s f))
  ]
]

-- What is found in a view is found at the same place when the view grows.
pub find_string-append_found :
    (c : ℕ) (wanted s more : Bytes) {i : ℕ}
    → find_string (c ∷ wanted) s ≡ some i
    → find_string (c ∷ wanted) (s ++ more) ≡ some i
unfolding find_string
find_string-append_found c wanted [] more h = cc
find_string-append_found c wanted (x ∷ s) more {i} h =
    let fits = find_string-bound c wanted (x ∷ s) h in
    let same = starts_with-append_long (x ∷ s) more (c ∷ wanted) (omega arith) in
    elim (Bool-cases (starts_with (x ∷ s) (c ∷ wanted))) [
      | inl e ↦ ground (arith, same)
      | inr e ↦ elim (Option-cases (find_string (c ∷ wanted) s)) [
        | inl f ↦ absurd (ground arith)
        | inr (j, f) ↦ ground (arith, same, find_string-append_found c wanted s more f)
      ]
    ]

-- Where a longer pattern stands, its prefix stands there or earlier.
pub find_string_prefix :
    (c : ℕ) (wanted tail s : Bytes) {i : ℕ}
    → find_string (c ∷ wanted ++ tail) s ≡ some i
    → (j : ℕ) × (find_string (c ∷ wanted) s ≡ some j) × (j ≤ i)
unfolding find_string
find_string_prefix c wanted tail [] h = cc
find_string_prefix c wanted tail (x ∷ s) {i} h =
    elim (Bool-cases (starts_with (x ∷ s) (c ∷ wanted))) [
      | inl e ↦ (0, ground arith, omega arith)
      | inr e ↦ elim (Option-cases (find_string (c ∷ wanted ++ tail) s)) [
        | inl f ↦ absurd (ground (arith, starts_with_prefix (x ∷ s) (c ∷ wanted) tail))
        | inr (k, f) ↦
            let later : i ≡ suc k = ground (arith, starts_with_prefix (x ∷ s) (c ∷ wanted) tail) in
            let (j, g, l) = find_string_prefix c wanted tail s f in
            (suc j, ground arith, omega arith)
      ]
    ]
