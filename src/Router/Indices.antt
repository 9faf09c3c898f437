-- ===== src/Router/Indices.antt =====
-- Indices of routes: what stands at them, and the index of the exact patterns.
use erikslund_http_embedded.Prelude.{
  ℕ, zero, suc, ◌+◌, ◌<◌, ◌≡◌, refl, sym, ap, ◌∙◌, inl, inr, Bool, false, some, List, [], ◌∷◌, ◌++◌,
  arith, if◌then◌else◌, Bool-cases, Option-cases, Bytes, bytes_eq, bytes_eq_iff, length, get_elem?,
  All, ap₂, Option, none,
}
use erikslund_http_embedded.Router.Table.{Route, add_index, indices_of, routes_at, or_empty}
use erikslund_http_embedded.Router.Registration.{kept}

pub kept-append :
    {A : Type 0} (test : A → Bool) (xs ys : List A)
    → kept test (xs ++ ys) ≡ kept test xs ++ kept test ys
unfolding kept
kept-append test [] ys = refl
kept-append test (x ∷ xs) ys = elim (Bool-cases (test x)) [
  | inl e ↦ rw e (ap (◌∷◌ x) (kept-append test xs ys))
  | inr e ↦ rw e (kept-append test xs ys)
]

abbrev pub Below : ℕ → List ℕ → Type 0
Below n indices = All (λ i. i < n) indices

pub routes_at-append :
    {R : Type 0} (routes : List (Route R)) (is js : List ℕ)
    → routes_at routes (is ++ js) ≡ routes_at routes is ++ routes_at routes js
unfolding routes_at
routes_at-append routes [] js = refl
routes_at-append routes (i ∷ is) js = elim (Option-cases (get_elem? routes i)) [
  | inl e ↦ rw (routes_at, e) (routes_at-append routes is js)
  | inr (r, e) ↦ rw (routes_at, e) (ap (◌∷◌ r) (routes_at-append routes is js))
]

at_front :
    {A : Type 0} (xs ys : List A) (i : ℕ) → i < length xs → get_elem? (xs ++ ys) i ≡ get_elem? xs i
at_front [] ys i h = absurd (omega arith)
at_front (x ∷ xs) ys zero h = refl
at_front (x ∷ xs) ys (suc i) h = at_front xs ys i (omega arith)

at_end : {A : Type 0} (xs : List A) (x : A) → get_elem? (xs ++ (x ∷ [])) (length xs) ≡ some x
at_end [] x = refl
at_end (y ∷ xs) x = at_end xs x

abbrev put_front : {A : Type 0} → Option A → List A → List A
put_front none later = later
put_front (some r) later = r ∷ later

routes_at_head :
    {R : Type 0} (routes : List (Route R)) (i : ℕ) (indices : List ℕ)
    → routes_at routes (i ∷ indices) ≡ put_front (get_elem? routes i) (routes_at routes indices)
unfolding routes_at
routes_at_head routes i indices = elim (Option-cases (get_elem? routes i)) [
  | inl e ↦ rw (routes_at, e) refl
  | inr (r, e) ↦ rw (routes_at, e) refl
]

pub routes_at-more :
    {R : Type 0} (routes more : List (Route R)) (indices : List ℕ)
    → Below (length routes) indices
    → routes_at (routes ++ more) indices ≡ routes_at routes indices
routes_at-more routes more [] h = unfold routes_at in refl
routes_at-more routes more (i ∷ indices) (p, h) =
    routes_at_head (routes ++ more) i indices
    ∙ (ap₂ put_front (at_front routes more i p) (routes_at-more routes more indices h)
        ∙ sym (routes_at_head routes i indices))

pub routes_at-last :
    {R : Type 0} (routes : List (Route R)) (r : Route R)
    → routes_at (routes ++ (r ∷ [])) (length routes ∷ []) ≡ r ∷ []
unfolding routes_at
routes_at-last routes r = rw (routes_at, at_end routes r) refl

pub Below-more : (n : ℕ) (indices : List ℕ) → Below n indices → Below (n + 1) indices
Below-more n [] h = tt
Below-more n (i ∷ indices) (p, h) = (omega arith, Below-more n indices h)

pub Below-last : (n : ℕ) (indices : List ℕ) → Below n indices → Below (n + 1) (indices ++ (n ∷ []))
Below-last n [] h = (omega arith, tt)
Below-last n (i ∷ indices) (p, h) = (omega arith, Below-last n indices h)

abbrev pub under : Bytes → List (Bytes × List ℕ) → List ℕ
under path index = or_empty (indices_of path index)

different :
    (k pattern path : Bytes) → k ≡ path → bytes_eq k pattern ≡ false → bytes_eq pattern path ≡ false
different k pattern path e h = elim (Bool-cases (bytes_eq pattern path)) [
  | inr f ↦ f
  | inl f ↦
      let same : k ≡ pattern = e ∙ sym ((bytes_eq_iff pattern path).0 f) in
      absurd (ground (arith, h, (bytes_eq_iff k pattern).1 same))
]

pub under-add_index :
    (pattern path : Bytes) (i : ℕ) (index : List (Bytes × List ℕ))
    → under path (add_index pattern i index)
      ≡ (if bytes_eq pattern path then under path index ++ (i ∷ []) else under path index)
unfolding indices_of add_index
under-add_index pattern path i [] = elim (Bool-cases (bytes_eq pattern path)) [
  | inl e ↦ rw e refl
  | inr e ↦ rw e refl
]
under-add_index pattern path i ((k, indices) ∷ index) = elim (Bool-cases (bytes_eq k pattern)) [
  | inl e ↦
      let same : k ≡ pattern = (bytes_eq_iff k pattern).0 e in
      elim (Bool-cases (bytes_eq pattern path)) [
        | inl f ↦ rw e (rw same (rw f refl))
        | inr f ↦ rw e (rw same (rw f refl))
      ]
  | inr e ↦ elim (Bool-cases (bytes_eq k path)) [
    | inl f ↦
        let there : k ≡ path = (bytes_eq_iff k path).0 f in
        let apart : bytes_eq pattern path ≡ false = different k pattern path there e in
        rw (e, f, apart) refl
    | inr f ↦ rw (e, f) (under-add_index pattern path i index)
  ]
]
