-- ===== src/Request/Members.antt =====
-- `for_each_list_member` of src/request.cpp: the members of a delimited list field.
use erikslund_http_embedded.Prelude.{
  ℕ, zero, suc, ◌+◌, ◌<◌, ◌≡◌, refl, inl, inr, true, false, none, some, List, [], ◌∷◌, arith,
  if◌then◌else◌, Bool-cases, Bytes, is_empty, cut, split, cut_cases, length,
}
use erikslund_http_embedded.Request.Chars.{trim_optional_whitespace}

unfoldable pub visit_piece {ℓ} : {S : Type ℓ} → (Bytes → S → S) → Bytes → S → S
visit_piece visit piece s =
    let member = trim_optional_whitespace piece in if is_empty member then s else visit member s

-- The loop, over what the visitor's captured variables hold. Each round takes a separator off or is
-- the last, so the fuel below is enough.
unfoldable pub visit_from {ℓ} : {S : Type ℓ} → (Bytes → S → S) → ℕ → ℕ → Bytes → S → S
visit_from visit zero separator value s = s
visit_from visit (suc fuel) separator value s = elim (is_empty value) [
  | true ↦ s
  | false ↦
      let (piece, more) = cut separator value in
      let s' = visit_piece visit piece s in
      elim more [ none ↦ s' | some next ↦ visit_from visit fuel separator next s' ]
]

unfoldable pub for_each_list_member {ℓ} : {S : Type ℓ} → Bytes → ℕ → (Bytes → S → S) → S → S
unfolding visit_from visit_piece
for_each_list_member value separator visit s = visit_from visit (length value + 1) separator value s

-- The members of a list of pieces: trimmed, the empty ones left out.
pub members : List Bytes → List Bytes
members [] = []
members (piece ∷ pieces) =
    let member = trim_optional_whitespace piece in
    if is_empty member then members pieces else member ∷ members pieces

pub visit_all {ℓ} : {S : Type ℓ} → (Bytes → S → S) → List Bytes → S → S
visit_all visit [] s = s
visit_all visit (m ∷ ms) s = visit_all visit ms (visit m s)

module _ {ℓ} {S : Type ℓ} (visit : Bytes → S → S) where
  visit_one :
      (piece : Bytes) (pieces : List Bytes) (s : S)
      → visit_all visit (members (piece ∷ pieces)) s
        ≡ visit_all visit (members pieces) (visit_piece visit piece s)
  unfolding members visit_all visit_piece
  visit_one piece pieces s = elim (Bool-cases (is_empty (trim_optional_whitespace piece))) [
    | inl e ↦ rw e refl
    | inr e ↦ rw e refl
  ]

  members-nil : (s : S) → visit_all visit (members []) s ≡ s
  unfolding members visit_all
  members-nil s = refl

  visit_from-members :
      (fuel separator : ℕ) (value : Bytes) (s : S)
      → length value < fuel
      → visit_from visit fuel separator value s
        ≡ visit_all visit (members (split separator value)) s
  unfolding visit_from
  visit_from-members zero separator value s l = absurd (omega arith)
  visit_from-members (suc fuel) separator [] s l =
      unfold split members trim_optional_whitespace visit_all in refl
  visit_from-members (suc fuel) separator (c ∷ rest) s l = elim (cut_cases separator (c ∷ rest)) [
    | inl (e, f, _) ↦
        rw (f, visit_one (c ∷ rest) [] s) (rw members-nil (rw (e, visit_from) (ground (arith, e))))
    | inr (p, q, e, f, _, _, m) ↦
        rw (f, visit_one p (split separator q) s)
          (ground
            (arith, e, visit_from-members fuel separator q (visit_piece visit p s) (omega arith)))
  ]

  -- The loop visits the members between the separators, in order and once each.
  pub for_each_list_member_lem :
      (value : Bytes) (separator : ℕ) (s : S)
      → for_each_list_member value separator visit s
        ≡ visit_all visit (members (split separator value)) s
  unfolding for_each_list_member
  for_each_list_member_lem value separator s =
      visit_from-members (length value + 1) separator value s (omega arith)
