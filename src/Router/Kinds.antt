-- ===== src/Router/Kinds.antt =====
-- That registration tells the routes with a parameter or a wildcard from the exact ones.
use erikslund_http_embedded.Prelude.{
  ℕ, zero, suc, ◌≡◌, refl, ◌⊎◌, inl, inr, Bool, true, false, ◌||◌, arith, ltb, Bool-cases, Bytes,
  cut, cut_cases, length, drop,
}
use erikslund_http_embedded.Router.Table.{Compiled, Handler, add_piece, nothing_compiled, compile}
use erikslund_http_embedded.Method.{Method}
use erikslund_http_embedded.Router.Pattern.{
  RouteSegmentKind, classify_segment, invalid_segment, literal_segment, parameter_segment,
  wildcard_segment,
}
use erikslund_http_embedded.Router.Registration.{has_parameter, is_variable, registered}

kind_cases :
    (k : RouteSegmentKind)
    → (k ≡ literal_segment)
      ⊎ ((k ≡ parameter_segment) ⊎ ((k ≡ wildcard_segment) ⊎ (k ≡ invalid_segment)))
kind_cases literal_segment = inl refl
kind_cases parameter_segment = inr (inl refl)
kind_cases wildcard_segment = inr (inr (inl refl))
kind_cases invalid_segment = inr (inr (inr refl))

abbrev CountsParameters : Compiled → Type 0
CountsParameters c = has_parameter c.segments ≡ ltb 0 c.parameter_count

add_piece-CountsParameters :
    (piece : Bytes) (is_final : Bool) (later : Compiled)
    → CountsParameters later
    → CountsParameters (add_piece piece is_final later)
unfolding add_piece
add_piece-CountsParameters piece is_final later h =
    elim (kind_cases (classify_segment piece is_final)) [
      | inl e ↦ rw (add_piece, e) h
      | inr (inl e) ↦ rw (add_piece, e) (ground arith)
      | inr (inr (inl e)) ↦ rw (add_piece, e) h
      | inr (inr (inr e)) ↦ rw (add_piece, e) h
    ]

compile-CountsParameters : (fuel : ℕ) (rest : Bytes) → CountsParameters (compile fuel rest)
unfolding compile
compile-CountsParameters zero rest = ground arith
compile-CountsParameters (suc fuel) rest = elim (cut_cases b'/' rest) [
  | inl (e, _, _) ↦
      rw (compile, e)
        (add_piece-CountsParameters (cut b'/' rest).0 true nothing_compiled (ground arith))
  | inr (piece, r, e, _, _, _, _) ↦
      rw (compile, e)
        (add_piece-CountsParameters (cut b'/' rest).0 false (compile fuel r)
          (compile-CountsParameters fuel r))
]

abbrev pub is_dynamic_pattern : Bytes → Bool
is_dynamic_pattern pattern =
    let compiled = compile (length pattern) (drop 1 pattern) in
    compiled.has_wildcard || ltb 0 compiled.parameter_count

pub registered-is_variable :
    {R : Type 0} (methods : Method) (pattern : Bytes) (handler : Handler R)
    → is_variable (registered methods pattern handler) ≡ is_dynamic_pattern pattern
registered-is_variable methods pattern handler =
    let counts = compile-CountsParameters (length pattern) (drop 1 pattern) in
    elim (Bool-cases (is_dynamic_pattern pattern)) [
      | inl e ↦ rw e (ground (arith, counts, e))
      | inr e ↦ rw e (ground (arith, counts, e))
    ]
