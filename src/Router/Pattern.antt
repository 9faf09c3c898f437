-- ===== src/Router/Pattern.antt =====
-- Route patterns: src/router.hpp's `router_detail`, `is_valid_route_pattern`.
use erikslund_http_embedded.Prelude.{
  ℕ, Bytes, Bool, zero, suc, ◌+◌, ◌-◌, true, false, not, ◌&&◌, ◌||◌, none, some, [], ◌∷◌, ltb, ◌==◌,
  if◌then◌else◌, codes, is_empty, bytes_eq, starts_with, contains_byte, cut, length, take, drop,
}
use erikslund_http_embedded.Request.Types.{max_path_parameters}

pub data RouteSegmentKind : Type 0 where
  literal_segment parameter_segment wildcard_segment invalid_segment : RouteSegmentKind

unfoldable pub is_reachable_segment : Bytes → Bool → Bool
is_reachable_segment segment is_final_segment =
    if is_empty segment
    then is_final_segment
    else not (bytes_eq segment (codes ".")) && not (bytes_eq segment (codes ".."))

-- The last byte of a view that is not empty.
unfoldable pub ends_with : Bytes → ℕ → Bool
ends_with [] last = false
ends_with (c ∷ []) last = c == last
ends_with (c ∷ d ∷ s) last = ends_with (d ∷ s) last

unfoldable pub classify_segment : Bytes → Bool → RouteSegmentKind
unfolding is_reachable_segment ends_with
classify_segment segment is_final_segment =
    if not (is_reachable_segment segment is_final_segment)
    then invalid_segment
    else if bytes_eq segment (codes "*")
    then if is_final_segment then wildcard_segment else invalid_segment
    else if contains_byte segment b'*'
    then invalid_segment
    else if not (contains_byte segment b'{' || contains_byte segment b'}')
    then literal_segment
    else if ltb (length segment) 3
        || not (starts_with segment (codes "{"))
        || not (ends_with segment b'}')
    then invalid_segment
    else let name = take (length segment - 2) (drop 1 segment) in
      if is_empty name || contains_byte name b'{' || contains_byte name b'}'
      then invalid_segment
      else parameter_segment

-- The loop of `is_valid_route_pattern`, behind the leading "/".
unfoldable pub pieces_are_valid : ℕ → Bytes → ℕ → Bool
unfolding classify_segment
pieces_are_valid zero rest parameter_count = false
pieces_are_valid (suc fuel) rest parameter_count =
    let (piece, after) = cut b'/' rest in
    let is_final : Bool = elim after [ none ↦ true | some r ↦ false ] in
    let counted : Bool = elim after [
      | none ↦ true
      | some r ↦ pieces_are_valid fuel r (parameter_count + 1)
    ] in
    let uncounted : Bool = elim after [
      | none ↦ true
      | some r ↦ pieces_are_valid fuel r parameter_count
    ] in
    elim (classify_segment piece is_final) [
      | parameter_segment ↦ if ltb max_path_parameters (parameter_count + 1) then false else counted
      | wildcard_segment ↦ uncounted
      | literal_segment ↦ uncounted
      | invalid_segment ↦ false
    ]

unfoldable pub is_valid_route_pattern : Bytes → Bool
unfolding pieces_are_valid
is_valid_route_pattern [] = false
is_valid_route_pattern (c ∷ rest) =
    if not (c == b'/') then false else pieces_are_valid (length rest + 1) rest 0
