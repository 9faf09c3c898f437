-- ===== src/Router/Table.antt =====
-- The routes of a router and their registration.
use erikslund_http_embedded.Prelude.{
  ℕ, Bytes, Bool, zero, suc, ◌+◌, ◌-◌, true, false, not, ◌&&◌, ◌||◌, Option, none, some, List, [],
  ◌∷◌, ◌++◌, ltb, ◌==◌, if◌then◌else◌, bytes_eq, cut, length, get_elem?, take, drop, Result, ok,
  err, codes, starts_with, contains_byte,
}
use erikslund_http_embedded.Method.{Method, no_method, intersection}
use erikslund_http_embedded.Request.Types.{max_path_parameters}
use erikslund_http_embedded.Request.State.{Request}
use erikslund_http_embedded.Router.Pattern.{
  classify_segment, is_valid_route_pattern, invalid_segment, literal_segment, parameter_segment,
  wildcard_segment, ends_with,
}

pub record Segment : Type 0 where
  pub is_parameter : Bool
  pub parameter_name : Bytes
  pub literal : Bytes

abbrev pub Handler : Type 0 → Type 0
Handler R = Request → Option R

pub record Route (R : Type 0) : Type 0 where
  pub methods : Method
  pub pattern : Bytes
  pub segments : List Segment
  pub has_wildcard : Bool
  pub handler : Handler R

-- A mount, with its bundle's lookup. What an asset is does not matter to the choice.
pub record Mount (Asset : Type 0) : Type 0 where
  pub prefix : Bytes
  pub bundle : Bytes → Option Asset

-- The exact index maps a pattern to indices of routes, the dynamic routes are indices in order.
pub record Router (R Asset : Type 0) : Type 0 where
  pub routes : List (Route R)
  pub exact_index : List (Bytes × List ℕ)
  pub dynamic_routes : List ℕ
  pub mounts : List (Mount Asset)
  pub middleware : List (Request → Option (Option R))
  pub fallback : Option (Handler R)

pub data ServerError : Type 0 where
  no_method_given invalid_pattern too_many_captures already_registered : ServerError
  fallback_already_set mount_without_slash mount_with_pattern : ServerError

-- The compiled form of a pattern.
pub record Compiled : Type 0 where
  pub segments : List Segment
  pub has_wildcard : Bool
  pub parameter_count : ℕ

unfoldable pub add_piece : Bytes → Bool → Compiled → Compiled
unfolding classify_segment
add_piece piece is_final later = elim (classify_segment piece is_final) [
  | wildcard_segment ↦ record later { has_wildcard = true }
  | parameter_segment ↦ record later {
    segments =
        record {
          is_parameter = true;
          parameter_name = take (length piece - 2) (drop 1 piece);
          literal = [];
        }
        ∷ later.segments;
    parameter_count = later.parameter_count + 1;
  }
  | literal_segment ↦ record later {
    segments =
        record { is_parameter = false; parameter_name = []; literal = piece } ∷ later.segments;
  }
  | invalid_segment ↦ later
]

abbrev pub nothing_compiled : Compiled
nothing_compiled = record { segments = []; has_wildcard = false; parameter_count = 0 }

-- The loop of `route` over the pieces of a pattern, behind the leading "/".
unfoldable pub compile : ℕ → Bytes → Compiled
unfolding add_piece
compile zero rest = nothing_compiled
compile (suc fuel) rest =
    let (piece, after) = cut b'/' rest in
    elim after [
      | none ↦ add_piece piece true nothing_compiled
      | some r ↦ add_piece piece false (compile fuel r)
    ]

-- `exact_index_[key]` and `exact_index_.contains(key)`
unfoldable pub indices_of : Bytes → List (Bytes × List ℕ) → Option (List ℕ)
indices_of key [] = none
indices_of key ((k, indices) ∷ index) =
    if bytes_eq k key then some indices else indices_of key index

unfoldable pub add_index : Bytes → ℕ → List (Bytes × List ℕ) → List (Bytes × List ℕ)
add_index key i [] = (key, i ∷ []) ∷ []
add_index key i ((k, indices) ∷ index) =
    if bytes_eq k key
    then (k, indices ++ (i ∷ [])) ∷ index
    else (k, indices) ∷ add_index key i index

abbrev overlaps : Method → Method → Bool
overlaps existing methods = not (intersection existing methods == no_method)

-- The routes that stand at indices, in their order; an index out of range names none.
unfoldable pub routes_at : {R : Type 0} → List (Route R) → List ℕ → List (Route R)
routes_at routes [] = []
routes_at routes (i ∷ indices) =
    let later = routes_at routes indices in
    elim (get_elem? routes i) [ none ↦ later | some r ↦ r ∷ later ]

-- Whether a route with the pattern takes one of the methods already.
unfoldable pub is_taken : {R : Type 0} → Bytes → Method → List (Route R) → Bool
is_taken pattern methods [] = false
is_taken pattern methods (r ∷ routes) =
    (bytes_eq r.pattern pattern && overlaps r.methods methods) || is_taken pattern methods routes

-- The exact routes of one pattern are compared by their methods alone.
unfoldable pub methods_are_taken : {R : Type 0} → Method → List (Route R) → Bool
methods_are_taken methods [] = false
methods_are_taken methods (r ∷ routes) =
    overlaps r.methods methods || methods_are_taken methods routes

abbrev pub or_empty : Option (List ℕ) → List ℕ
or_empty none = []
or_empty (some indices) = indices

abbrev pub compiled_route : {R : Type 0} → Method → Bytes → Compiled → Bool → Handler R → Route R
compiled_route methods pattern compiled is_dynamic handler = record {
  methods = methods;
  pattern = pattern;
  segments = if is_dynamic then compiled.segments else [];
  has_wildcard = compiled.has_wildcard;
  handler = handler;
}

-- `Router::route`, with a handler that is not empty.
unfoldable pub route :
    {R Asset : Type 0}
    → Router R Asset
    → Method
    → Bytes
    → Handler R
    → Result ServerError (Router R Asset)
unfolding is_valid_route_pattern compile add_index indices_of routes_at is_taken methods_are_taken
route router methods pattern handler =
    let compiled = compile (length pattern) (drop 1 pattern) in
    let is_dynamic = compiled.has_wildcard || ltb 0 compiled.parameter_count in
    let index = length router.routes in
    let added = compiled_route methods pattern compiled is_dynamic handler in
    if methods == no_method
    then err no_method_given
    else if not (is_valid_route_pattern pattern)
    then err invalid_pattern
    else if ltb max_path_parameters compiled.parameter_count
    then err too_many_captures
    else if is_dynamic
    then if is_taken pattern methods (routes_at router.routes router.dynamic_routes)
      then err already_registered
      else ok (record router {
        routes = router.routes ++ (added ∷ []);
        dynamic_routes = router.dynamic_routes ++ (index ∷ []);
      })
    else if methods_are_taken methods
        (routes_at router.routes (or_empty (indices_of pattern router.exact_index)))
    then err already_registered
    else ok (record router {
      routes = router.routes ++ (added ∷ []);
      exact_index = add_index pattern index router.exact_index;
    })

-- `Router::use` and `Router::fallback`, with a middleware and a handler that are not empty.
abbrev pub use_middleware :
    {R Asset : Type 0} → Router R Asset → (Request → Option (Option R)) → Router R Asset
use_middleware router added = record router { middleware = router.middleware ++ (added ∷ []) }

abbrev pub set_fallback :
    {R Asset : Type 0} → Router R Asset → Handler R → Result ServerError (Router R Asset)
set_fallback router handler = elim router.fallback [
  | none ↦ ok (record router { fallback = some handler })
  | some h ↦ err fallback_already_set
]

-- `Router::mount`
unfoldable pub mount :
    {R Asset : Type 0}
    → Router R Asset
    → Bytes
    → (Bytes → Option Asset)
    → Result ServerError (Router R Asset)
unfolding is_valid_route_pattern
mount router prefix bundle =
    let full = if ends_with prefix b'/' then prefix else prefix ++ codes "/" in
    if not (starts_with prefix (codes "/"))
    then err mount_without_slash
    else if contains_byte prefix b'*' || contains_byte prefix b'{' || contains_byte prefix b'}'
    then err mount_with_pattern
    else if not (is_valid_route_pattern prefix)
    then err invalid_pattern
    else ok (record router {
      mounts = router.mounts ++ (record { prefix = full; bundle = bundle } ∷ []);
    })
