-- ===== src/Router/Registration.antt =====
-- Routers as they are built, and what their tables hold of the registered routes.
use erikslund_http_embedded.Prelude.{
  ◌≡◌, Bool, false, not, ◌&&◌, ◌||◌, Option, none, List, [], ◌∷◌, ◌++◌, ltb, if◌then◌else◌, Bytes,
  bytes_eq, length, drop, ok,
}
use erikslund_http_embedded.Router.Table.{
  Handler, Route, Router, Segment, compiled_route, set_fallback, compile, route, mount,
  use_middleware,
}
use erikslund_http_embedded.Method.{Method}
use erikslund_http_embedded.Request.State.{Request}

-- A router to which nothing was added.
abbrev pub new_router : {R Asset : Type 0} → Router R Asset
new_router = record {
  routes = [];
  exact_index = [];
  dynamic_routes = [];
  mounts = [];
  middleware = [];
  fallback = none;
}

abbrev pub has_parameter : List Segment → Bool
has_parameter [] = false
has_parameter (s ∷ segments) = s.is_parameter || has_parameter segments

-- Whether a route matches more than the one path that is its pattern.
abbrev pub is_variable : {R : Type 0} → Route R → Bool
is_variable r = r.has_wildcard || has_parameter r.segments

-- What `route` makes of its arguments.
abbrev pub registered : {R : Type 0} → Method → Bytes → Handler R → Route R
registered methods pattern handler =
    let compiled = compile (length pattern) (drop 1 pattern) in
    compiled_route methods pattern compiled
      (compiled.has_wildcard || ltb 0 compiled.parameter_count) handler

-- A router that is built by calls that succeed, with its routes in the order of their registration.
pub data Registers (R Asset : Type 0) : List (Route R) → Router R Asset → Type 0 where
  unregistered : Registers R Asset [] new_router
  routed :
      (rs : List (Route R)) (r r' : Router R Asset) (methods : Method) (pattern : Bytes)
      (handler : Handler R)
      → Registers R Asset rs r
      → route r methods pattern handler ≡ ok r'
      → Registers R Asset (rs ++ (registered methods pattern handler ∷ [])) r'
  mounted :
      (rs : List (Route R)) (r r' : Router R Asset) (prefix : Bytes) (bundle : Bytes → Option Asset)
      → Registers R Asset rs r
      → mount r prefix bundle ≡ ok r'
      → Registers R Asset rs r'
  used :
      (rs : List (Route R)) (r : Router R Asset) (added : Request → Option (Option R))
      → Registers R Asset rs r
      → Registers R Asset rs (use_middleware r added)
  fell_back :
      (rs : List (Route R)) (r r' : Router R Asset) (handler : Handler R)
      → Registers R Asset rs r
      → set_fallback r handler ≡ ok r'
      → Registers R Asset rs r'

-- The elements that pass a test, in their order.
unfoldable pub kept : {A : Type 0} → (A → Bool) → List A → List A
kept test [] = []
kept test (x ∷ xs) = if test x then x ∷ kept test xs else kept test xs

abbrev pub is_exact_for : {R : Type 0} → Bytes → Route R → Bool
is_exact_for path r = not (is_variable r) && bytes_eq r.pattern path
