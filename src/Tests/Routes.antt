-- ===== src/Tests/Routes.antt =====
-- Runs of the router: src/router.cpp.
use erikslund_http_embedded.Prelude.{
  Bytes, codes, ◌≡◌, refl, ℕ, [], ◌∷◌, ok, ◌↔◌, true, false, none, some, bytes_eq, starts_with,
  contains_byte, cut,
}
use erikslund_http_embedded.Method.{get, post, Method, contains}
use erikslund_http_embedded.Request.State.{empty_request, Request}
use erikslund_http_embedded.Router.Pattern.{is_valid_route_pattern}
use erikslund_http_embedded.Router.Table.{Route, Router, route}
use erikslund_http_embedded.Router.Dispatch.{
  match, dispatch, response, method_not_allowed, not_found,
}
use erikslund_http_embedded.Router.Matching.{match_iff, Spells, MayBeLeft}

routing : Unit {0}
unfolding route dispatch is_valid_route_pattern bytes_eq starts_with contains_byte cut contains
routing = tt

-- "/users/{id}", answered with the number that is given.
abbrev users : ℕ → Method → Route ℕ
users answer methods = record {
  methods = methods;
  pattern = codes "/users/{id}";
  segments =
      record { is_parameter = false; parameter_name = []; literal = codes "users" }
      ∷ record { is_parameter = true; parameter_name = codes "id"; literal = [] }
      ∷ [];
  has_wildcard = false;
  handler = λ _. some answer;
}

abbrev me : Route ℕ
me = record {
  methods = get;
  pattern = codes "/users/me";
  segments = [];
  has_wildcard = false;
  handler = λ _. some 1;
}

abbrev empty_router : Router ℕ ℕ
empty_router = record {
  routes = [];
  exact_index = [];
  dynamic_routes = [];
  mounts = [];
  middleware = [];
  fallback = none;
}

abbrev table : Router ℕ ℕ
table = record empty_router {
  routes = users 2 get ∷ me ∷ [];
  exact_index = (codes "/users/me", 1 ∷ []) ∷ [];
  dynamic_routes = 0 ∷ [];
}

match_iff_example :
    (match (codes "/users/7") (users 2 get)
      ≡ some (record { name = codes "id"; value = codes "7" } ∷ []))
    ↔ ((left : Bytes) × Spells
          (users 2 get).segments
          (record { name = codes "id"; value = codes "7" } ∷ [])
          left
          (codes "/users/7")
        × MayBeLeft false left)
match_iff_example =
    match_iff (codes "/users/7") (users 2 get)
      (record { name = codes "id"; value = codes "7" } ∷ [])

abbrev users_alone : Router ℕ ℕ
users_alone = record empty_router { routes = users 2 get ∷ []; dynamic_routes = 0 ∷ [] }

abbrev ask : Method → Bytes → Request
ask method path = record empty_request { method = method; path = path }

dispatch_tests :
    (dispatch table (ask get (codes "/users/me")) ≡ response 1)
    × (dispatch table (ask get (codes "/users/7")) ≡ response 2)
    × (dispatch table (ask post (codes "/users/me")) ≡ method_not_allowed get)
    × (dispatch table (ask get (codes "/users/")) ≡ not_found)
unfolding routing
dispatch_tests = (refl, refl, refl, refl)

registration_tests :
    (route empty_router get (codes "/users/{id}") (λ _. some 2)
      ≡ ok (record empty_router { routes = users 2 get ∷ []; dynamic_routes = 0 ∷ [] }))
    × (is_valid_route_pattern (codes "/a/*/b") ≡ false)
    × (is_valid_route_pattern (codes "/a/") ≡ true)
unfolding routing
registration_tests = (refl, refl, refl)
