-- ===== src/Router/Dispatch.antt =====
-- `Router::dispatch`: which route, mount or reply answers a request.
use erikslund_http_embedded.Prelude.{
  Bytes, Bool, ◌-◌, not, ◌&&◌, Option, none, some, List, [], ◌∷◌, ◌==◌, if◌then◌else◌, is_empty,
  bytes_eq, starts_with, cut, length, drop,
}
use erikslund_http_embedded.Method.{Method, no_method, get, head, union, contains}
use erikslund_http_embedded.Request.Query.{Headers}
use erikslund_http_embedded.Request.State.{Request, clear_path_parameters, bind_path_parameter}
use erikslund_http_embedded.Router.Table.{
  Segment, Route, Router, Mount, Handler, indices_of, routes_at, or_empty,
}

-- What is left of a path behind a piece.
abbrev pub from_slash : Option Bytes → Bytes
from_slash none = []
from_slash (some r) = b'/' ∷ r

-- The loop of `match`: the captures, and what remains of the path. A route has no more captures than
-- the table holds, since its registration refuses more.
unfoldable pub match_segments : List Segment → Bytes → Option (Headers × Bytes)
match_segments [] remaining = some ([], remaining)
match_segments (segment ∷ segments) [] = none
match_segments (segment ∷ segments) (c ∷ remaining) =
    let (piece, after) = cut b'/' remaining in
    let later = match_segments segments (from_slash after) in
    if not (c == b'/')
    then none
    else if segment.is_parameter
    then if is_empty piece then none else elim later [
      | none ↦ none
      | some (captures, left) ↦
          some (record { name = segment.parameter_name; value = piece } ∷ captures, left)
    ]
    else if bytes_eq piece segment.literal
    then later
    else none

unfoldable pub ends_match : Bool → Bytes → Bool
ends_match has_wildcard [] = not has_wildcard
ends_match has_wildcard (c ∷ remaining) = has_wildcard && c == b'/'

-- `match`
unfoldable pub match : {R : Type 0} → Bytes → Route R → Option Headers
unfolding match_segments ends_match
match path candidate = elim (match_segments candidate.segments path) [
  | none ↦ none
  | some (captures, remaining) ↦
      if ends_match candidate.has_wildcard remaining then some captures else none
]

-- Either the route that answers with its captures, or the methods that routes for the path take.
pub data Search (R : Type 0) : Type 0 where
  found : Route R → Headers → Search R
  allows : Method → Search R

unfoldable pub scan_exact : {R : Type 0} → Method → List (Route R) → Method → Search R
scan_exact method [] allowed = allows allowed
scan_exact method (candidate ∷ routes) allowed =
    let later = scan_exact method routes (union allowed candidate.methods) in
    if contains candidate.methods method then found candidate [] else later

unfoldable pub scan_dynamic : {R : Type 0} → Bytes → Method → List (Route R) → Method → Search R
unfolding match
scan_dynamic path method [] allowed = allows allowed
scan_dynamic path method (candidate ∷ routes) allowed =
    let unmatched = scan_dynamic path method routes allowed in
    let refused = scan_dynamic path method routes (union allowed candidate.methods) in
    elim (match path candidate) [
      | none ↦ unmatched
      | some captures ↦
          if contains candidate.methods method then found candidate captures else refused
    ]

-- The routes of an exact path, then the dynamic ones.
unfoldable pub search : {R Asset : Type 0} → Router R Asset → Bytes → Method → Search R
unfolding scan_exact scan_dynamic indices_of routes_at
search router path method =
    let exact = routes_at router.routes (or_empty (indices_of path router.exact_index)) in
    elim (scan_exact method exact no_method) [
      | found r captures ↦ found r captures
      | allows allowed ↦
          scan_dynamic path method (routes_at router.routes router.dynamic_routes) allowed
    ]

abbrev get_and_head : Method
get_and_head = union get head

-- A mount's asset for a path: under the path itself, or else under what is behind the prefix.
unfoldable pub find_asset : {Asset : Type 0} → Bytes → Mount Asset → Option Asset
find_asset path asset_mount =
    let relative = drop (length asset_mount.prefix - 1) path in
    elim (asset_mount.bundle path) [
      | some asset ↦ some asset
      | none ↦ if bytes_eq relative path then none else asset_mount.bundle relative
    ]

unfoldable pub scan_mounts :
    {Asset : Type 0} → Bytes → Method → List (Mount Asset) → Method → Option Asset × Method
unfolding find_asset
scan_mounts path method [] allowed = (none, allowed)
scan_mounts path method (asset_mount ∷ mounts) allowed =
    let skipped = scan_mounts path method mounts allowed in
    let refused = scan_mounts path method mounts (union allowed get_and_head) in
    if not (starts_with path asset_mount.prefix)
    then skipped
    else elim (find_asset path asset_mount) [
      | none ↦ skipped
      | some asset ↦ if not (contains get_and_head method) then refused else (some asset, allowed)
    ]

-- How a request is answered. `asset_response` turns an asset into a response.
pub data Reply (R Asset : Type 0) : Type 0 where
  response : R → Reply R Asset
  asset_response : Asset → Reply R Asset
  bad_request internal_error not_found : Reply R Asset
  method_not_allowed : Method → Reply R Asset

unfoldable pub invoke_handler : {R Asset : Type 0} → Handler R → Request → Reply R Asset
invoke_handler handler request = elim (handler request) [
  | none ↦ internal_error
  | some r ↦ response r
]

-- The loop over the middleware: the first that throws or gives a response ends it.
unfoldable pub run_middleware :
    {R Asset : Type 0} → List (Request → Option (Option R)) → Request → Option (Reply R Asset)
run_middleware [] request = none
run_middleware (middleware ∷ more) request =
    let later = run_middleware more request in
    elim (middleware request) [
      | none ↦ some internal_error
      | some (some r) ↦ some (response r)
      | some none ↦ later
    ]

unfoldable pub bind_captures : Request → Headers → Request
unfolding bind_path_parameter
bind_captures request [] = request
bind_captures request (capture ∷ captures) =
    bind_captures (bind_path_parameter request capture.name capture.value) captures

-- Behind the routes: the mounts, the methods that were allowed, the fallback.
unfoldable pub answer_elsewhere :
    {R Asset : Type 0} → Router R Asset → Request → Method → Reply R Asset
unfolding scan_mounts invoke_handler
answer_elsewhere router request allowed =
    let (asset, methods) = scan_mounts request.path request.method router.mounts allowed in
    elim asset [
      | some a ↦ asset_response a
      | none ↦
          if not (methods == no_method) then method_not_allowed methods else elim router.fallback [
            | none ↦ not_found
            | some handler ↦ invoke_handler handler request
          ]
    ]

unfoldable pub dispatch : {R Asset : Type 0} → Router R Asset → Request → Reply R Asset
unfolding run_middleware search bind_captures invoke_handler answer_elsewhere
dispatch router given =
    let request = clear_path_parameters given in
    if given.method == no_method
    then bad_request
    else elim (run_middleware router.middleware request) [
      | some reply ↦ reply
      | none ↦ elim (search router request.path request.method) [
        | found r captures ↦ invoke_handler r.handler (bind_captures request captures)
        | allows allowed ↦ answer_elsewhere router request allowed
      ]
    ]
