-- ===== src/Router/Choice.antt =====
-- Which of the routes for a path is chosen.
use erikslund_http_embedded.Prelude.{Bytes, ◌≡◌, All, true, false, none, some, List, [], ◌∷◌, ◌++◌}
use erikslund_http_embedded.Method.{Method, union, contains}
use erikslund_http_embedded.Request.Query.{Headers}
use erikslund_http_embedded.Router.Table.{Route, Router}
use erikslund_http_embedded.Router.Dispatch.{match, found, allows, Search}
use erikslund_http_embedded.Router.Registration.{kept, is_exact_for, is_variable}

-- The routes for a path, with the captures of each.
abbrev pub Candidates : Type 0 → Type 0
Candidates R = List (Route R × Headers)

pub exact_candidates : {R : Type 0} → List (Route R) → Candidates R
exact_candidates [] = []
exact_candidates (r ∷ routes) = (r, []) ∷ exact_candidates routes

pub dynamic_candidates : {R : Type 0} → Bytes → List (Route R) → Candidates R
dynamic_candidates path [] = []
dynamic_candidates path (r ∷ routes) =
    let later = dynamic_candidates path routes in
    elim (match path r) [ none ↦ later | some captures ↦ (r, captures) ∷ later ]

-- Of the registered routes, those with no parameter and no wildcard come first, each kind in the
-- order of registration.
pub candidates : {R : Type 0} → List (Route R) → Bytes → Candidates R
unfolding exact_candidates dynamic_candidates
candidates registrations path =
    exact_candidates (kept (is_exact_for path) registrations)
    ++ dynamic_candidates path (kept is_variable registrations)

-- The union of the methods of all candidates, from the first.
pub all_allowed : {R : Type 0} → Candidates R → Method → Method
all_allowed [] allowed = allowed
all_allowed (c ∷ cs) allowed = all_allowed cs (union allowed c.0.methods)

abbrev pub Refuses : {R : Type 0} → Method → Route R × Headers → Type 0
Refuses method c = contains c.0.methods method ≡ false

-- A result of the search: the first candidate that takes the method, or what all of them take.
abbrev pub IsChoice : {R : Type 0} → Method → Candidates R → Method → Search R → Type 0
IsChoice method cs allowed (found r captures) =
    (before : Candidates _) × (after : Candidates _) × (cs ≡ before ++ ((r, captures) ∷ after))
    × All (Refuses method) before
    × (contains r.methods method ≡ true)
IsChoice method cs allowed (allows methods) =
    All (Refuses method) cs × (methods ≡ all_allowed cs allowed)
