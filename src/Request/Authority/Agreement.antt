-- ===== src/Request/Authority/Agreement.antt =====
-- What `resolve_authority` accepts: the Host field and the target name one server.
use erikslund_http_embedded.Prelude.{
  ◌≡◌, refl, Option, none, some, List, [], ◌∷◌, arith, if◌then◌else◌, Bytes, codes, ok, ◌≢◌, ◌⊎◌,
  Bool, true, false, Result, err, ◌>>=◌, ◌↔◌,
}
use erikslund_http_embedded.Request.Types.{HeaderView, ParseError, malformed_host}
use erikslund_http_embedded.Text.Ascii.{equals_ignore_case, lower, equals_ignore_case_iff}
use erikslund_http_embedded.Request.Authority.{
  find_host, authority_is_well_formed, agree_on_authority, resolve_authority,
}

-- The values of the Host fields.
pub host_values : List HeaderView → List Bytes
host_values [] = []
host_values (field ∷ fields) =
    if equals_ignore_case field.name (codes "Host")
    then field.value ∷ host_values fields
    else host_values fields

abbrev after_seen : Bytes → List Bytes → Result ParseError (Option Bytes)
after_seen seen [] = ok (some seen)
after_seen seen (h ∷ hs) = err malformed_host

abbrev at_most_one : List Bytes → Result ParseError (Option Bytes)
at_most_one [] = ok none
at_most_one (h ∷ hs) = after_seen h hs

find_host_seen :
    (seen : Bytes) (fields : List HeaderView)
    → find_host (some seen) fields ≡ after_seen seen (host_values fields)
unfolding find_host host_values
find_host_seen seen [] = refl
find_host_seen seen (field ∷ fields) = ground (arith, find_host_seen seen fields)

find_host-none :
    (fields : List HeaderView) → find_host none fields ≡ at_most_one (host_values fields)
unfolding find_host host_values
find_host-none [] = refl
find_host-none (field ∷ fields) =
    ground (arith, find_host-none fields, find_host_seen field.value fields)

module _ (inet_pton_v6 : Bytes → Option Bytes) where
  abbrev pub IsWellFormed : Bytes → Type 0
  IsWellFormed a = authority_is_well_formed inet_pton_v6 a ≡ true

  -- With one Host field, it is well formed, and the target's authority, if there is one, is well
  -- formed too and is the same but for case; with none, the version is 1.0.
  abbrev pub Names : List Bytes → Bytes → Bool → Bytes → Type 0
  Names [] target is_version_11 a =
      (is_version_11 ≡ false) × (a ≡ target) × ((target ≡ []) ⊎ IsWellFormed target)
  Names (host ∷ []) target is_version_11 a =
      IsWellFormed host
      × (((target ≡ []) × (a ≡ host))
          ⊎ (IsWellFormed target × (lower host ≡ lower target) × (a ≡ target)))
  Names (h ∷ k ∷ hosts) target is_version_11 a = ⊥

  well_formed-ne-nil : (a : Bytes) → IsWellFormed a → a ≢ []
  unfolding authority_is_well_formed
  well_formed-ne-nil [] h e = cc
  well_formed-ne-nil (c ∷ s) h e = cc

  agree_sound :
      (hosts : List Bytes) (target : Bytes) (is_version_11 : Bool) (a : Bytes)
      → (at_most_one hosts >>= λ host. agree_on_authority inet_pton_v6 host target is_version_11)
        ≡ ok a
      → Names hosts target is_version_11 a
  unfolding agree_on_authority
  agree_sound [] target is_version_11 a h = ground arith
  agree_sound (host ∷ []) target is_version_11 a h =
      ground (arith, (equals_ignore_case_iff host target).0)
  agree_sound (host ∷ k ∷ hosts) target is_version_11 a h = cc

  agree_complete :
      (hosts : List Bytes) (target : Bytes) (is_version_11 : Bool) (a : Bytes)
      → Names hosts target is_version_11 a
      → (at_most_one hosts >>= λ host. agree_on_authority inet_pton_v6 host target is_version_11)
        ≡ ok a
  unfolding agree_on_authority
  agree_complete [] target is_version_11 a (v, e, w) = ground (arith, well_formed-ne-nil target)
  agree_complete (host ∷ []) target is_version_11 a (v, w) =
      ground (arith, well_formed-ne-nil target, (equals_ignore_case_iff host target).1)
  agree_complete (host ∷ k ∷ hosts) target is_version_11 a h = absurd h

  -- The authority of a request is `a` exactly when at most one field is a Host field, an HTTP/1.1
  -- request has one, what is given of Host and the target's authority is well formed, the two agree
  -- but for case where both are given, and `a` is the target's authority, or else Host's value.
  pub resolve_authority_iff :
      (headers : List HeaderView) (target : Bytes) (is_version_11 : Bool) (a : Bytes)
      → (resolve_authority inet_pton_v6 headers target is_version_11 ≡ ok a)
        ↔ Names (host_values headers) target is_version_11 a
  unfolding resolve_authority
  resolve_authority_iff headers target is_version_11 a = rw (find_host-none headers) (
    agree_sound (host_values headers) target is_version_11 a,
    agree_complete (host_values headers) target is_version_11 a,
  )
