-- ===== src/Request/Target.antt =====
-- `split_target` of src/request.cpp.
pub mod Grammar
use erikslund_http_embedded.Prelude.{
  ℕ, ◌+◌, Bool, false, not, ◌&&◌, ◌||◌, Option, none, some, [], ◌∷◌, ◌==◌, if◌then◌else◌, Bytes,
  codes, is_empty, cut, find_string, take, drop, every, Result, ok, err, ◌>>=◌,
}
use erikslund_http_embedded.Request.Chars.{is_valid_target_byte}
use erikslund_http_embedded.Request.Types.{ParseError, malformed_request_line}
use erikslund_http_embedded.Text.Ascii.{equals_ignore_case}

pub record TargetParts : Type 0 where
  pub path : Bytes
  pub query : Bytes
  pub authority : Bytes

abbrev pub begins_with : Bytes → ℕ → Bool
begins_with [] c = false
begins_with (x ∷ s) c = x == c

-- The view up to the first "/" or "?", and the view from there: `find_first_of` and `substr`.
unfoldable pub cut_authority : Bytes → Bytes × Bytes
cut_authority [] = ([], [])
cut_authority (c ∷ s) =
    let (authority, rest) = cut_authority s in
    if c == b'/' || c == b'?' then ([], c ∷ s) else (c ∷ authority, rest)

-- The absolute form: the authority, and what follows it.
unfoldable pub split_absolute : Bytes → Result ParseError (Bytes × Bytes)
split_absolute target = elim (find_string (codes "://") target) [
  | none ↦ err malformed_request_line
  | some scheme_end ↦
      let scheme = take scheme_end target in
      let (authority, rest) = cut_authority (drop (scheme_end + 3) target) in
      if not (equals_ignore_case scheme (codes "http"))
        && not (equals_ignore_case scheme (codes "https"))
      then err malformed_request_line
      else if is_empty authority
      then err malformed_request_line
      else ok (authority, rest)
]

abbrev pub or_empty : Option Bytes → Bytes
or_empty none = []
or_empty (some s) = s

-- The end of `split_target`, on what follows the authority.
unfoldable pub split_path : Bytes → Bytes → Result ParseError TargetParts
split_path authority remainder =
    let (path, query) = cut b'?' remainder in
    if is_empty path
    then ok (record { path = codes "/"; query = or_empty query; authority = authority })
    else if not (begins_with path b'/')
    then err malformed_request_line
    else ok (record { path = path; query = or_empty query; authority = authority })

unfoldable pub split_target : Bytes → Result ParseError TargetParts
unfolding split_absolute split_path
split_target target =
    if not (every is_valid_target_byte target)
    then err malformed_request_line
    else if begins_with target b'/'
    then split_path [] target
    else (do (authority, remainder) ← split_absolute target; split_path authority remainder)
