-- ===== src/Method.antt =====
-- include/erikslund/http/method.hpp: methods as the bits of a byte, and their names.
pub mod Token
use erikslund_http_embedded.Prelude.{
  ℕ, ◌^◌, bit_and, bit_or, Bool, Option, none, some, List, [], ◌∷◌, ◌==◌, if◌then◌else◌, Bytes,
  codes, bytes_eq,
}

-- An enumerator, or a set of them joined by `|`.
abbrev pub Method : Type 0
Method = ℕ

abbrev pub no_method : Method
no_method = 0

abbrev pub get : Method
get = 2 ^ 0

abbrev pub head : Method
head = 2 ^ 1

abbrev pub post : Method
post = 2 ^ 2

abbrev pub put : Method
put = 2 ^ 3

abbrev pub patch : Method
patch = 2 ^ 4

abbrev pub delete : Method
delete = 2 ^ 5

abbrev pub options : Method
options = 2 ^ 6

abbrev pub union : Method → Method → Method
union left right = bit_or left right

abbrev pub intersection : Method → Method → Method
intersection left right = bit_and left right

unfoldable pub contains : Method → Method → Bool
contains methods required = bit_and methods required == required

abbrev pub all_methods : List Method
all_methods = get ∷ head ∷ post ∷ put ∷ patch ∷ delete ∷ options ∷ []

unfoldable pub method_name : Method → Bytes
method_name method =
    if method == get
    then codes "GET"
    else if method == head
    then codes "HEAD"
    else if method == post
    then codes "POST"
    else if method == put
    then codes "PUT"
    else if method == patch
    then codes "PATCH"
    else if method == delete
    then codes "DELETE"
    else if method == options
    then codes "OPTIONS"
    else []

-- The loop of `method_from_token`.
unfoldable pub first_named : List Method → Bytes → Option Method
unfolding method_name
first_named [] token = none
first_named (candidate ∷ more) token =
    if bytes_eq (method_name candidate) token then some candidate else first_named more token

unfoldable pub method_from_token : Bytes → Option Method
unfolding first_named
method_from_token token = first_named all_methods token
