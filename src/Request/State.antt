-- ===== src/Request/State.antt =====
-- The class `Request`: include/erikslund/http/request.hpp and src/request.cpp, lines 612 to 738. A
-- borrowed view is its bytes, so the arena and the moves have no place of their own; the two
-- certificate fields are one option.
use erikslund_http_embedded.Prelude.{
  ℕ, Bool, false, Option, none, some, List, [], ◌∷◌, ◌++◌, ◌==◌, if◌then◌else◌, Bytes, bytes_eq,
  length,
}
use erikslund_http_embedded.Method.{Method, no_method}
use erikslund_http_embedded.Peer.{PeerAddress, no_peer}
use erikslund_http_embedded.Request.Types.{HeaderView, max_path_parameters}
use erikslund_http_embedded.Text.Ascii.{equals_ignore_case}

pub record Request : Type 0 where
  pub method : Method
  pub raw_target : Bytes
  pub path : Bytes
  pub query : Bytes
  pub authority : Bytes
  pub body : Bytes
  pub headers : List HeaderView
  pub query_parameters : List HeaderView
  pub path_parameters : List HeaderView
  pub peer : PeerAddress
  pub received_at : ℕ
  pub client_certificate_subject : Option Bytes
  pub keep_alive : Bool
  pub wants_gzip : Bool
  pub is_secure : Bool

-- `Request::reset`, and the state that a request is constructed in.
abbrev pub empty_request : Request
empty_request = record {
  method = no_method;
  raw_target = [];
  path = [];
  query = [];
  authority = [];
  body = [];
  headers = [];
  query_parameters = [];
  path_parameters = [];
  peer = no_peer;
  received_at = 0;
  client_certificate_subject = none;
  keep_alive = false;
  wants_gzip = false;
  is_secure = false;
}

unfoldable pub first_exact : Bytes → List HeaderView → Option Bytes
first_exact name [] = none
first_exact name (parameter ∷ parameters) =
    if bytes_eq parameter.name name then some parameter.value else first_exact name parameters

unfoldable pub first_ignoring_case : Bytes → List HeaderView → Option Bytes
first_ignoring_case name [] = none
first_ignoring_case name (field ∷ fields) =
    if equals_ignore_case field.name name then some field.value else first_ignoring_case name fields

unfoldable pub query_param : Request → Bytes → Option Bytes
unfolding first_exact
query_param r name = first_exact name r.query_parameters

unfoldable pub header : Request → Bytes → Option Bytes
unfolding first_ignoring_case
header r name = first_ignoring_case name r.headers

unfoldable pub param : Request → Bytes → Bytes
unfolding first_exact
param r name = elim (first_exact name r.path_parameters) [ none ↦ [] | some value ↦ value ]

-- A full table keeps its entries and drops the new one.
unfoldable pub bind_path_parameter : Request → Bytes → Bytes → Request
bind_path_parameter r name value =
    if length r.path_parameters == max_path_parameters then r else record r {
      path_parameters = r.path_parameters ++ (record { name = name; value = value } ∷ []);
    }

abbrev pub clear_path_parameters : Request → Request
clear_path_parameters r = record r { path_parameters = [] }

abbrev pub set_peer : Request → PeerAddress → Request
set_peer r remote_address = record r { peer = remote_address }

abbrev pub set_secure : Request → Bool → Request
set_secure r secure = record r { is_secure = secure }

abbrev pub set_client_certificate_subject : Request → Bytes → Request
set_client_certificate_subject r subject = record r { client_certificate_subject = some subject }

abbrev pub set_received_at : Request → ℕ → Request
set_received_at r now = record r { received_at = now }

-- The move constructor and the move assignment from another object: the new request, and what is
-- left of the old one.
abbrev pub moved : Request → Request × Request
moved other = (other, empty_request)
