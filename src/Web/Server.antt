-- ===== src/Web/Server.antt =====
-- src/web/server.rs: the gate in front of every `/api` route, and the port that the server listens on.
-- A header is `none` also when it is not visible ASCII.
pub mod Gate
pub mod Port
use zju_connect_gui.Base.{
  ℕ, ◌-◌, ◌^◌, List, [], ◌∷◌, ◌++◌, Bool, true, false, ◌&&◌, ◌||◌, Option, none, some, leb, ◌==◌,
  if◌then◌else◌,
}
use zju_connect_gui.Base.Results.{Result, ok, err}
use zju_connect_gui.Text.{
  Text, codes, trim, text_eq, strip_prefix, eq_ignore_ascii_case, split_once, with_head,
}
use zju_connect_gui.Text.Decimal.{to_decimal, parse_uint}

pub record Request : Type 0 where
  pub host : Option Text
  pub x_auth_token : Option Text
  pub path : Text
  pub query : Option Text

-- What the gate reads of `AppState`.
pub record AppState : Type 0 where
  pub port : ℕ
  pub auth_token : Text

abbrev pub add_to_first : ℕ → List Text → List Text
add_to_first c [] = (c ∷ []) ∷ []
add_to_first c (part ∷ parts) = (c ∷ part) ∷ parts

-- `str::split` at a character: one part more than it has occurrences.
unfoldable pub split : ℕ → Text → List Text
split b [] = [] ∷ []
split b (c ∷ s) = elim (c == b) [ true ↦ [] ∷ split b s | false ↦ add_to_first c (split b s) ]

-- `Iterator::find_map` with `strip_prefix`.
unfoldable pub find_prefixed : Text → List Text → Option Text
find_prefixed prefix [] = none
find_prefixed prefix (part ∷ parts) = elim (strip_prefix prefix part) [
  | none ↦ find_prefixed prefix parts
  | some value ↦ some value
]

unfoldable pub token_from_query : Text → Option Text
unfolding split find_prefixed
token_from_query query = find_prefixed (codes "token=") (split b'&' query)

unfoldable pub is_host_of : (expected_port : ℕ) → Option Text → Bool
is_host_of expected_port none = false
is_host_of expected_port (some h) =
    eq_ignore_ascii_case h (codes "localhost:" ++ to_decimal expected_port)
    || eq_ignore_ascii_case h (codes "127.0.0.1:" ++ to_decimal expected_port)

unfoldable pub is_token : (expected_token : Text) → Option Text → Bool
is_token expected_token none = false
is_token expected_token (some presented) = text_eq presented expected_token

unfoldable pub is_authorized :
    (host presented_token : Option Text) (expected_port : ℕ) (expected_token : Text) → Bool
unfolding is_host_of is_token
is_authorized host presented_token expected_port expected_token =
    is_host_of expected_port host && is_token expected_token presented_token

-- The header, or else the query of the event stream.
unfoldable pub presented_of :
    (header : Option Text) (path : Text) (query : Option Text) → Option Text
unfolding token_from_query
presented_of (some token) path query = some token
presented_of none path none = none
presented_of none path (some query) =
    if text_eq path (codes "/api/events") then token_from_query query else none

unfoldable pub presented_token : Request → Option Text
unfolding presented_of
presented_token req = presented_of req.x_auth_token req.path req.query

pub data Answer {ℓ} (R : Type ℓ) : Type ℓ where
  forbidden : Answer R
  handled : R → Answer R

-- `next` is the handler of the route.
unfoldable pub require_auth {ℓ} :
    {R : Type ℓ} → AppState → Request → (next : Request → R) → Answer R
unfolding is_authorized presented_token
require_auth state req next =
    if is_authorized req.host (presented_token req) state.port state.auth_token
    then handled (next req)
    else forbidden

abbrev pub default_port : ℕ
default_port = 19823

abbrev pub if_unreserved : Option ℕ → Option ℕ
if_unreserved none = none
if_unreserved (some port) = if leb 1024 port then some port else none

-- What the port file says: `none` if it cannot be read.
unfoldable pub last_port : (contents : Option Text) → Option ℕ
last_port none = none
last_port (some contents) = if_unreserved (parse_uint (2 ^ 16 - 1) (trim contents))

pub data BindError : Type 0 where
  bind_error : BindError

abbrev pub bind_any : (assigned : Option ℕ) → Result ℕ BindError
bind_any none = err bind_error
bind_any (some port) = ok port

abbrev pub bind_fallback : (free : ℕ → Bool) (assigned : Option ℕ) → Result ℕ BindError
bind_fallback free assigned = if free default_port then ok default_port else bind_any assigned

abbrev pub bind_preferred : (free : ℕ → Bool) (assigned preferred : Option ℕ) → Result ℕ BindError
bind_preferred free assigned none = bind_fallback free assigned
bind_preferred free assigned (some port) =
    if free port then ok port else bind_fallback free assigned

-- `bind_std` of a port, which succeeds where `free` says so; `assigned` is the port that the system
-- chooses for port 0, if it has one.
unfoldable pub bind_listener :
    (free : ℕ → Bool) (assigned : Option ℕ) (contents : Option Text) → Result ℕ BindError
unfolding last_port
bind_listener free assigned contents = bind_preferred free assigned (last_port contents)

-- `persist_port`: what the port file then holds.
unfoldable pub persist_port : (port : ℕ) → Text
persist_port port = to_decimal port
