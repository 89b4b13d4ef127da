-- ===== src/Readiness.antt =====
-- src/backend/proxy/readiness.rs: the address that is dialled to see whether the HTTP proxy listens.
pub mod Dial
mod Examples
use zju_connect_gui.Base.{
  ℕ, List, [], ◌∷◌, ◌++◌, Bool, true, false, Option, none, some, if◌then◌else◌,
}
use zju_connect_gui.Base.Results.{Result, ok, err}
use zju_connect_gui.Text.{
  Text, codes, is_empty, trim, text_eq, contains_char, strip_prefix, split_once, rsplit_once,
}

infixl 5 ◌>>=◌
abbrev ◌>>=◌ {ℓ κ} : {A : Type ℓ} {B : Type κ} → Option A → (A → Option B) → Option B
none >>= f = none
some a >>= f = f a

-- `[host]:port`, behind the opening bracket.
abbrev split_bracketed : Text → Option (Text × Text)
split_bracketed rest = do
  parts ← split_once b']' rest
  port ← strip_prefix (codes ":") parts.1
  some (parts.0, port)

abbrev split_plain : Text → Option (Text × Text)
split_plain s = do
  parts ← rsplit_once b':' s
  if contains_char b':' parts.0 then none else some parts

abbrev split_stripped : Text → Option Text → Option (Text × Text)
split_stripped s (some rest) = split_bracketed rest
split_stripped s none = split_plain s

unfoldable pub split_host_port : Text → Option (Text × Text)
split_host_port s = split_stripped s (strip_prefix (codes "[") s)

-- The host to dial for the host that is bound: loopback for a wildcard.
unfoldable pub dial_host : Text → Text
dial_host host =
    if is_empty host
    then codes "127.0.0.1"
    else if text_eq host (codes "0.0.0.0")
    then codes "127.0.0.1"
    else if text_eq host (codes "::")
    then codes "::1"
    else host

unfoldable pub join_host_port : Text → Text → Text
join_host_port host port =
    if contains_char b':' host
    then codes "[" ++ (host ++ (codes "]:" ++ port))
    else host ++ (codes ":" ++ port)

abbrev dial_trimmed : Text → Option (Text × Text) → Text
dial_trimmed trimmed none = trimmed
dial_trimmed trimmed (some (host, port)) = join_host_port (dial_host host) port

unfoldable pub readiness_dial_address : Text → Text
readiness_dial_address bind =
    let trimmed = trim bind in
    if is_empty trimmed then [] else dial_trimmed trimmed (split_host_port trimmed)

-- The loop over the resolved addresses: whether one of them accepts a connection in time.
any_connects : List Bool → Bool
any_connects [] = false
any_connects (connected ∷ rest) = if connected then true else any_connects rest

-- `answers` is the outcome of name resolution: an error, or for each address in turn whether the
-- connection was made within the timeout.
unfoldable check_tcp_connect : Result (List Bool) Text → Bool
unfolding any_connects
check_tcp_connect (err e) = false
check_tcp_connect (ok answers) = any_connects answers
