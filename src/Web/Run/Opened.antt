-- ===== src/Web/Run/Opened.antt =====
-- The token that a launch makes, and the page that is opened with it.
use zju_connect_gui.Base.{
  ℕ, ◌/◌, ◌%◌, ◌<◌, ◌≡◌, refl, ap, subst, ◌∙◌, List, [], ◌∷◌, ◌++◌, Bool, true, false, Option, none,
  some, arith, All, inl, inr, ◌==◌,
}
use zju_connect_gui.Base.Results.{Result, ok, err, ◌>>=◌}
use zju_connect_gui.Text.{Text, codes}
use zju_connect_gui.Text.Decimal.{to_decimal}
use zju_connect_gui.Text.Laws.{strip_prefix-append}
use zju_connect_gui.Store.{File}
use zju_connect_gui.Web.Server.{
  Request, BindError, add_to_first, split, find_prefixed, token_from_query, bind_listener,
  require_auth, handled,
}
use zju_connect_gui.Web.Server.Gate.{require_auth_cases}
use zju_connect_gui.Web.Run.{hex_digit, generate_token, RunningServer, running_on, run}

-- No end of a part of a query.
abbrev IsPlain : ℕ → Type 0
IsPlain c = (c == b'&') ≡ false

hex_digit-IsPlain : (d : ℕ) → d < 16 → IsPlain (hex_digit d)
hex_digit-IsPlain d h = ground arith

-- A byte.
abbrev IsByte : ℕ → Type 0
IsByte b = b < 256

generate_token-IsPlain : (bytes : List ℕ) → All IsByte bytes → All IsPlain (generate_token bytes)
unfolding generate_token
generate_token-IsPlain [] h = tt
generate_token-IsPlain (b ∷ bytes) (small, h) = (
  hex_digit-IsPlain (b / 16) (omega arith),
  (hex_digit-IsPlain (b % 16) (omega arith), generate_token-IsPlain bytes h),
)

split_whole : (s : Text) → All IsPlain s → split b'&' s ≡ s ∷ []
unfolding split
split_whole [] h = refl
split_whole (c ∷ s) (plain, h) =
    ap (λ (b : Bool). elim b [ true ↦ [] ∷ split b'&' s | false ↦ add_to_first c (split b'&' s) ])
      plain
    ∙ ap (add_to_first c) (split_whole s h)

abbrev token_query : Text → Text
token_query token = codes "token=" ++ token

find_prefixed_one : (prefix s : Text) → find_prefixed prefix ((prefix ++ s) ∷ []) ≡ some s
unfolding find_prefixed
find_prefixed_one prefix s =
    ap
      (λ (found : Option Text). elim found [
        | none ↦ find_prefixed prefix []
        | some value ↦ some value
      ])
      (strip_prefix-append prefix s)

token_from_query-token_query :
    (token : Text) → All IsPlain token → token_from_query (token_query token) ≡ some token
unfolding token_from_query
token_from_query-token_query token plain =
    ap (find_prefixed (codes "token="))
      (split_whole (token_query token) (refl, (refl, (refl, (refl, (refl, (refl, plain)))))))
    ∙ find_prefixed_one (codes "token=") token

-- What the page that is opened asks for: the event stream, with the token in the query.
abbrev pub page_request : (port : ℕ) (token : Text) → Request
page_request port token = record {
  host = some (codes "localhost:" ++ to_decimal port);
  x_auth_token = none;
  path = codes "/api/events";
  query = some (token_query token);
}

abbrev run_ok : {M : Type 0} → RunningServer M → Result (RunningServer M) BindError
run_ok server = ok server

run_ok-injective : {M : Type 0} {a b : RunningServer M} → run_ok a ≡ run_ok b → a ≡ b
run_ok-injective e = cc

module _ {ℓ} {R : Type ℓ} where
  page_request-passes :
      (port : ℕ) (token : Text) (next : Request → R)
      → All IsPlain token
      → require_auth (record { port = port; auth_token = token }) (page_request port token) next
        ≡ handled (next (page_request port token))
  page_request-passes port token next plain =
      elim (require_auth_cases (record { port = port; auth_token = token })
        (page_request port token) next) [
          | inl (local, presented, passes) ↦ passes
          | inr (shut, answer) ↦ absurd (
              shut (
                (codes "localhost:" ++ to_decimal port, refl, inl refl),
                inr (
                  refl,
                  refl,
                  (token_query token, refl, token_from_query-token_query token plain),
                ),
              ))
        ]

module _ {ℓ} {R : Type ℓ} {M : Type 0} where
  -- If the server starts, with any bytes for its token, then the gate lets the page through that asks,
  -- on the name localhost and the port that is listened on, for the event stream with the token of the
  -- launch in the query.
  pub require_auth-run :
      (free : ℕ → Bool) (assigned : Option ℕ) (port_file : Option Text) (bytes : List ℕ)
      (manager : M) (settings : File) (server : RunningServer M) (next : Request → R)
      → All IsByte bytes
      → run free assigned port_file bytes manager settings ≡ ok server
      → require_auth server.gate (page_request server.port server.token) next
        ≡ handled (next (page_request server.port server.token))
  unfolding run
  require_auth-run free assigned port_file bytes manager settings server next small h =
      by_port (bind_listener free assigned port_file) h
    where
      by_port :
          (bound : Result ℕ BindError)
          → (bound >>= λ port. ok (running_on port (generate_token bytes) manager settings))
            ≡ ok server
          → require_auth server.gate (page_request server.port server.token) next
            ≡ handled (next (page_request server.port server.token))
      by_port (err e) h = cc
      by_port (ok port) h =
          subst
            (λ (r : RunningServer M).
              require_auth r.gate (page_request r.port r.token) next
              ≡ handled (next (page_request r.port r.token)))
            (run_ok-injective h)
            (page_request-passes port (generate_token bytes) next
              (generate_token-IsPlain bytes small))
