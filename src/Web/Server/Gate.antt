-- ===== src/Web/Server/Gate.antt =====
-- Which requests pass the gate.
use zju_connect_gui.Base.{
  ℕ, ◌≡◌, ◌⊎◌, inl, inr, refl, ap, [], ◌∷◌, ◌++◌, Bool, true, false, Option, none, some, arith,
  Bool-cases,
}
use zju_connect_gui.Text.{Text, codes, text_eq, eq_ignore_ascii_case, to_ascii_lowercase}
use zju_connect_gui.Text.Laws.{text_eq_refl, text_eq_sound}
use zju_connect_gui.Text.Decimal.{to_decimal}
use zju_connect_gui.Web.Server.{
  Request, AppState, handled, forbidden, token_from_query, is_host_of, is_token, is_authorized,
  presented_of, presented_token, require_auth,
}

eq_ignore_ascii_case_sound :
    (s t : Text) → eq_ignore_ascii_case s t ≡ true → to_ascii_lowercase s ≡ to_ascii_lowercase t
unfolding eq_ignore_ascii_case to_ascii_lowercase
eq_ignore_ascii_case_sound [] [] h = refl
eq_ignore_ascii_case_sound [] (d ∷ t) h = cc
eq_ignore_ascii_case_sound (c ∷ s) [] h = cc
eq_ignore_ascii_case_sound (c ∷ s) (d ∷ t) h = ground (arith, eq_ignore_ascii_case_sound s t)

eq_ignore_ascii_case_complete :
    (s t : Text) → to_ascii_lowercase s ≡ to_ascii_lowercase t → eq_ignore_ascii_case s t ≡ true
unfolding eq_ignore_ascii_case to_ascii_lowercase
eq_ignore_ascii_case_complete [] [] h = refl
eq_ignore_ascii_case_complete [] (d ∷ t) h = cc
eq_ignore_ascii_case_complete (c ∷ s) [] h = cc
eq_ignore_ascii_case_complete (c ∷ s) (d ∷ t) h = ground (arith, eq_ignore_ascii_case_complete s t)

-- The host names this machine and the port that is listened on, in any case.
abbrev pub IsLocal : (port : ℕ) → Option Text → Type 0
IsLocal port host =
    (h : Text) × (host ≡ some h)
    × ((to_ascii_lowercase h ≡ to_ascii_lowercase (codes "localhost:" ++ to_decimal port))
        ⊎ (to_ascii_lowercase h ≡ to_ascii_lowercase (codes "127.0.0.1:" ++ to_decimal port)))

-- The token stands in the header, or, for the event stream alone and without that header, in the query.
abbrev IsPresentedBy :
    (token : Text) (header : Option Text) (path : Text) (query : Option Text) → Type 0
IsPresentedBy token header path query =
    (header ≡ some token)
    ⊎ ((header ≡ none)
        × (path ≡ codes "/api/events")
        × ((q : Text) × (query ≡ some q) × (token_from_query q ≡ some token)))

abbrev pub IsPresented : (token : Text) → Request → Type 0
IsPresented token req = IsPresentedBy token req.x_auth_token req.path req.query

is_host_of_sound : (port : ℕ) (host : Option Text) → is_host_of port host ≡ true → IsLocal port host
unfolding is_host_of
is_host_of_sound port none h = cc
is_host_of_sound port (some s) h =
    elim (Bool-cases (eq_ignore_ascii_case s (codes "localhost:" ++ to_decimal port))) [
      | inl e ↦
          (s, refl, inl (eq_ignore_ascii_case_sound s (codes "localhost:" ++ to_decimal port) e))
      | inr e ↦ (
        s,
        refl,
        inr (eq_ignore_ascii_case_sound s (codes "127.0.0.1:" ++ to_decimal port) (ground arith)),
      )
    ]

is_host_of_complete :
    (port : ℕ) (host : Option Text) → IsLocal port host → is_host_of port host ≡ true
unfolding is_host_of
is_host_of_complete port host (s, e, inl same) =
    rw e (ground (arith, eq_ignore_ascii_case_complete s (codes "localhost:" ++ to_decimal port)))
is_host_of_complete port host (s, e, inr same) =
    rw e (ground (arith, eq_ignore_ascii_case_complete s (codes "127.0.0.1:" ++ to_decimal port)))

is_token_sound :
    (token : Text) (presented : Option Text)
    → is_token token presented ≡ true
    → presented ≡ some token
unfolding is_token
is_token_sound token none h = cc
is_token_sound token (some t) h = ap some (text_eq_sound t token h)

is_token_complete :
    (token : Text) (presented : Option Text)
    → presented ≡ some token
    → is_token token presented ≡ true
unfolding is_token
is_token_complete token presented e = rw e (text_eq_refl token)

presented_of_sound :
    (token : Text) (header : Option Text) (path : Text) (query : Option Text)
    → presented_of header path query ≡ some token
    → IsPresentedBy token header path query
unfolding presented_of
presented_of_sound token (some t) path query h = inl h
presented_of_sound token none path none h = cc
presented_of_sound token none path (some q) h =
    elim (Bool-cases (text_eq path (codes "/api/events"))) [
      | inl events ↦
          inr (refl, text_eq_sound path (codes "/api/events") events, (q, refl, ground arith))
      | inr other ↦ absurd (ground arith)
    ]

presented_of_complete :
    (token : Text) (header : Option Text) (path : Text) (query : Option Text)
    → IsPresentedBy token header path query
    → presented_of header path query ≡ some token
unfolding presented_of
presented_of_complete token header path query (inl e) = rw e refl
presented_of_complete token header path query (inr (e, events, (q, present, found))) =
    rw (e, present, events, text_eq_refl (codes "/api/events")) found

is_authorized_sound :
    (host presented : Option Text) (port : ℕ) (token : Text)
    → is_authorized host presented port token ≡ true
    → (is_host_of port host ≡ true) × (is_token token presented ≡ true)
unfolding is_authorized
is_authorized_sound host presented port token h = ground arith

is_authorized_complete :
    (host presented : Option Text) (port : ℕ) (token : Text)
    → is_host_of port host ≡ true
    → is_token token presented ≡ true
    → is_authorized host presented port token ≡ true
unfolding is_authorized
is_authorized_complete host presented port token h k = ground arith

module _ {ℓ} {R : Type ℓ} (state : AppState) (req : Request) (next : Request → R) where
  abbrev authorized : Bool
  authorized = is_authorized req.host (presented_token req) state.port state.auth_token

  require_auth-true : authorized ≡ true → require_auth state req next ≡ handled (next req)
  unfolding require_auth
  require_auth-true h = rw h refl

  require_auth-false : authorized ≡ false → require_auth state req next ≡ forbidden
  unfolding require_auth
  require_auth-false h = rw h refl

  authorized_sound :
      authorized ≡ true → IsLocal state.port req.host × IsPresented state.auth_token req
  unfolding presented_token
  authorized_sound h =
      let (local, token) =
        is_authorized_sound req.host (presented_token req) state.port state.auth_token h in
      (
        is_host_of_sound state.port req.host local,
        presented_of_sound state.auth_token req.x_auth_token req.path req.query
            (is_token_sound state.auth_token (presented_token req) token),
      )

  authorized_complete :
      IsLocal state.port req.host → IsPresented state.auth_token req → authorized ≡ true
  unfolding presented_token
  authorized_complete local token =
      is_authorized_complete req.host (presented_token req) state.port state.auth_token
        (is_host_of_complete state.port req.host local)
        (is_token_complete state.auth_token (presented_token req)
          (presented_of_complete state.auth_token req.x_auth_token req.path req.query token))

  -- The gate lets a request through to its handler if it names this machine and the server's port as
  -- its host and presents the token of this launch, in the header or, for the event stream alone, in
  -- the query; it answers every other request with 403 and does not call the handler.
  pub require_auth_cases :
      (IsLocal state.port req.host
        × IsPresented state.auth_token req
        × (require_auth state req next ≡ handled (next req)))
      ⊎ (¬ (IsLocal state.port req.host × IsPresented state.auth_token req)
          × (require_auth state req next ≡ forbidden))
  require_auth_cases = elim (Bool-cases authorized) [
    | inl pass ↦
        let (local, token) = authorized_sound pass in inl (local, token, require_auth-true pass)
    | inr refused ↦
        inr (λ h. contradiction (authorized_complete h.0 h.1) refused, require_auth-false refused)
  ]
    where
      contradiction : authorized ≡ true → authorized ≡ false → ⊥
      contradiction t f = cc
