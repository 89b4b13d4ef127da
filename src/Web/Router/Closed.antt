-- ===== src/Web/Router/Closed.antt =====
-- What a request without the token, or with another host, gets and changes.
use zju_connect_gui.Base.{◌≡◌, inl, inr, refl, Option, none, some, Bool-cases}
use zju_connect_gui.Text.{Text, codes, text_eq}
use zju_connect_gui.Launch.{Platform}
use zju_connect_gui.Store.Settings.{Json}
use zju_connect_gui.Web.Server
use zju_connect_gui.Web.Server.{Request, require_auth, forbidden, handled}
use zju_connect_gui.Web.Server.Gate.{IsLocal, IsPresented, require_auth_cases}
use zju_connect_gui.Web.Handlers.{ProxyManager}
use zju_connect_gui.Web.Router.{
  Method, Api, Endpoint, api, index, static_file, api_route, endpoint, Reply, answered, stream,
  refused, unmatched, bad_body, page, not_found, file, serve_static, Served, Inputs, call_api,
  run_endpoint, serve,
}

-- A reply that tells nothing but the page, its files, and that a request is not served.
abbrev pub IsPublic : Reply → Type 0
IsPublic (answered response) = ⊥
IsPublic (stream rx) = ⊥
IsPublic bad_body = ⊥
IsPublic refused = Unit
IsPublic unmatched = Unit
IsPublic page = Unit
IsPublic not_found = Unit
IsPublic (file asset content_type) = Unit

serve_static-IsPublic : (path : Text) → IsPublic (serve_static path)
unfolding serve_static
serve_static-IsPublic path = elim (Bool-cases (text_eq path (codes "pico.min.css"))) [
  | inl css ↦ rw css tt
  | inr no_css ↦ elim (Bool-cases (text_eq path (codes "alpine.min.js"))) [
    | inl js ↦ rw (no_css, js) tt
    | inr no_js ↦ rw (no_css, no_js) tt
  ]
]

module _ {ℓ} (to_lowercase : Text → Text) (platform : Platform) (json : Json) {Event : Type ℓ}
    {M : Type 0} (proxy : ProxyManager M) (gate : Server.AppState) (inputs : Inputs)
    (s : Served Event M) where
  run_endpoint-IsPublic :
      (req : Request) (e : Option Endpoint)
      → ¬ (IsLocal gate.port req.host × IsPresented gate.auth_token req)
      → let (after, reply) = run_endpoint to_lowercase platform json proxy gate req inputs s e in
        (after ≡ s) × IsPublic reply
  run_endpoint-IsPublic req none closed = (refl, tt)
  run_endpoint-IsPublic req (some index) closed = (refl, tt)
  run_endpoint-IsPublic req (some (static_file path)) closed = (refl, serve_static-IsPublic path)
  run_endpoint-IsPublic req (some (api route)) closed =
      elim (require_auth_cases gate req
        (λ next. call_api to_lowercase platform json proxy route inputs s)) [
          | inl (local, presented, passes) ↦ absurd (closed (local, presented))
          | inr (shut, answer) ↦ rw answer (refl, tt)
        ]

  -- A request whose host is not this machine with the port that is listened on, or that does not
  -- present the token, changes nothing, whatever its method, path and body are: neither the manager and
  -- the settings, nor the channel to the event loop, nor the replay buffer. Its reply is a refusal, the
  -- page, one of the static files, or that nothing is found; no handler answers it.
  pub serve-IsPublic :
      (method : Method) (req : Request)
      → ¬ (IsLocal gate.port req.host × IsPresented gate.auth_token req)
      → let (after, reply) = serve to_lowercase platform json proxy gate method req inputs s in
        (after ≡ s) × IsPublic reply
  unfolding serve
  serve-IsPublic method req closed = run_endpoint-IsPublic req (endpoint method req.path) closed

  -- With the token and the host, a request that matches a route of the interface runs its handler.
  serve_open :
      (method : Method) (req : Request) (route : Api)
      → IsLocal gate.port req.host
      → IsPresented gate.auth_token req
      → api_route method req.path ≡ some route
      → serve to_lowercase platform json proxy gate method req inputs s
        ≡ call_api to_lowercase platform json proxy route inputs s
  unfolding serve endpoint
  serve_open method req route local presented matched =
      rw matched
        (elim (require_auth_cases gate req
          (λ next. call_api to_lowercase platform json proxy route inputs s)) [
            | inl (_, _, passes) ↦ rw passes refl
            | inr (shut, answer) ↦ absurd (shut (local, presented))
          ])
