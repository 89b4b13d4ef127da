-- ===== src/Web/Router.antt =====
-- src/web/server.rs: the routes, the gate in front of those of the interface, the event stream and the
-- static files. What axum extracts from a body is given; a request that matches no route is axum's.
pub mod Closed
mod Examples
use zju_connect_gui.Store.{Writing}
use zju_connect_gui.Base.{ℕ, List, [], ◌∷◌, Bool, true, false, Option, none, some, if◌then◌else◌}
use zju_connect_gui.Text.{Text, codes, text_eq, is_empty, strip_prefix}
use zju_connect_gui.Launch.{LaunchOptions, Platform}
use zju_connect_gui.Store.Settings.{Json}
use zju_connect_gui.Web.Server.{Request, require_auth, handled, forbidden}
use zju_connect_gui.Web.Server
use zju_connect_gui.Web.Bridge.{WebUiBridge, Receiver, subscribe}
use zju_connect_gui.Web.Handlers.{
  AppState, ProxyManager, Response, get_settings, save_settings, start_proxy, stop_proxy,
  submit_input, get_status, elevate,
}

-- `get` stands for HEAD too, which axum serves by the same handler.
pub data Method : Type 0 where
  get post other : Method

pub data Api : Type 0 where
  settings_read settings_write start stop input status elevation events : Api

pub data Endpoint : Type 0 where
  api : Api → Endpoint
  index : Endpoint
  static_file : (path : Text) → Endpoint

abbrev pub either : Bool → Api → Option Api → Option Api
either true route rest = some route
either false route rest = rest

unfoldable pub api_route : Method → Text → Option Api
api_route get path = either (text_eq path (codes "/api/settings")) settings_read (
    either (text_eq path (codes "/api/status")) status
      (either (text_eq path (codes "/api/events")) events none))
api_route post path = either (text_eq path (codes "/api/settings")) settings_write (
    either (text_eq path (codes "/api/start")) start (
      either (text_eq path (codes "/api/stop")) stop (
        either (text_eq path (codes "/api/submit-input")) input
          (either (text_eq path (codes "/api/elevate")) elevation none))))
api_route other path = none

-- `{*path}` matches what follows the prefix, if there is something.
abbrev captured : Option Text → Option Endpoint
captured none = none
captured (some path) = if is_empty path then none else some (static_file path)

abbrev page_route : Method → Text → Option Endpoint
page_route get path =
    if text_eq path (codes "/") then some index else captured (strip_prefix (codes "/static/") path)
page_route _ path = none

abbrev first_route : Option Api → Option Endpoint → Option Endpoint
first_route (some route) rest = some (api route)
first_route none rest = rest

-- `build_router`
unfoldable pub endpoint : Method → Text → Option Endpoint
unfolding api_route
endpoint method path = first_route (api_route method path) (page_route method path)

pub data Asset : Type 0 where
  pico_css alpine_js : Asset

pub data Reply : Type 0 where
  answered : Response → Reply
  stream : (rx : ℕ) → Reply
  refused unmatched bad_body page not_found : Reply
  file : Asset → (content_type : Text) → Reply

unfoldable pub serve_static : (path : Text) → Reply
serve_static path =
    if text_eq path (codes "pico.min.css")
    then file pico_css (codes "text/css")
    else if text_eq path (codes "alpine.min.js")
    then file alpine_js (codes "application/javascript")
    else not_found

-- What the requests change.
pub record Served {ℓ} (Event : Type ℓ) (M : Type 0) : Type ℓ where
  pub app : AppState M
  pub bridge : WebUiBridge Event

-- The bodies as they are extracted, each `none` if axum refuses it; how writing the settings ends;
-- and the process id.
pub record Inputs : Type 0 where
  pub launch_options : Option LaunchOptions
  pub start_request : Option (Option LaunchOptions)
  pub elevate_request : Option LaunchOptions
  pub input_request : Option (Text × Option Text)
  pub writing : Writing
  pub pid : ℕ

module _ {ℓ} (to_lowercase : Text → Text) (platform : Platform) (json : Json) {Event : Type ℓ}
    {M : Type 0} (proxy : ProxyManager M) where
  abbrev after_handler : Served Event M → AppState M × Response → Served Event M × Reply
  after_handler s (app, response) = (record s { app = app }, answered response)

  -- A handler runs only with its body.
  abbrev with_body {κ} :
      {B : Type κ}
      → Served Event M
      → Option B
      → (B → AppState M × Response)
      → Served Event M × Reply
  with_body s none handler = (s, bad_body)
  with_body s (some body) handler = after_handler s (handler body)

  abbrev pub opened : Served Event M → WebUiBridge Event × Receiver Event → Served Event M × Reply
  opened s (bridge, rx) = (record s { bridge = bridge }, stream rx)

  unfoldable pub call_api : Api → Inputs → Served Event M → Served Event M × Reply
  unfolding get_settings save_settings start_proxy stop_proxy submit_input get_status elevate
      subscribe
  call_api settings_read inputs s = (s, answered (get_settings to_lowercase platform json s.app))
  call_api settings_write inputs s =
      with_body s inputs.launch_options
        λ raw. save_settings to_lowercase platform json inputs.writing raw s.app
  call_api start inputs s =
      with_body s inputs.start_request
        λ req. start_proxy to_lowercase platform json proxy inputs.writing req s.app
  call_api stop inputs s = after_handler s (stop_proxy proxy s.app)
  call_api input inputs s =
      with_body s inputs.input_request λ (value, kind). submit_input proxy value kind s.app
  call_api status inputs s = (s, answered (get_status proxy s.app))
  call_api elevation inputs s =
      with_body s inputs.elevate_request
        λ raw. elevate to_lowercase platform json inputs.writing inputs.pid raw s.app
  call_api events inputs s = opened s (subscribe s.bridge)

  abbrev pub passed :
      Served Event M → Server.Answer (Served Event M × Reply) → Served Event M × Reply
  passed s forbidden = (s, refused)
  passed s (handled answer) = answer

  abbrev pub run_endpoint :
      Server.AppState → Request → Inputs → Served Event M → Option Endpoint → Served Event M × Reply
  run_endpoint gate req inputs s none = (s, unmatched)
  run_endpoint gate req inputs s (some (api route)) =
      passed s (require_auth gate req (λ next. call_api route inputs s))
  run_endpoint gate req inputs s (some index) = (s, page)
  run_endpoint gate req inputs s (some (static_file path)) = (s, serve_static path)

  unfoldable pub serve :
      Server.AppState → Method → Request → Inputs → Served Event M → Served Event M × Reply
  unfolding endpoint require_auth serve_static call_api
  serve gate method req inputs s = run_endpoint gate req inputs s (endpoint method req.path)
