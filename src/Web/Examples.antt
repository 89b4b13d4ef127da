-- ===== src/Web/Examples.antt =====
-- A request of the event stream, and events around the first page.
use zju_connect_gui.Base.{ℕ, ◌≡◌, ◌⊎◌, [], ◌∷◌, false, none, some}
use zju_connect_gui.Text.{codes}
use zju_connect_gui.Web.Server.{Request, AppState, require_auth, handled, forbidden}
use zju_connect_gui.Base.{Bool, true, arith, refl}
use zju_connect_gui.Base.Results.{ok}
use zju_connect_gui.Store.{missing}
use zju_connect_gui.Web.Server.{last_port, bind_listener, persist_port}
use zju_connect_gui.Web.Server.Port.{bind_listener-persist_port}
use zju_connect_gui.Web.Run.{RunningServer, running_on, generate_token, run}
use zju_connect_gui.Web.Run.Opened.{page_request, require_auth-run}
use zju_connect_gui.Web.Server.Gate.{IsLocal, IsPresented, require_auth_cases}
use zju_connect_gui.Web.Bridge.{WebUiBridge}

abbrev all_free : ℕ → Bool
all_free port = true

first_bound : bind_listener all_free none none ≡ ok 19823
unfolding bind_listener last_port
first_bound = refl

bind_listener-persist_port_example :
    bind_listener all_free (some 40000) (some (persist_port 19823)) ≡ ok 19823
bind_listener-persist_port_example =
    bind_listener-persist_port all_free all_free none (some 40000) none 19823 tt first_bound refl

abbrev server : RunningServer Bool
server = running_on 19823 (generate_token (0x5f ∷ 0x03 ∷ [])) true missing

server-runs : run all_free none none (0x5f ∷ 0x03 ∷ []) true missing ≡ ok server
unfolding run bind_listener last_port
server-runs = refl

require_auth-run_example :
    require_auth server.gate (page_request server.port server.token) (λ req. req.path)
    ≡ handled (codes "/api/events")
require_auth-run_example =
    require_auth-run all_free none none (0x5f ∷ 0x03 ∷ []) true missing server (λ req. req.path)
      (omega arith, (omega arith, tt)) server-runs

abbrev app : AppState
app = record { port = 19823; auth_token = codes "5f" }

abbrev events_request : Request
events_request = record {
  host = some (codes "LocalHost:19823");
  x_auth_token = none;
  path = codes "/api/events";
  query = some (codes "v=1&token=5f");
}

require_auth_cases_example :
    (IsLocal app.port events_request.host
      × IsPresented app.auth_token events_request
      × (require_auth app events_request (λ req. req.path) ≡ handled (codes "/api/events")))
    ⊎ (¬ (IsLocal app.port events_request.host × IsPresented app.auth_token events_request)
        × (require_auth app events_request (λ req. req.path) ≡ forbidden))
require_auth_cases_example = require_auth_cases app events_request (λ req. req.path)

abbrev connected : WebUiBridge ℕ
connected = record { sent = 1 ∷ []; first_subscriber = false; events = [] }
