-- ===== src/Web/Router/Examples.antt =====
-- A request to start from another origin.
use zju_connect_gui.Store.{whole}
use zju_connect_gui.Base.{ℕ, ◌≡◌, ap, inl, inr, Bool, true, false, none, some}
use zju_connect_gui.Text.{codes, text_eq}
use zju_connect_gui.Launch.{linux}
use zju_connect_gui.Launch.Examples.{submitted}
use zju_connect_gui.Store.Settings.Examples.{json}
use zju_connect_gui.Manager.Examples.{env}
use zju_connect_gui.Web.Server
use zju_connect_gui.Web.Server.{Request}
use zju_connect_gui.Web.Server.Gate.{IsLocal, IsPresented}
use zju_connect_gui.Web.Bridge.{new_bridge}
use zju_connect_gui.Web.Handlers.Examples.{proxy, app}
use zju_connect_gui.Web.Router.{Inputs, Served, post, serve}
use zju_connect_gui.Web.Router.Closed.{IsPublic, serve-IsPublic}

abbrev gate : Server.AppState
gate = record { port = 19823; auth_token = codes "5f" }

abbrev forged : Request
forged = record {
  host = some (codes "evil.example.com");
  x_auth_token = none;
  path = codes "/api/start";
  query = some (codes "token=5f");
}

abbrev inputs : Inputs
inputs = record {
  launch_options = none;
  start_request = some (some submitted);
  elevate_request = none;
  input_request = none;
  writing = whole;
  pid = 4242;
}

abbrev served : Served ℕ Bool
served = record { app = app; bridge = new_bridge }

forged-closed : ¬ (IsLocal gate.port forged.host × IsPresented gate.auth_token forged)
unfolding text_eq
forged-closed (local, inl e) = cc
forged-closed (local, inr (e, path, q)) = true_ne_false (ap (text_eq (codes "/api/start")) path)
  where
    true_ne_false : true ≡ false → ⊥
    true_ne_false e = cc

serve-IsPublic_example :
    let (after, reply) = serve env.to_lowercase linux json proxy gate post forged inputs served in
    (after ≡ served) × IsPublic reply
serve-IsPublic_example =
    serve-IsPublic env.to_lowercase linux json proxy gate inputs served post forged forged-closed
