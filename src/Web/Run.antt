-- ===== src/Web/Run.antt =====
-- src/web/server.rs: the token of a launch, and the start of the server.
pub mod Opened
use zju_connect_gui.Base.{
  ℕ, ◌+◌, ◌-◌, ◌/◌, ◌%◌, Bool, List, [], ◌∷◌, ◌++◌, Option, none, some, ltb, if◌then◌else◌,
}
use zju_connect_gui.Base.Results.{Result, ok, err, ◌>>=◌}
use zju_connect_gui.Text.{Text}
use zju_connect_gui.Store.{File}
use zju_connect_gui.Web.Server
use zju_connect_gui.Web.Server.{BindError, bind_listener}
use zju_connect_gui.Web.Handlers

-- A digit of `{b:02x}`.
abbrev pub hex_digit : ℕ → ℕ
hex_digit d = if ltb d 10 then b'0' + d else b'a' + (d - 10)

-- The text of sixteen random bytes.
unfoldable pub generate_token : (bytes : List ℕ) → Text
generate_token [] = []
generate_token (b ∷ bytes) = hex_digit (b / 16) ∷ hex_digit (b % 16) ∷ generate_token bytes

-- What `run` gives, with the state that the gate and the handlers share.
pub record RunningServer (M : Type 0) : Type 0 where
  pub port : ℕ
  pub token : Text
  pub gate : Server.AppState
  pub app : Handlers.AppState M

module _ {M : Type 0} where
  abbrev pub running_on :
      (port : ℕ) (token : Text) (manager : M) (settings : File) → RunningServer M
  running_on port token manager settings = record {
    port = port;
    token = token;
    gate = record { port = port; auth_token = token };
    app = record { manager = manager; settings = settings; elevate_tx = none };
  }

  unfoldable pub run :
      (free : ℕ → Bool) (assigned : Option ℕ) (port_file : Option Text) (bytes : List ℕ)
      (manager : M) (settings : File)
      → Result (RunningServer M) BindError
  unfolding bind_listener generate_token
  run free assigned port_file bytes manager settings =
      bind_listener free assigned port_file >>= λ port.
      ok (running_on port (generate_token bytes) manager settings)
