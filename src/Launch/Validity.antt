-- ===== src/Launch/Validity.antt =====
-- What validation accepts.
use zju_connect_gui.Base.{◌≡◌, ◌↔◌, refl, ℕ, ◌<◌, Bool, true, false, not, any, ◌==◌, arith}
use zju_connect_gui.Base.Results.{Result, ok, ◌>>◌, fail_if}
use zju_connect_gui.Text.{Text, text_eq, is_empty}
use zju_connect_gui.Launch.{
  LaunchOptions, unsupported_protocol, empty_username, empty_password, supported_protocols,
  validate, normalize_launch_options,
}
use zju_connect_gui.Launch.Normal.{IsLowercase, normalize-IsFilled}

-- The conditions on launch options, each for itself.
pub record IsLaunchable (o : LaunchOptions) : Type 0 where
  pub protocol_known : any (text_eq o.protocol) supported_protocols ≡ true
  pub has_server : is_empty o.server ≡ false
  pub has_port : 0 < o.port
  pub has_username : is_empty o.username ≡ false
  pub has_password : is_empty o.password ≡ false
  pub has_socks_bind : is_empty o.socks_bind ≡ false
  pub has_http_bind : is_empty o.http_bind ≡ false
  pub has_secondary_dns_server : is_empty o.secondary_dns_server ≡ false
  pub has_auth_type : is_empty o.auth_type ≡ false
  pub has_login_domain : is_empty o.login_domain ≡ false
  pub has_client_data_file : is_empty o.client_data_file ≡ false

-- A passed check, and what passed behind it.
fail_if-passed :
    {E : Type 0} (test : Bool) (e : E) (rest : Result (Unit {0}) E)
    → (fail_if test e >> rest) ≡ ok tt
    → (test ≡ false) × (rest ≡ ok tt)
fail_if-passed true e rest h = cc
fail_if-passed false e rest h = (refl, h)

not-eq-false : (b : Bool) → not b ≡ false → b ≡ true
not-eq-false b h = ground arith

nonzero : (n : ℕ) → (n == 0) ≡ false → 0 < n
nonzero n h = ground arith

validate_sound : (o : LaunchOptions) → validate o ≡ ok tt → IsLaunchable o
unfolding validate
validate_sound o h0 =
    let (c0, h1) = fail_if-passed _ _ _ h0 in
    let (c1, h2) = fail_if-passed _ _ _ h1 in
    let (c2, h3) = fail_if-passed _ _ _ h2 in
    let (c3, h4) = fail_if-passed _ _ _ h3 in
    let (c4, h5) = fail_if-passed _ _ _ h4 in
    let (c5, h6) = fail_if-passed _ _ _ h5 in
    let (c6, h7) = fail_if-passed _ _ _ h6 in
    let (c7, h8) = fail_if-passed _ _ _ h7 in
    let (c8, h9) = fail_if-passed _ _ _ h8 in
    let (c9, h10) = fail_if-passed _ _ _ h9 in
    let (c10, h11) = fail_if-passed _ _ _ h10 in
    record {
      protocol_known = not-eq-false _ c0;
      has_server = c1;
      has_port = nonzero o.port c2;
      has_username = c3;
      has_password = c4;
      has_socks_bind = c5;
      has_http_bind = c6;
      has_secondary_dns_server = c7;
      has_auth_type = c8;
      has_login_domain = c9;
      has_client_data_file = c10;
    }

port_nonzero : (n : ℕ) → 0 < n → (n == 0) ≡ false
port_nonzero n h = ground arith

validate_complete : (o : LaunchOptions) → IsLaunchable o → validate o ≡ ok tt
unfolding validate
validate_complete o h = rw (
  h.protocol_known,
  h.has_server,
  port_nonzero o.port h.has_port,
  h.has_username,
  h.has_password,
  h.has_socks_bind,
  h.has_http_bind,
  h.has_secondary_dns_server,
  h.has_auth_type,
  h.has_login_domain,
  h.has_client_data_file,
)

-- Validation accepts exactly the options with a supported protocol, a port that is not zero, and
-- no empty text among the other nine fields that it reads.
pub validate_iff : (o : LaunchOptions) → (validate o ≡ ok tt) ↔ IsLaunchable o
validate_iff o = (validate_sound o, validate_complete o)

normalize-port :
    (to_lowercase : Text → Text) (o : LaunchOptions)
    → (normalize_launch_options to_lowercase o).port == 0 ≡ false
unfolding normalize_launch_options
normalize-port to_lowercase o = ground arith

-- Of normalised options only three checks are left, in this order: the protocol, the user name and
-- the password. All other fields have been given a usable value.
pub validate-normalize :
    {to_lowercase : Text → Text} (laws : IsLowercase to_lowercase) (o : LaunchOptions)
    → let n = normalize_launch_options to_lowercase o in
      validate n ≡ (
        fail_if
          (not (any (text_eq n.protocol) supported_protocols))
          (unsupported_protocol n.protocol)
        >> (fail_if (is_empty n.username) empty_username
            >> (fail_if (is_empty n.password) empty_password >> ok tt)))
unfolding validate
validate-normalize {to_lowercase} laws o =
    let filled = normalize-IsFilled laws o in
    rw (
      filled.1.1,
      normalize-port to_lowercase o,
      filled.2.1,
      filled.3.1,
      filled.4.1,
      filled.5.1,
      filled.6.1,
      filled.7.1,
    )
