-- ===== src/Launch/Normal.antt =====
-- The normal form of the launch options.
use zju_connect_gui.Base.{
  ℕ, ◌≡◌, ◌∙◌, refl, ap, List, [], ◌∷◌, false, Option, none, some, arith, All, Bool-cases, inl, inr,
  ◌==◌, if◌then◌else◌,
}
use zju_connect_gui.Text.{Text, is_empty, trim, is_whitespace}
use zju_connect_gui.Text.Laws.{IsTrimmed, trim-IsTrimmed, trim_of_IsTrimmed, trim_idem}
use zju_connect_gui.Launch.{
  LaunchOptions, default_protocol, default_server, default_port, default_socks_bind,
  default_http_bind, default_secondary_dns_server, default_auth_type, default_login_domain,
  default_client_data_file, normalize_string_list, or_default, trim_path, normalize_launch_options,
}

-- What is used of `str::to_lowercase`: lower-case text and white space are left alone, and no
-- character is mapped to white space or to nothing.
pub record IsLowercase (to_lowercase : Text → Text) : Type 0 where
  pub idem : (s : Text) → to_lowercase (to_lowercase s) ≡ to_lowercase s
  pub keeps_trimmed : (s : Text) → IsTrimmed s → IsTrimmed (to_lowercase s)
  pub keeps_default : to_lowercase default_protocol ≡ default_protocol

-- A usable value: some text, trimmed.
abbrev IsFilled : Text → Type 0
IsFilled s = IsTrimmed s × (is_empty s ≡ false)

or_default-IsFilled :
    (default field : Text)
    → IsFilled default
    → IsTrimmed field
    → IsFilled (or_default default field)
unfolding or_default
or_default-IsFilled default field d f = elim (Bool-cases (is_empty field)) [
  | inl empty ↦ rw empty d
  | inr filled ↦ rw filled (f, filled)
]

or_default_of_IsFilled :
    (default field : Text) → is_empty field ≡ false → or_default default field ≡ field
unfolding or_default
or_default_of_IsFilled default field h = rw h

or_default-trim_idem :
    (default field : Text)
    → IsFilled default
    → or_default default (trim (or_default default (trim field))) ≡ or_default default (trim field)
or_default-trim_idem default field d =
    let f = or_default-IsFilled default (trim field) d (trim-IsTrimmed field) in
    rw (trim_of_IsTrimmed (or_default default (trim field)) f.0)
      (or_default_of_IsFilled default (or_default default (trim field)) f.1)

normalize_string_list-All : (values : List Text) → All IsFilled (normalize_string_list values)
unfolding normalize_string_list
normalize_string_list-All [] = tt
normalize_string_list-All (v ∷ values) = elim (Bool-cases (is_empty (trim v))) [
  | inl empty ↦ rw empty (normalize_string_list-All values)
  | inr filled ↦ rw filled ((trim-IsTrimmed v, filled), normalize_string_list-All values)
]

normalize_string_list_of_All :
    (values : List Text) → All IsFilled values → normalize_string_list values ≡ values
unfolding normalize_string_list
normalize_string_list_of_All [] h = refl
normalize_string_list_of_All (v ∷ values) (f, h) =
    rw (trim_of_IsTrimmed v f.0, f.1) (ap (λ t. v ∷ t) (normalize_string_list_of_All values h))

pub normalize_string_list_idem :
    (values : List Text)
    → normalize_string_list (normalize_string_list values) ≡ normalize_string_list values
normalize_string_list_idem values =
    normalize_string_list_of_All (normalize_string_list values) (normalize_string_list-All values)

trim_path_idem : (path : Option Text) → trim_path (trim_path path) ≡ trim_path path
unfolding trim_path
trim_path_idem none = refl
trim_path_idem (some p) = elim (Bool-cases (is_empty (trim p))) [
  | inl empty ↦ rw empty
  | inr filled ↦ rw (filled, trim_idem p, filled)
]

port_idem :
    (port : ℕ)
    → let p = if port == 0 then default_port else port in (if p == 0 then default_port else p) ≡ p
port_idem port = ground arith

-- Literals hold no white space at their ends.
default-IsFilled :
    IsFilled default_protocol
    × IsFilled default_server
    × IsFilled default_socks_bind
    × IsFilled default_http_bind
    × IsFilled default_secondary_dns_server
    × IsFilled default_auth_type
    × IsFilled default_login_domain
    × IsFilled default_client_data_file
unfolding is_whitespace is_empty
default-IsFilled = (
  ((refl, refl), refl),
  ((refl, refl), refl),
  ((refl, refl), refl),
  ((refl, refl), refl),
  ((refl, refl), refl),
  ((refl, refl), refl),
  ((refl, refl), refl),
  ((refl, refl), refl),
)

module _ {to_lowercase : Text → Text} (laws : IsLowercase to_lowercase) where
  lower_trim-IsTrimmed : (s : Text) → IsTrimmed (to_lowercase (trim s))
  lower_trim-IsTrimmed s = laws.keeps_trimmed (trim s) (trim-IsTrimmed s)

  protocol-IsFilled : (s : Text) → IsFilled (or_default default_protocol (to_lowercase (trim s)))
  protocol-IsFilled s =
      or_default-IsFilled default_protocol (to_lowercase (trim s)) default-IsFilled.0
        (lower_trim-IsTrimmed s)

  lower-or_default :
      (s : Text)
      → to_lowercase (or_default default_protocol (to_lowercase s))
        ≡ or_default default_protocol (to_lowercase s)
  unfolding or_default
  lower-or_default s = elim (Bool-cases (is_empty (to_lowercase s))) [
    | inl empty ↦ rw empty laws.keeps_default
    | inr filled ↦ rw filled (laws.idem s)
  ]

  protocol_idem :
      (s : Text)
      → let p = or_default default_protocol (to_lowercase (trim s)) in
        or_default default_protocol (to_lowercase (trim p)) ≡ p
  protocol_idem s =
      let p = or_default default_protocol (to_lowercase (trim s)) in
      let f = protocol-IsFilled s in
      ap (λ t. or_default default_protocol (to_lowercase t)) (trim_of_IsTrimmed p f.0)
      ∙ (ap (or_default default_protocol) (lower-or_default (trim s))
          ∙ or_default_of_IsFilled default_protocol p f.1)

  -- Normalising twice is normalising once, for a `to_lowercase` that keeps lower-case text and
  -- trimmed text.
  pub normalize_launch_options_idem :
      (o : LaunchOptions)
      → normalize_launch_options to_lowercase (normalize_launch_options to_lowercase o)
        ≡ normalize_launch_options to_lowercase o
  unfolding normalize_launch_options
  normalize_launch_options_idem o = λ i. record (normalize_launch_options to_lowercase o) {
    protocol = protocol_idem o.protocol i;
    server = or_default-trim_idem default_server o.server default-IsFilled.1 i;
    port = port_idem o.port i;
    username = trim_idem o.username i;
    socks_bind = or_default-trim_idem default_socks_bind o.socks_bind default-IsFilled.2 i;
    http_bind = or_default-trim_idem default_http_bind o.http_bind default-IsFilled.3 i;
    secondary_dns_server =
        or_default-trim_idem default_secondary_dns_server o.secondary_dns_server default-IsFilled.4
          i;
    auth_type = or_default-trim_idem default_auth_type o.auth_type default-IsFilled.5 i;
    login_domain = or_default-trim_idem default_login_domain o.login_domain default-IsFilled.6 i;
    client_data_file =
        or_default-trim_idem default_client_data_file o.client_data_file default-IsFilled.7 i;
    eip_browser_program = trim_idem o.eip_browser_program i;
    eip_browser_args = normalize_string_list_idem o.eip_browser_args i;
    proxybridge_processes = normalize_string_list_idem o.proxybridge_processes i;
    proxybridge_path = trim_path_idem o.proxybridge_path i;
  }

  -- Every text field that has a default is filled after normalising.
  pub normalize-IsFilled :
      (o : LaunchOptions)
      → let n = normalize_launch_options to_lowercase o in
        IsFilled n.protocol
        × IsFilled n.server
        × IsFilled n.socks_bind
        × IsFilled n.http_bind
        × IsFilled n.secondary_dns_server
        × IsFilled n.auth_type
        × IsFilled n.login_domain
        × IsFilled n.client_data_file
  unfolding normalize_launch_options
  normalize-IsFilled o = (
    protocol-IsFilled o.protocol,
    or_default-IsFilled _ (trim o.server) default-IsFilled.1 (trim-IsTrimmed o.server),
    or_default-IsFilled _ (trim o.socks_bind) default-IsFilled.2 (trim-IsTrimmed o.socks_bind),
    or_default-IsFilled _ (trim o.http_bind) default-IsFilled.3 (trim-IsTrimmed o.http_bind),
    or_default-IsFilled _ (trim o.secondary_dns_server) default-IsFilled.4
        (trim-IsTrimmed o.secondary_dns_server),
    or_default-IsFilled _ (trim o.auth_type) default-IsFilled.5 (trim-IsTrimmed o.auth_type),
    or_default-IsFilled _ (trim o.login_domain) default-IsFilled.6 (trim-IsTrimmed o.login_domain),
    or_default-IsFilled _ (trim o.client_data_file) default-IsFilled.7
        (trim-IsTrimmed o.client_data_file),
  )
