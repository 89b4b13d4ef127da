-- ===== src/Launch/Args.antt =====
-- The command line read back the way a flag parser reads it: a bare flag stands alone, any other
-- takes the next argument as its value, whatever that looks like.
use zju_connect_gui.Base.{
  ◌≡◌, refl, List, [], ◌∷◌, ◌++◌, Bool, true, false, Option, none, some, any, if◌then◌else◌, not,
  ap,
}
use zju_connect_gui.Text.{Text, codes, text_eq, is_empty}
use zju_connect_gui.Text.Decimal.{to_decimal}
use zju_connect_gui.Launch.{LaunchOptions, only_if, build_args}

bare_flags : List Text
bare_flags =
    codes "-disable-zju-config"
    ∷ codes "-tun-mode"
    ∷ codes "-add-route"
    ∷ codes "-dns-hijack"
    ∷ codes "-fake-ip"
    ∷ codes "-debug-dump"
    ∷ []

-- A flag with its value, if it takes one.
abbrev Flag : Type 0
Flag = Text × Option Text

pub read_args : List Text → List Flag
unfolding bare_flags
read_args [] = []
read_args (flag ∷ []) = (flag, none) ∷ []
read_args (flag ∷ value ∷ rest) = elim (any (text_eq flag) bare_flags) [
  | true ↦ (flag, none) ∷ read_args (value ∷ rest)
  | false ↦ (flag, some value) ∷ read_args rest
]

abbrev flags_if : Bool → List Flag → List Flag
flags_if test flags = if test then flags else []

-- The flags that the options stand for.
abbrev pub flags_of : LaunchOptions → Text → List Flag
flags_of o captcha_path =
    ((codes "-protocol", some o.protocol)
      ∷ (codes "-server", some o.server)
      ∷ (codes "-port", some (to_decimal o.port))
      ∷ (codes "-username", some o.username)
      ∷ (codes "-password", some o.password)
      ∷ (codes "-disable-zju-config", none)
      ∷ (codes "-socks-bind", some o.socks_bind)
      ∷ (codes "-http-bind", some o.http_bind)
      ∷ (codes "-secondary-dns-server", some o.secondary_dns_server)
      ∷ (codes "-auth-type", some o.auth_type)
      ∷ (codes "-login-domain", some o.login_domain)
      ∷ (codes "-client-data-file", some o.client_data_file)
      ∷ [])
    ++ (flags_if (not (is_empty captcha_path)) ((codes "-graph-code-file", some captcha_path) ∷ [])
        ++ (flags_if o.tun_mode (
              (codes "-tun-mode", none)
              ∷ (codes "-add-route", none)
              ∷ (codes "-dns-hijack", none)
              ∷ (codes "-fake-ip", none)
              ∷ [])
            ++ flags_if o.debug_dump ((codes "-debug-dump", none) ∷ [])))

tail_flags :
    (captcha tun debug : Bool) (path : Text)
    → read_args (
        only_if captcha (codes "-graph-code-file" ∷ path ∷ [])
        ++ (only_if tun
              (codes "-tun-mode" ∷ codes "-add-route" ∷ codes "-dns-hijack" ∷ codes "-fake-ip" ∷ [])
            ++ only_if debug (codes "-debug-dump" ∷ [])))
      ≡ flags_if captcha ((codes "-graph-code-file", some path) ∷ [])
        ++ (flags_if tun (
              (codes "-tun-mode", none)
              ∷ (codes "-add-route", none)
              ∷ (codes "-dns-hijack", none)
              ∷ (codes "-fake-ip", none)
              ∷ [])
            ++ flags_if debug ((codes "-debug-dump", none) ∷ []))
unfolding read_args text_eq
tail_flags true true true path = refl
tail_flags true true false path = refl
tail_flags true false true path = refl
tail_flags true false false path = refl
tail_flags false true true path = refl
tail_flags false true false path = refl
tail_flags false false true path = refl
tail_flags false false false path = refl

-- The arguments are read back as exactly the flags of the options: each value stands behind its own
-- flag and none is taken for a flag, the captcha flag is there if its path is not empty, the four
-- flags of TUN mode together if that is on, and the dump flag if that is on.
pub read_args-build_args :
    (o : LaunchOptions) (captcha_path : Text)
    → read_args (build_args o captcha_path) ≡ flags_of o captcha_path
unfolding build_args read_args text_eq
read_args-build_args o captcha_path =
    ap
      (λ t.
        ((codes "-protocol", some o.protocol)
          ∷ (codes "-server", some o.server)
          ∷ (codes "-port", some (to_decimal o.port))
          ∷ (codes "-username", some o.username)
          ∷ (codes "-password", some o.password)
          ∷ (codes "-disable-zju-config", none)
          ∷ (codes "-socks-bind", some o.socks_bind)
          ∷ (codes "-http-bind", some o.http_bind)
          ∷ (codes "-secondary-dns-server", some o.secondary_dns_server)
          ∷ (codes "-auth-type", some o.auth_type)
          ∷ (codes "-login-domain", some o.login_domain)
          ∷ (codes "-client-data-file", some o.client_data_file)
          ∷ [])
        ++ t)
      (tail_flags (not (is_empty captcha_path)) o.tun_mode o.debug_dump captcha_path)
