-- ===== src/Proxybridge.antt =====
-- src/backend/proxy/proxybridge.rs: when the ProxyBridge library is used, where it is looked for,
-- and the calls of its C interface that set it up. The library itself is not part of the program:
-- a call of it is recorded, and its answer is a parameter.
pub mod Rules
mod Examples
use zju_connect_gui.Base.{
  ℕ, List, [], ◌∷◌, ◌++◌, Bool, true, false, Option, none, some, not, ◌&&◌, ◌||◌, if◌then◌else◌,
}
use zju_connect_gui.Base.Results.{Result, ok, err}
use zju_connect_gui.Text.{Text, codes, contains_char, strip_prefix, strip_suffix_char, rsplit_once}
use zju_connect_gui.Text.Decimal.{parse_uint}
use zju_connect_gui.Launch.{LaunchOptions, Platform, windows, linux, macos}

abbrev pub has_any : List Text → Bool
has_any [] = false
has_any (p ∷ ps) = true

unfoldable pub is_active : Platform → LaunchOptions → Bool
is_active macos o = false
is_active windows o = o.proxybridge_enabled && has_any o.proxybridge_processes && not o.tun_mode
is_active linux o = o.proxybridge_enabled && has_any o.proxybridge_processes && not o.tun_mode

abbrev pb_lib_name : Platform → Text
pb_lib_name windows = codes "ProxyBridgeCore.dll"
pb_lib_name linux = codes "libproxybridge.so"
pb_lib_name macos = []

abbrev default_install_dirs : Platform → List Text
default_install_dirs windows =
    codes "C:\\Program Files\\ProxyBridge" ∷ codes "C:\\Program Files (x86)\\ProxyBridge" ∷ []
default_install_dirs linux = codes "/usr/local/lib" ∷ codes "/usr/lib" ∷ []
default_install_dirs macos = []

-- What the operating system says of paths, which differs by platform.
pub record Paths : Type 0 where
  pub is_absolute : Text → Bool
  pub join : Text → Text → Text

pub record Files : Type 0 where
  pub is_dir : Text → Bool
  pub is_file : Text → Bool

abbrev if_file : Files → Text → Option Text → Option Text
if_file fs candidate otherwise = if fs.is_file candidate then some candidate else otherwise

unfoldable first_installed : Paths → Files → Text → List Text → Option Text
first_installed paths fs lib [] = none
first_installed paths fs lib (dir ∷ dirs) =
    if_file fs (paths.join dir lib) (first_installed paths fs lib dirs)

-- The second and third place: the bundled library, then the install directories.
unfoldable find_installed : Platform → Paths → Files → Text → Option Text
find_installed platform paths fs app_dir =
    let lib = pb_lib_name platform in
    if_file fs (paths.join (paths.join app_dir (codes "proxybridge")) lib)
      (first_installed paths fs lib (default_install_dirs platform))

abbrev resolve : Paths → Text → Text → Text
resolve paths app_dir user = if paths.is_absolute user then user else paths.join app_dir user

-- The first place: the user's path, a directory that holds the library or the library itself.
unfoldable find_from_user : Platform → Paths → Files → Text → Option Text → Option Text
find_from_user platform paths fs app_dir none = find_installed platform paths fs app_dir
find_from_user platform paths fs app_dir (some user) =
    let resolved = resolve paths app_dir user in
    let others = find_installed platform paths fs app_dir in
    if fs.is_dir resolved
    then if_file fs (paths.join resolved (pb_lib_name platform)) others
    else if_file fs resolved others

unfoldable find_proxybridge_library : Platform → Paths → Files → Option Text → Text → Option Text
find_proxybridge_library macos paths fs user app_dir = none
find_proxybridge_library windows paths fs user app_dir =
    find_from_user windows paths fs app_dir user
find_proxybridge_library linux paths fs user app_dir = find_from_user linux paths fs app_dir user

-- `.strip_prefix('[').and_then(|h| h.strip_suffix(']')).unwrap_or(host)`
abbrev unbracketed : Text → Option Text → Text
unbracketed host none = host
unbracketed host (some inner) = inner

abbrev inner_of : Option Text → Option Text
inner_of none = none
inner_of (some h) = strip_suffix_char b']' h

unfoldable pub strip_brackets : Text → Text
strip_brackets host = unbracketed host (inner_of (strip_prefix (codes "[") host))

abbrev or_whole : Text → Text → Option ℕ → Text × ℕ
or_whole bind host none = (bind, 1080)
or_whole bind host (some port) = (strip_brackets host, port)

abbrev from_split : Text → Option (Text × Text) → Text × ℕ
from_split bind none = (bind, 1080)
from_split bind (some (host, port_str)) = or_whole bind host (parse_uint 65535 port_str)

-- The host and the port of a bind address; port 1080 where none is given.
unfoldable pub extract_host_port : Text → Text × ℕ
extract_host_port bind = from_split bind (rsplit_once b':' bind)

-- A call of the C interface. Rules are for all hosts and ports, over TCP, to the proxy.
pub data BridgeCall : Type 0 where
  set_proxy_config : (host : Text) (port : ℕ) → BridgeCall  -- Linux
  set_dns_via_proxy : BridgeCall  -- Linux
  add_proxy_config : (host : Text) (port : ℕ) → BridgeCall  -- Windows
  add_rule : (process : Text) → BridgeCall
  set_localhost_via_proxy : Bool → BridgeCall  -- Windows
  start_call : BridgeCall

-- `CString::new` refuses text that holds a NUL.
abbrev pub has_nul : Text → Bool
has_nul = contains_char 0

abbrev pub configure : Platform → Text → ℕ → List BridgeCall
configure windows host port = add_proxy_config host port ∷ []
configure linux host port = set_proxy_config host port ∷ set_dns_via_proxy ∷ []
configure macos host port = []

abbrev pub before_start : Platform → List BridgeCall
before_start windows = set_localhost_via_proxy false ∷ []
before_start linux = []
before_start macos = []

abbrev start_failed : Text
start_failed = codes "ProxyBridge_Start returned false (is the kernel module/driver installed?)"

-- The end of `start`: `started` is the library's answer.
abbrev launch : Platform → Bool → List BridgeCall → List BridgeCall × Result (Unit {0}) Text
launch platform started calls = (
  calls ++ (before_start platform ++ start_call ∷ []),
  if started then ok tt else err start_failed,
)

-- The loop over the processes, behind the calls made so far.
unfoldable pub add_rules :
    Platform → Bool → List BridgeCall → List Text → List BridgeCall × Result (Unit {0}) Text
add_rules platform started calls [] = launch platform started calls
add_rules platform started calls (process ∷ processes) =
    let invalid = codes "invalid process name: " ++ process in
    let rest = add_rules platform started (calls ++ add_rule process ∷ []) processes in
    if has_nul process then (calls, err invalid) else rest

-- `ProxyBridge::start` where the library is supported: the calls made, in order, and the result.
unfoldable pub start_supported :
    Platform → (started : Bool) → LaunchOptions → List BridgeCall × Result (Unit {0}) Text
unfolding add_rules extract_host_port
start_supported platform started o =
    let (host, port) = extract_host_port o.socks_bind in
    let run = add_rules platform started (configure platform host port) o.proxybridge_processes in
    if has_nul host then ([], err (codes "invalid proxy host")) else run

abbrev pub unsupported : Text
unsupported = codes "ProxyBridge is not supported on macOS"

-- `ProxyBridge::start`, which always fails on macOS.
unfoldable pub start :
    Platform → (started : Bool) → LaunchOptions → List BridgeCall × Result (Unit {0}) Text
unfolding start_supported
start macos started o = ([], err unsupported)
start windows started o = start_supported windows started o
start linux started o = start_supported linux started o
