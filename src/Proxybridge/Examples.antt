-- ===== src/Proxybridge/Examples.antt =====
-- Two processes on Windows, with the default SOCKS address.
use zju_connect_gui.Base.{◌≡◌, ◌≢◌, refl, subst, sym, [], ◌∷◌, true, false}
use zju_connect_gui.Text.{codes, contains_char, rsplit_once, strip_prefix}
use zju_connect_gui.Text.Decimal.{parse_uint}
use zju_connect_gui.Launch.{LaunchOptions, blank_options, windows, macos}
use zju_connect_gui.Proxybridge.{start, extract_host_port, has_nul, strip_brackets}
use zju_connect_gui.Proxybridge.Rules.{all_calls, IsClean, IsOk, start_clean, start_ok}

abbrev two : LaunchOptions
two = record blank_options {
  socks_bind = codes "127.0.0.1:1080";
  proxybridge_processes = codes "mstsc.exe" ∷ codes "ssh.exe" ∷ [];
}

host-clean : has_nul (extract_host_port two.socks_bind).0 ≡ false
unfolding extract_host_port contains_char rsplit_once parse_uint strip_brackets strip_prefix
host-clean = refl

two-IsClean : IsClean two.proxybridge_processes
unfolding contains_char
two-IsClean = (refl, (refl, tt))

two-IsOk : IsOk (start windows true two).1
two-IsOk =
    subst (λ r. IsOk r.1) (sym (start_clean true two host-clean windows (λ e. cc) two-IsClean)) tt

start_ok_example :
    (windows ≢ macos)
    × ((start windows true two).0 ≡ all_calls windows two)
    × (true ≡ true)
    × IsClean two.proxybridge_processes
start_ok_example = start_ok windows true two two-IsOk
