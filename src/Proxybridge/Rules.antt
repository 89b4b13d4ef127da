-- ===== src/Proxybridge/Rules.antt =====
-- The calls that `start` makes.
use zju_connect_gui.Base.{
  ◌≡◌, ◌≢◌, subst, inl, inr, refl, ap, ◌∙◌, List, [], ◌∷◌, ◌++◌, append_assoc, Bool, true, false,
  Bool-cases, if◌then◌else◌, All,
}
use zju_connect_gui.Base.Results.{Result, ok, err}
use zju_connect_gui.Text.{Text, codes}
use zju_connect_gui.Launch.{LaunchOptions, Platform, windows, linux, macos}
use zju_connect_gui.Proxybridge.{
  BridgeCall, add_proxy_config, set_proxy_config, set_dns_via_proxy, set_localhost_via_proxy,
  start_supported, add_rule, start_call, configure, before_start, has_nul, add_rules, start,
  extract_host_port, start_failed,
}

abbrev rules_of : List Text → List BridgeCall
rules_of [] = []
rules_of (p ∷ ps) = add_rule p ∷ rules_of ps

-- The calls of a whole start, platform by platform. On Linux the proxy is set and asked to resolve
-- names; on Windows it is added, and connections to this machine stay direct.
abbrev pub all_calls : Platform → LaunchOptions → List BridgeCall
all_calls linux o =
    let (host, port) = extract_host_port o.socks_bind in
    set_proxy_config host port
    ∷ set_dns_via_proxy
    ∷ (rules_of o.proxybridge_processes ++ (start_call ∷ []))
all_calls windows o =
    let (host, port) = extract_host_port o.socks_bind in
    add_proxy_config host port
    ∷ (rules_of o.proxybridge_processes ++ (set_localhost_via_proxy false ∷ start_call ∷ []))
all_calls macos o = []

-- No name holds a NUL.
abbrev pub IsClean : List Text → Type 0
IsClean = All (λ p. has_nul p ≡ false)

abbrev answer_of : Bool → Result (Unit {0}) Text
answer_of started = if started then ok tt else err start_failed

add_rules_clean :
    (platform : Platform) (started : Bool) (calls : List BridgeCall) (ps : List Text)
    → IsClean ps
    → add_rules platform started calls ps
      ≡ (calls ++ (rules_of ps ++ (before_start platform ++ start_call ∷ [])), answer_of started)
unfolding add_rules
add_rules_clean platform started calls [] h = refl
add_rules_clean platform started calls (p ∷ ps) (clean, h) = rw clean (
    add_rules_clean platform started (calls ++ add_rule p ∷ []) ps h
    ∙ ap (λ cs. (cs, answer_of started)) (append_assoc calls (add_rule p ∷ []) _))

module _ (started : Bool) (o : LaunchOptions)
    (clean : has_nul (extract_host_port o.socks_bind).0 ≡ false) where
  -- Where the library is supported, the rules follow the configuration.
  start_supported_clean :
      (platform : Platform)
      → start_supported platform started o
        ≡ add_rules platform started
            (configure platform
              (extract_host_port o.socks_bind).0
              (extract_host_port o.socks_bind).1)
            o.proxybridge_processes
  unfolding start_supported
  start_supported_clean platform = rw clean refl

  -- With process names and a proxy host without NUL the library is configured, then given one rule for
  -- each process, in order, and started last; the result is what the library answers.
  pub start_clean :
      (platform : Platform)
      → platform ≢ macos
      → IsClean o.proxybridge_processes
      → start platform started o ≡ (all_calls platform o, answer_of started)
  unfolding start
  start_clean macos supported h = absurd (supported refl)
  start_clean windows supported h =
      start_supported_clean windows ∙ add_rules_clean windows started _ o.proxybridge_processes h
  start_clean linux supported h =
      start_supported_clean linux ∙ add_rules_clean linux started _ o.proxybridge_processes h

abbrev pub IsOk {ℓ κ} : {A : Type ℓ} {E : Type κ} → Result A E → Type 0
IsOk (ok a) = Unit
IsOk (err e) = ⊥

add_rules_bad :
    (platform : Platform) (started : Bool) (calls : List BridgeCall) (p : Text) (ps : List Text)
    → has_nul p ≡ true
    → add_rules platform started calls (p ∷ ps) ≡ (calls, err (codes "invalid process name: " ++ p))
unfolding add_rules
add_rules_bad platform started calls p ps bad = rw bad refl

add_rules_next :
    (platform : Platform) (started : Bool) (calls : List BridgeCall) (p : Text) (ps : List Text)
    → has_nul p ≡ false
    → add_rules platform started calls (p ∷ ps)
      ≡ add_rules platform started (calls ++ add_rule p ∷ []) ps
unfolding add_rules
add_rules_next platform started calls p ps clean = rw clean refl

add_rules_ok :
    (platform : Platform) (started : Bool) (calls : List BridgeCall) (ps : List Text)
    → IsOk (add_rules platform started calls ps).1
    → (started ≡ true) × IsClean ps
add_rules_ok platform true calls [] h = (refl, tt)
add_rules_ok platform false calls [] h = absurd (unfold add_rules in h)
add_rules_ok platform started calls (p ∷ ps) h = elim (Bool-cases (has_nul p)) [
  | inl bad ↦ absurd (subst (λ r. IsOk r.1) (add_rules_bad platform started calls p ps bad) h)
  | inr clean ↦
      let next = subst (λ r. IsOk r.1) (add_rules_next platform started calls p ps clean) h in
      let (up, later) = add_rules_ok platform started (calls ++ add_rule p ∷ []) ps next in
      (up, (clean, later))
]

start_supported_ok :
    (platform : Platform) (started : Bool) (o : LaunchOptions)
    → IsOk (start_supported platform started o).1
    → (has_nul (extract_host_port o.socks_bind).0 ≡ false)
      × (started ≡ true)
      × IsClean o.proxybridge_processes
start_supported_ok platform started o h =
    elim (Bool-cases (has_nul (extract_host_port o.socks_bind).0)) [
      | inl bad ↦ absurd (subst (λ r. IsOk r.1) (start_bad bad) h)
      | inr clean ↦
          let (up, names) =
            add_rules_ok platform started _ o.proxybridge_processes
              (subst (λ r. IsOk r.1) (start_supported_clean started o clean platform) h) in
          (clean, up, names)
    ]
  where
    start_bad :
        has_nul (extract_host_port o.socks_bind).0 ≡ true
        → start_supported platform started o ≡ ([], err (codes "invalid proxy host"))
    start_bad bad = unfold start_supported in rw bad refl

IsOk-start :
    (platform : Platform) (started : Bool) (o : LaunchOptions)
    → IsOk (start platform started o).1
    → (platform ≢ macos) × IsOk (start_supported platform started o).1
unfolding start
IsOk-start macos started o h = absurd h
IsOk-start windows started o h = (λ e. cc, h)
IsOk-start linux started o h = (λ e. cc, h)

-- A start that succeeds is not on macOS. It has configured the library for the address of the SOCKS
-- proxy, on Linux with names resolved through the proxy, then added one rule for each process in order,
-- on Windows then kept this machine's own connections direct, and started the library last, and has made
-- no other call; the library answered that it runs, and no process name held a NUL.
pub start_ok :
    (platform : Platform) (started : Bool) (o : LaunchOptions)
    → IsOk (start platform started o).1
    → (platform ≢ macos)
      × ((start platform started o).0 ≡ all_calls platform o)
      × (started ≡ true)
      × IsClean o.proxybridge_processes
start_ok platform started o h =
    let (supported, h1) = IsOk-start platform started o h in
    let (clean, up, names) = start_supported_ok platform started o h1 in
    (supported, ap (λ r. r.0) (start_clean started o clean platform supported names), up, names)
