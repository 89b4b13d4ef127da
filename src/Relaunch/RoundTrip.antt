-- ===== src/Relaunch/RoundTrip.antt =====
-- The relaunch arguments of an elevated copy are read back as they were built.
use zju_connect_gui.Base.{
  ℕ, zero, suc, ◌≤◌, ◌<◌, ◌≡◌, refl, List, [], ◌∷◌, ◌++◌, true, false, some, arith, lt→ltb,
}
use zju_connect_gui.Base.Results.{Result, ok, err, ◌>>=◌}
use zju_connect_gui.Text.{Text, text_eq}
use zju_connect_gui.Text.Laws.{strip_prefix-append}
use zju_connect_gui.Text.Decimal.{to_decimal, parse_uint}
use zju_connect_gui.Text.Decimal.RoundTrip.{parse_uint-to_decimal}
use zju_connect_gui.Relaunch.{
  ElevatedRelaunchArgs, RelaunchArgsError, build_elevated_relaunch_args, parse_pid, parse_arg,
  parse_args_from, parse_elevated_relaunch_args, wait_parent_pid_arg_prefix, u32_max,
}

parse_pid-some :
    (value : Text) (pid : ℕ)
    → parse_uint u32_max value ≡ some pid
    → 0 < pid
    → parse_pid value ≡ ok pid
unfolding parse_pid
parse_pid-some value pid e positive = ground arith

parse_pid-to_decimal : (pid : ℕ) → pid ≤ u32_max → 0 < pid → parse_pid (to_decimal pid) ≡ ok pid
parse_pid-to_decimal pid fits positive =
    parse_pid-some (to_decimal pid) pid (parse_uint-to_decimal u32_max pid fits) positive

parse_arg_pid :
    (parsed : ElevatedRelaunchArgs) (value : Text)
    → parse_arg parsed (wait_parent_pid_arg_prefix ++ value) ≡ (
        parse_pid value >>= λ pid.
        ok (record { resume_pending_connect = true; wait_parent_pid = pid }))
unfolding parse_arg text_eq
parse_arg_pid parsed value = rw (strip_prefix-append wait_parent_pid_arg_prefix value)

parse_args_pid :
    (parsed : ElevatedRelaunchArgs) (pid : ℕ)
    → pid ≤ u32_max
    → 0 < pid
    → parse_args_from parsed ((wait_parent_pid_arg_prefix ++ to_decimal pid) ∷ [])
      ≡ ok (record { resume_pending_connect = true; wait_parent_pid = pid })
unfolding parse_args_from
parse_args_pid parsed pid fits positive =
    rw (parse_arg_pid parsed (to_decimal pid), parse_pid-to_decimal pid fits positive)

-- The arguments built for any process id of 32 bits, zero included, are read as a request to resume
-- the connection that waits for exactly that process; zero means that no process is waited for.
pub parse-build_elevated_relaunch_args :
    (pid : ℕ)
    → pid ≤ u32_max
    → parse_elevated_relaunch_args (build_elevated_relaunch_args pid)
      ≡ ok (record { resume_pending_connect = true; wait_parent_pid = pid })
unfolding parse_elevated_relaunch_args build_elevated_relaunch_args parse_args_from parse_arg
    text_eq
parse-build_elevated_relaunch_args zero fits = refl
parse-build_elevated_relaunch_args (suc n) fits = rw (lt→ltb 0 (suc n) (omega arith)) (
    parse_args_pid (record { resume_pending_connect = true; wait_parent_pid = 0 }) (suc n) fits
      (omega arith))

abbrev IsCoherent : ElevatedRelaunchArgs → Type 0
IsCoherent parsed = 0 < parsed.wait_parent_pid → parsed.resume_pending_connect ≡ true

parse_arg-IsCoherent :
    (parsed : ElevatedRelaunchArgs) (arg : Text) {next : ElevatedRelaunchArgs}
    → IsCoherent parsed
    → parse_arg parsed arg ≡ ok next
    → IsCoherent next
unfolding parse_arg
parse_arg-IsCoherent parsed arg coherent h = ground arith

after-IsCoherent :
    (r : Result ElevatedRelaunchArgs RelaunchArgsError)
    {rest : ElevatedRelaunchArgs → Result ElevatedRelaunchArgs RelaunchArgsError}
    {out : ElevatedRelaunchArgs}
    → ((next : ElevatedRelaunchArgs) → r ≡ ok next → IsCoherent next)
    → ((next : ElevatedRelaunchArgs) → IsCoherent next → rest next ≡ ok out → IsCoherent out)
    → (r >>= rest) ≡ ok out
    → IsCoherent out
after-IsCoherent (ok next) first later h = later next (first next refl) h
after-IsCoherent (err e) first later h = cc

parse_args_from-IsCoherent :
    (parsed : ElevatedRelaunchArgs) (args : List Text) (out : ElevatedRelaunchArgs)
    → IsCoherent parsed
    → parse_args_from parsed args ≡ ok out
    → IsCoherent out
unfolding parse_args_from
parse_args_from-IsCoherent parsed [] out coherent h = ground arith
parse_args_from-IsCoherent parsed (arg ∷ args) out coherent h =
    after-IsCoherent (parse_arg parsed arg) (λ next. parse_arg-IsCoherent parsed arg coherent)
      (λ next c. parse_args_from-IsCoherent next args out c) h

-- Whatever the arguments are, if they are accepted and name a process to wait for, then they also ask
-- to resume the connection.
parse_elevated_relaunch_args-IsCoherent :
    (args : List Text) (out : ElevatedRelaunchArgs)
    → parse_elevated_relaunch_args args ≡ ok out
    → IsCoherent out
unfolding parse_elevated_relaunch_args
parse_elevated_relaunch_args-IsCoherent args out h =
    parse_args_from-IsCoherent (record { resume_pending_connect = false; wait_parent_pid = 0 }) args
      out (λ p. absurd (omega arith)) h
