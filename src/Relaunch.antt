-- ===== src/Relaunch.antt =====
-- src/backend/relaunch_args.rs: the arguments that an elevated copy of the program is started with.
pub mod RoundTrip
use zju_connect_gui.Base.{
  ℕ, ◌-◌, ◌^◌, List, [], ◌∷◌, ◌++◌, Bool, true, false, Option, none, some, ltb, ◌==◌, if◌then◌else◌,
}
use zju_connect_gui.Base.Results.{Result, ok, err, ◌>>=◌}
use zju_connect_gui.Text.{Text, codes, text_eq, strip_prefix}
use zju_connect_gui.Text.Decimal.{to_decimal, parse_uint}

abbrev resume_pending_connect_arg : Text
resume_pending_connect_arg = codes "--resume-pending-connect"

abbrev pub wait_parent_pid_arg_prefix : Text
wait_parent_pid_arg_prefix = codes "--wait-parent-pid="

abbrev pub u32_max : ℕ
u32_max = 2 ^ 32 - 1

pub record ElevatedRelaunchArgs : Type 0 where
  pub resume_pending_connect : Bool
  pub wait_parent_pid : ℕ  -- u32

pub data RelaunchArgsError : Type 0 where
  invalid_parent_pid : Text → RelaunchArgsError

unfoldable pub build_elevated_relaunch_args : (parent_pid : ℕ) → List Text
build_elevated_relaunch_args parent_pid =
    resume_pending_connect_arg
    ∷ (if ltb 0 parent_pid then (wait_parent_pid_arg_prefix ++ to_decimal parent_pid) ∷ [] else [])

-- `value.parse()`, and the refusal of zero.
unfoldable pub parse_pid : Text → Result ℕ RelaunchArgsError
parse_pid value = elim (parse_uint u32_max value) [
  | none ↦ err (invalid_parent_pid value)
  | some pid ↦ if pid == 0 then err (invalid_parent_pid value) else ok pid
]

-- The body of the loop.
unfoldable pub parse_arg :
    ElevatedRelaunchArgs → Text → Result ElevatedRelaunchArgs RelaunchArgsError
parse_arg parsed arg =
    if text_eq arg resume_pending_connect_arg
    then ok (record parsed { resume_pending_connect = true })
    else elim (strip_prefix wait_parent_pid_arg_prefix arg) [
      | none ↦ ok parsed
      | some value ↦ parse_pid value >>= λ pid.
          ok (record { resume_pending_connect = true; wait_parent_pid = pid })
    ]

unfoldable pub parse_args_from :
    ElevatedRelaunchArgs → List Text → Result ElevatedRelaunchArgs RelaunchArgsError
parse_args_from parsed [] = ok parsed
parse_args_from parsed (arg ∷ args) = parse_arg parsed arg >>= λ next. parse_args_from next args

unfoldable pub parse_elevated_relaunch_args :
    List Text → Result ElevatedRelaunchArgs RelaunchArgsError
parse_elevated_relaunch_args args =
    parse_args_from (record { resume_pending_connect = false; wait_parent_pid = 0 }) args
