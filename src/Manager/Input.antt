-- ===== src/Manager/Input.antt =====
-- `submit_input`, `request_input` and what is read from the child's lines.
use zju_connect_gui.Base.{
  ℕ, [], ◌∷◌, Bool, true, false, ◌||◌, Option, none, some, any, ltb, if◌then◌else◌,
}
use zju_connect_gui.Base.Results.{ok, err}
use zju_connect_gui.Text.{Text, trim, is_empty, byte_len, contains_char, is_control, text_eq}
use zju_connect_gui.Manager.State.{
  State, InputKind, SubmitInputError, awaiting, empty, kind_name, running, submit_result, emit,
  need_input, show_window, send_line, not_running, kind_mismatch, missing_kind, not_awaiting,
  invalid_value, too_long,
}
use zju_connect_gui.Manager.Action.{Outcome, give_reply, go_on, effects_then, report, done}

-- A character that would end or corrupt a line of the child's input.
unfoldable pub breaks_line : Text → Bool
breaks_line value =
    contains_char b'\n' value
    || contains_char b'\r' value
    || contains_char 0x2028 value
    || contains_char 0x2029 value
    || any is_control value

abbrev pub refuse : State → SubmitInputError → Outcome
refuse s e = go_on s (give_reply (submit_result (err e)) ∷ [])

-- `stdin_tx` is there, and the receiver may be gone.
abbrev send_to : Option ℕ → Bool → Text → State → Outcome
send_to none sent value s = refuse s not_running
send_to (some channel) false value s = refuse s not_running
send_to (some channel) true value s =
    effects_then (record s { awaiting = none }) (send_line channel value ∷ [])
      (report running none ∷ give_reply (submit_result (ok tt)) ∷ [])

abbrev check_kind : (expected : Text) → Option Text → Bool → Text → State → Outcome
check_kind expected none sent value s = refuse s missing_kind
check_kind expected (some kind) sent value s =
    if text_eq expected kind
    then send_to s.stdin_tx sent value s
    else refuse s (kind_mismatch expected kind)

abbrev pub check_awaiting : Option Text → Option Text → Bool → Text → State → Outcome
check_awaiting none kind sent value s = refuse s not_awaiting
check_awaiting (some expected) kind sent value s = check_kind expected kind sent value s

unfoldable pub step_submit_input : Text → Option Text → (sent : Bool) → State → Outcome
unfolding breaks_line
step_submit_input raw kind sent s =
    let value = trim raw in
    if is_empty value
    then refuse s empty
    else if ltb 4096 (byte_len value)
    then refuse s too_long
    else if breaks_line value
    then refuse s invalid_value
    else check_awaiting s.awaiting kind sent value s

abbrev pub same_prompt : Option Text → Text → Bool
same_prompt none kind = false
same_prompt (some waiting) kind = text_eq waiting kind

-- A prompt is announced once: not while the same kind is awaited already.
unfoldable pub step_request_input : InputKind → Text → State → Outcome
step_request_input kind prompt s =
    if same_prompt s.awaiting (kind_name kind)
    then done s
    else effects_then (record s { awaiting = some (kind_name kind) })
        (show_window ∷ emit (need_input kind prompt) ∷ []) (report awaiting none ∷ [])
