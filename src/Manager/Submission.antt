-- ===== src/Manager/Submission.antt =====
-- What reaches the child's input.
use zju_connect_gui.Base.{
  ℕ, ◌≡◌, ◌≤◌, ◌⊎◌, Bool, true, false, [], ◌∷◌, Option, none, some, arith, ◌↔◌, refl,
}
use zju_connect_gui.Text.{Text, trim, is_empty, byte_len}
use zju_connect_gui.Text.Laws.{text_eq_iff, text_eq_refl}
use zju_connect_gui.Manager.State.{State, send_line}
use zju_connect_gui.Manager.Input.{check_awaiting, breaks_line, step_submit_input}

-- The submission is one line that answers the prompt in force, and the child can read it.
pub record IsAccepted (raw : Text) (kind : Option Text) (sent : Bool) (s : State) : Type 0 where
  pub not_empty : is_empty (trim raw) ≡ false
  pub short : byte_len (trim raw) ≤ 4096
  one_line : breaks_line (trim raw) ≡ false
  pub asked : Text
  asked_for : s.awaiting ≡ some asked
  same_kind : kind ≡ some asked
  pub channel : ℕ
  channel_open : s.stdin_tx ≡ some channel
  pub receiver : sent ≡ true

-- What lets a line through behind the checks on the value.
abbrev Reaches : Option Text → Option Text → Bool → State → Type 0
Reaches waiting kind sent s =
    (asked : Text) × (waiting ≡ some asked)
    × (kind ≡ some asked)
    × ((channel : ℕ) × (s.stdin_tx ≡ some channel))
    × (sent ≡ true)

check_awaiting-Reaches :
    (waiting kind : Option Text) (sent : Bool) (value : Text) (s : State) (channel : ℕ)
    (line : Text)
    → (check_awaiting waiting kind sent value s).effects ≡ send_line channel line ∷ []
    → Reaches waiting kind sent s
check_awaiting-Reaches none kind sent value s channel line h = cc
check_awaiting-Reaches (some asked) none sent value s channel line h = cc
check_awaiting-Reaches (some asked) (some given) sent value s channel line h =
    (asked, refl, ground (arith, text_eq_iff asked given), ground arith, ground arith)

accepted_only :
    (raw : Text) (kind : Option Text) (sent : Bool) (s : State) (channel : ℕ)
    → (step_submit_input raw kind sent s).effects ≡ send_line channel (trim raw) ∷ []
    → (is_empty (trim raw) ≡ false)
      × (byte_len (trim raw) ≤ 4096)
      × (breaks_line (trim raw) ≡ false)
      × ((check_awaiting s.awaiting kind sent (trim raw) s).effects
          ≡ send_line channel (trim raw) ∷ [])
unfolding step_submit_input
accepted_only raw kind sent s channel h = ground arith

submit_sound :
    (raw : Text) (kind : Option Text) (sent : Bool) (s : State) (channel : ℕ)
    → (step_submit_input raw kind sent s).effects ≡ send_line channel (trim raw) ∷ []
    → IsAccepted raw kind sent s
submit_sound raw kind sent s channel h =
    let (filled, short, clean, passed) = accepted_only raw kind sent s channel h in
    let (asked, waiting, given, (open_channel, is_open), received) =
      check_awaiting-Reaches s.awaiting kind sent (trim raw) s channel (trim raw) passed in
    record {
      not_empty = filled;
      short = short;
      one_line = clean;
      asked = asked;
      asked_for = waiting;
      same_kind = given;
      channel = open_channel;
      channel_open = is_open;
      receiver = received;
    }

submit_complete :
    (raw : Text) (kind : Option Text) (sent : Bool) (s : State) (h : IsAccepted raw kind sent s)
    → (step_submit_input raw kind sent s).effects ≡ send_line h.channel (trim raw) ∷ []
unfolding step_submit_input
submit_complete raw kind sent s h = ground (arith, text_eq_refl h.asked)

-- A line is written exactly when the trimmed value is not empty, at most 4096 bytes long and free
-- of line breaks and control characters, the kind is given and is the one that is awaited, and the
-- child's input is open.
pub step_submit_input_iff :
    (raw : Text) (kind : Option Text) (sent : Bool) (s : State)
    → ((channel : ℕ) × ((step_submit_input raw kind sent s).effects
          ≡ send_line channel (trim raw) ∷ []))
      ↔ IsAccepted raw kind sent s
step_submit_input_iff raw kind sent s =
    (λ p. submit_sound raw kind sent s p.0 p.1, λ h. (h.channel, submit_complete raw kind sent s h))

-- A submission either writes nothing and leaves the state as it was, or writes the one trimmed
-- line, clears the prompt and leaves the child's input open.
pub step_submit_input_cases :
    (raw : Text) (kind : Option Text) (sent : Bool) (s : State)
    → let o = step_submit_input raw kind sent s in
      ((o.effects ≡ []) × (o.state ≡ s))
      ⊎ ((o.state.awaiting ≡ none)
          × (o.state.stdin_tx ≡ s.stdin_tx)
          × ((channel : ℕ) × (o.effects ≡ send_line channel (trim raw) ∷ [])))
unfolding step_submit_input
step_submit_input_cases raw kind sent s = ground arith
