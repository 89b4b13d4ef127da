-- ===== src/Store/Examples.antt =====
-- Codecs that write the few fields that matter, one code each.
use zju_connect_gui.Base.{ℕ, ◌≡◌, refl, [], ◌∷◌, Bool, true, false, Option, none, some, ◌==◌}
use zju_connect_gui.Store.{Bytes}
use zju_connect_gui.Store.Pending.{PendingConnectState, Codec}
use zju_connect_gui.Store.Pending.Age.{IsFaithful}

abbrev flag : Bool → ℕ
flag true = 1
flag false = 0

abbrev read_state : Bytes → Option PendingConnectState
read_state (f ∷ t ∷ []) = some (record { resume_connect = f == 1; created_at = t })
read_state _ = none

abbrev pub codec : Codec
codec = record {
  to_vec = λ s. some (flag s.resume_connect ∷ s.created_at ∷ []);
  from_slice = read_state;
}

pub codec-IsFaithful : IsFaithful codec
codec-IsFaithful s = (flag s.resume_connect ∷ s.created_at ∷ [], refl, read_back s.resume_connect)
  where
    read_back :
        (b : Bool)
        → read_state (flag b ∷ s.created_at ∷ [])
          ≡ some (record { resume_connect = b; created_at = s.created_at })
    read_back true = refl
    read_back false = refl
