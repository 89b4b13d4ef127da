-- ===== src/Web/Server/Port.antt =====
-- The port that is used again at the next launch.
use zju_connect_gui.Base.{
  ℕ, ◌≤◌, ◌≡◌, ◌-◌, ◌^◌, refl, ap, subst, ◌∙◌, Bool, true, Option, none, some, arith, Bool-cases,
  inl, inr, leb, leb→le,
}
use zju_connect_gui.Base.Results.{Result, ok, err}
use zju_connect_gui.Text.{Text, trim}
use zju_connect_gui.Text.Decimal.{parse_uint}
use zju_connect_gui.Text.Decimal.RoundTrip.{parse_uint-to_decimal}
use zju_connect_gui.Text.Decimal.Bounds.{parse_uint_le}
use zju_connect_gui.Text.Decimal.Solid.{trim-to_decimal}
use zju_connect_gui.Web.Server.{
  BindError, default_port, if_unreserved, bind_any, bind_fallback, bind_preferred, last_port,
  bind_listener, persist_port,
}

-- A port of sixteen bits that is not reserved.
abbrev IsUsable : ℕ → Type 0
IsUsable port = (1024 ≤ port) × (port ≤ 2 ^ 16 - 1)

abbrev IsUsableIfSome : Option ℕ → Type 0
IsUsableIfSome none = Unit
IsUsableIfSome (some port) = IsUsable port

abbrev IsUsableIfOk : Result ℕ BindError → Type 0
IsUsableIfOk (ok port) = IsUsable port
IsUsableIfOk (err e) = Unit

if_unreserved-IsUsable :
    (parsed : Option ℕ)
    → ((m : ℕ) → parsed ≡ some m → m ≤ 2 ^ 16 - 1)
    → IsUsableIfSome (if_unreserved parsed)
if_unreserved-IsUsable none fits = tt
if_unreserved-IsUsable (some port) fits = elim (Bool-cases (leb 1024 port)) [
  | inl high ↦ rw high (leb→le 1024 port high, fits port refl)
  | inr low ↦ rw low tt
]

last_port-IsUsable : (contents : Option Text) → IsUsableIfSome (last_port contents)
unfolding last_port
last_port-IsUsable none = tt
last_port-IsUsable (some contents) =
    if_unreserved-IsUsable (parse_uint (2 ^ 16 - 1) (trim contents))
      (parse_uint_le (2 ^ 16 - 1) (trim contents))

bind_any-IsUsable :
    (assigned : Option ℕ) → IsUsableIfSome assigned → IsUsableIfOk (bind_any assigned)
bind_any-IsUsable none given = tt
bind_any-IsUsable (some port) given = given

bind_fallback-IsUsable :
    (free : ℕ → Bool) (assigned : Option ℕ)
    → IsUsableIfSome assigned
    → IsUsableIfOk (bind_fallback free assigned)
bind_fallback-IsUsable free assigned given = elim (Bool-cases (free default_port)) [
  | inl available ↦ rw available (omega arith, omega arith)
  | inr taken ↦ rw taken (bind_any-IsUsable assigned given)
]

bind_preferred-IsUsable :
    (free : ℕ → Bool) (assigned preferred : Option ℕ)
    → IsUsableIfSome assigned
    → IsUsableIfSome preferred
    → IsUsableIfOk (bind_preferred free assigned preferred)
bind_preferred-IsUsable free assigned none given kept = bind_fallback-IsUsable free assigned given
bind_preferred-IsUsable free assigned (some port) given kept = elim (Bool-cases (free port)) [
  | inl available ↦ rw available kept
  | inr taken ↦ rw taken (bind_fallback-IsUsable free assigned given)
]

last_port-persist_port :
    (port : ℕ) → IsUsable port → last_port (some (persist_port port)) ≡ some port
unfolding last_port persist_port
last_port-persist_port port (low, high) =
    ap (λ t. if_unreserved (parse_uint (2 ^ 16 - 1) t)) (trim-to_decimal port)
    ∙ (ap if_unreserved (parse_uint-to_decimal (2 ^ 16 - 1) port high) ∙ ground arith)

-- The port that a launch listens on, and writes to its file, is the one that the next launch listens on
-- while it is free, whatever the file said before and whichever ports were free then. A port that the
-- system assigns is not reserved and has sixteen bits.
pub bind_listener-persist_port :
    (free later_free : ℕ → Bool) (assigned later_assigned : Option ℕ) (contents : Option Text)
    (port : ℕ)
    → IsUsableIfSome assigned
    → bind_listener free assigned contents ≡ ok port
    → later_free port ≡ true
    → bind_listener later_free later_assigned (some (persist_port port)) ≡ ok port
unfolding bind_listener
bind_listener-persist_port free later_free assigned later_assigned contents port given bound
      available =
    let usable = subst IsUsableIfOk bound (
      bind_preferred-IsUsable free assigned (last_port contents) given
        (last_port-IsUsable contents)) in
    ap (bind_preferred later_free later_assigned) (last_port-persist_port port usable)
    ∙ rw available refl
