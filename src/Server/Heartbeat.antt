-- ===== src/Server/Heartbeat.antt =====
-- The loop of monitorControlStream (internal/server/handlers_control.go): a ping on every tick, and
-- the end of the session when two in a row were not answered.
pub mod Runs
use f2p.Prelude.{
  ℕ, suc, ◌+◌, ◌≤◌, ◌≡◌, refl, sym, ap, subst, ◌∙◌, ◌⊎◌, inl, inr, Bool, true, false, ◌||◌, ◌&&◌,
  List, [], ◌∷◌, ◌++◌, Option, none, some, arith, if◌then◌else◌, String, str_eq, leb, Bool-cases,
  Option-cases, All, map,
}
use f2p.Proto.{UnifiedMessage, heartbeat, eq_type, is_shutdown_message}
use f2p.Message.{pong}

pub record Monitor : Type 0 where
  pub missed : ℕ
  pub waiting_ack : Bool

abbrev pub max_missed : ℕ
max_missed = 2

abbrev pub fresh : Monitor
fresh = record { missed = 0; waiting_ack = false }

-- What the loop selects: a tick (does the ping's send succeed?), a message, an error, the server's end.
pub data Beat : Type 0 where
  tick : Bool → Beat
  arrives : UnifiedMessage → Beat
  read_fails server_ends : Beat

-- The count of a tick on which the last ping has no answer.
unfoldable pub count_missed : Monitor → Monitor
count_missed s = if s.waiting_ack then record { missed = suc s.missed; waiting_ack = false } else s

unfoldable pub on_tick : Bool → Monitor → Option Monitor
unfolding count_missed
on_tick send_ok s =
    let counted = count_missed s in
    if s.waiting_ack && leb max_missed counted.missed
    then none
    else (if send_ok then some (record counted { waiting_ack = true }) else none)

abbrev pub is_pong : UnifiedMessage → Bool
is_pong m = eq_type m.type heartbeat && str_eq m.message "pong"

unfoldable pub on_message : UnifiedMessage → Monitor → Option Monitor
unfolding is_shutdown_message eq_type
on_message m s =
    if is_shutdown_message (some m)
    then none
    else (if s.waiting_ack && is_pong m then some fresh else some s)

-- One round of the loop; none ends the session.
unfoldable pub beat : Beat → Monitor → Option Monitor
unfolding on_tick on_message
beat (tick send_ok) s = on_tick send_ok s
beat (arrives m) s = on_message m s
beat read_fails s = none
beat server_ends s = none

unfoldable pub monitor : List Beat → Monitor → Option Monitor
unfolding beat
monitor [] s = some s
monitor (b ∷ bs) s = elim (beat b s) [ none ↦ none | some s' ↦ monitor bs s' ]

abbrev pub ticks : List Beat → ℕ
ticks [] = 0
ticks (tick ok ∷ bs) = suc (ticks bs)
ticks (_ ∷ bs) = ticks bs

abbrev pub IsSilent : Beat → Type 0
IsSilent (arrives m) = is_pong m ≡ false
IsSilent (tick ok) = Unit
IsSilent read_fails = Unit
IsSilent server_ends = Unit
