-- ===== src/Server/Heartbeat/Runs.antt =====
-- Sessions of clients that answer the pings, and of clients that do not.
use f2p.Prelude.{
  ℕ, ◌+◌, ◌≤◌, ◌≡◌, refl, sym, ap, ◌∙◌, inl, inr, Bool, true, false, ◌&&◌, List, [], ◌∷◌, ◌++◌,
  Option, none, some, arith, if◌then◌else◌, Bool-cases, Option-cases, All, map,
}
use f2p.Proto.{UnifiedMessage, is_shutdown_message}
use f2p.Message.{pong}
use f2p.Server.Heartbeat.{Monitor, fresh, Beat, tick, arrives, is_pong, on_message, beat, monitor}

-- How many pings have gone unanswered, the current one included.
abbrev unanswered : Monitor → ℕ
unanswered s = s.missed + (if s.waiting_ack then 1 else 0)

abbrev from_some : Monitor → Option Monitor → Monitor
from_some d none = d
from_some d (some s) = s

-- Fewer than two answers have been missed.
abbrev IsLive : Monitor → Type 0
IsLive s = s.missed ≤ 1

monitor_ends :
    (b : Beat) (bs : List Beat) (s : Monitor) → beat b s ≡ none → monitor (b ∷ bs) s ≡ none
unfolding monitor
monitor_ends b bs s e = rw (e, monitor) refl

monitor_goes_on :
    (b : Beat) (bs : List Beat) (s t : Monitor)
    → beat b s ≡ some t
    → monitor (b ∷ bs) s ≡ monitor bs t
unfolding monitor
monitor_goes_on b bs s t e = rw (e, monitor) refl

-- One period of a client that answers: a ping that is sent, other messages, the pong.
abbrev pub period : List UnifiedMessage → List Beat
period ms = tick true ∷ (map arrives ms ++ (arrives pong ∷ []))

abbrev pub periods : List (List UnifiedMessage) → List Beat
periods [] = []
periods (ms ∷ mss) = period ms ++ periods mss

abbrev pub IsOrdinary : UnifiedMessage → Type 0
IsOrdinary m = is_shutdown_message (some m) ≡ false

abbrev none_missed : Bool → Monitor
none_missed w = record { missed = 0; waiting_ack = w }

monitor-append :
    (bs cs : List Beat) (s t : Monitor)
    → monitor bs s ≡ some t
    → monitor (bs ++ cs) s ≡ monitor cs t
unfolding monitor
monitor-append [] cs s t e = ap (monitor cs) (ap (from_some s) e)
monitor-append (b ∷ bs) cs s t e = elim (Option-cases (beat b s)) [
  | inl f ↦ absurd (ground (arith, sym (monitor_ends b bs s f) ∙ e))
  | inr (u, f) ↦
      monitor_goes_on b (bs ++ cs) s u f
      ∙ monitor-append bs cs u t (sym (monitor_goes_on b bs s u f) ∙ e)
]

on_message_ordinary :
    (m : UnifiedMessage) (w : Bool)
    → IsOrdinary m
    → (w' : Bool) × (on_message m (none_missed w) ≡ some (none_missed w'))
unfolding on_message
on_message_ordinary m w h = elim (Bool-cases (w && is_pong m)) [
  | inl e ↦ (false, rw (h, e) refl)
  | inr e ↦ (w, rw (h, e) refl)
]

messages_ordinary :
    (ms : List UnifiedMessage) (w : Bool)
    → All IsOrdinary ms
    → (w' : Bool) × (monitor (map arrives ms) (none_missed w) ≡ some (none_missed w'))
unfolding monitor
messages_ordinary [] w h = (w, refl)
messages_ordinary (m ∷ ms) w h =
    let (v, e) = on_message_ordinary m w h.0 in
    let (u, f) = messages_ordinary ms v h.1 in
    (
      u,
      monitor_goes_on (arrives m) (map arrives ms) (none_missed w) (none_missed v)
            (beat_arrives m w v e)
          ∙ f,
    )
  where
    beat_arrives :
        (m : UnifiedMessage) (w v : Bool)
        → on_message m (none_missed w) ≡ some (none_missed v)
        → beat (arrives m) (none_missed w) ≡ some (none_missed v)
    beat_arrives m w v e = e

pong_settles : (w : Bool) → monitor (arrives pong ∷ []) (none_missed w) ≡ some fresh
unfolding monitor
pong_settles true = refl
pong_settles false = refl

ping_sent : monitor (tick true ∷ []) fresh ≡ some (none_missed true)
unfolding monitor
ping_sent = refl

period_settles :
    (ms : List UnifiedMessage) → All IsOrdinary ms → monitor (period ms) fresh ≡ some fresh
period_settles ms h =
    let (w, e) = messages_ordinary ms true h in
    monitor-append (tick true ∷ []) (map arrives ms ++ (arrives pong ∷ [])) fresh (none_missed true)
      ping_sent
    ∙ (monitor-append (map arrives ms) (arrives pong ∷ []) (none_missed true) (none_missed w) e
        ∙ pong_settles w)

-- A client that answers is never dropped: after any number of periods, each a ping that is sent,
-- messages that announce no shutdown, and a pong before the next ping, the session is as it was.
pub answering_client_kept :
    (mss : List (List UnifiedMessage))
    → All (All IsOrdinary) mss
    → monitor (periods mss) fresh ≡ some fresh
unfolding monitor
answering_client_kept [] h = refl
answering_client_kept (ms ∷ mss) h =
    monitor-append (period ms) (periods mss) fresh fresh (period_settles ms h.0)
    ∙ answering_client_kept mss h.1
