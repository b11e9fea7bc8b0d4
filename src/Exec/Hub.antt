-- ===== src/Exec/Hub.antt =====
-- internal/exec/events.go: the one poller and its subscribers. Each method runs under the hub's mutex, so
-- it is one step; a subscriber is a number, with what was ever sent on its channel, newest first, how
-- much of that is still buffered, the buffer's size, and whether a send to it was ever dropped.
pub mod Telling
pub mod Polling
use hounds_ciai.Prelude.{
  ℕ, suc, ◌+◌, ◌-◌, String, Bool, true, false, not, ◌&&◌, ◌≡◌, refl, sym, ◌∙◌, ap, Option, none,
  some, List, [], ◌∷◌, ◌==◌, string_eq, nat_eq, if◌then◌else◌, ltb, length, is_nonempty, Bool-cases,
  inl, inr, arith,
}
use hounds_ciai.Prelude.Maps.{lookup, insert}
use hounds_ciai.Exec.{AgentState, agent_state_text, PaneEvent, normalize_state}

pub record Sub : Type 0 where
  pub id : ℕ
  pub sent : List PaneEvent
  pub buffered : ℕ
  pub room : ℕ
  pub dropped : Bool

-- A pane of a poll, as herdr lists it.
pub record PaneInfo : Type 0 where
  pub pane_id : String
  pub agent_status : String
  pub workspace_id : String
  pub cwd : String

-- `eventHub`; `polling` is whether the poller runs, that is, `cancel` is set.
pub record Hub : Type 0 where
  pub subs : List Sub
  pub last : List (String × AgentState)
  pub polling : Bool
  pub next_id : ℕ

abbrev pub event_buffer_size : ℕ
event_buffer_size = 64

abbrev pub prime : List (String × AgentState) → List PaneEvent
prime [] = []
prime ((pane, st) ∷ m) = record { pane_id = pane; state = st } ∷ prime m

-- `subscribe`: the channel is primed with the last states, and the poller runs.
unfoldable pub subscribe : Hub → Hub
subscribe hub = record hub {
  subs =
      record {
        id = hub.next_id;
        sent = prime hub.last;
        buffered = length hub.last;
        room = length hub.last + event_buffer_size;
        dropped = false;
      }
      ∷ hub.subs;
  polling = true;
  next_id = suc hub.next_id;
}

unfoldable pub without : ℕ → List Sub → List Sub
without id [] = []
without id (s ∷ ss) = let rest = without id ss in if s.id == id then rest else s ∷ rest

-- `unsubscribe`: the last subscriber stops the poller.
unfoldable pub unsubscribe : ℕ → Hub → Hub
unfolding without
unsubscribe id hub =
    let rest = without id hub.subs in
    record hub { subs = rest; polling = hub.polling && is_nonempty rest }

-- The send with a default: a full buffer drops the event.
unfoldable pub send_event : PaneEvent → Sub → Sub
send_event ev s =
    if ltb s.buffered s.room
    then record s { sent = ev ∷ s.sent; buffered = suc s.buffered }
    else record s { dropped = true }

unfoldable pub deliver : PaneEvent → List Sub → List Sub
unfolding send_event
deliver ev [] = []
deliver ev (s ∷ ss) = send_event ev s ∷ deliver ev ss

abbrev pub same_state : Option AgentState → AgentState → Bool
same_state none st = false
same_state (some prev) st = agent_state_text prev == agent_state_text st

-- `broadcast`: a pane whose state is the last one seen is passed over.
unfoldable pub publish : String → AgentState → Hub → Hub
unfolding deliver
publish pane st hub = if same_state (lookup pane hub.last) st then hub else record hub {
  subs = deliver (record { pane_id = pane; state = st }) hub.subs;
  last = insert pane st hub.last;
}

unfoldable pub broadcast : List PaneInfo → Hub → Hub
unfolding publish
broadcast [] hub = hub
broadcast (p ∷ ps) hub = broadcast ps (publish p.pane_id (normalize_state p.agent_status) hub)

-- A subscriber's receive.
unfoldable pub receive_from : ℕ → List Sub → List Sub
receive_from id [] = []
receive_from id (s ∷ ss) =
    (if s.id == id then record s { buffered = s.buffered - 1 } else s) ∷ receive_from id ss
