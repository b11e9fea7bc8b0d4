-- ===== src/Exec/Hub/Telling.antt =====
-- What a subscriber of the hub is told.
use hounds_ciai.Prelude.{
  ℕ, String, true, false, ◌≡◌, refl, sym, ◌∙◌, ap, Option, none, some, List, [], ◌∷◌, ◌==◌,
  string_eq, nat_eq, if◌then◌else◌, ltb, Bool-cases, inl, inr,
}
use hounds_ciai.Prelude.Maps.{lookup, insert, lookup-insert}
use hounds_ciai.Exec.{AgentState, PaneEvent, normalize_state}
use hounds_ciai.Exec.Hub.{
  Sub, PaneInfo, Hub, prime, subscribe, without, unsubscribe, send_event, deliver, same_state,
  publish, broadcast, receive_from,
}

-- The steps of a hub; only a running poller polls.
pub data Step (hub : Hub) : Hub → Type 0 where
  subscribes : Step hub (subscribe hub)
  unsubscribes : (id : ℕ) → Step hub (unsubscribe id hub)
  polled : (panes : List PaneInfo) → hub.polling ≡ true → Step hub (broadcast panes hub)
  received : (id : ℕ) → Step hub (record hub { subs = receive_from id hub.subs })

abbrev pub idle_hub : Hub
idle_hub = record { subs = []; last = []; polling = false; next_id = 0 }

pub data Reachable : Hub → Type 0 where
  begins : Reachable idle_hub
  goes_on : {h k : Hub} → Reachable h → Step h k → Reachable k

-- The newest state that events tell of a pane.
unfoldable pub latest : String → List PaneEvent → Option AgentState
latest pane [] = none
latest pane (ev ∷ evs) =
    let rest = latest pane evs in if ev.pane_id == pane then some ev.state else rest

-- A subscriber to which no send was dropped has been told exactly the last states.
unfoldable pub Told : List (String × AgentState) → List Sub → Type 0
unfolding latest
Told last [] = Unit
Told last (s ∷ ss) =
    (s.dropped ≡ false → (pane : String) → latest pane s.sent ≡ lookup pane last) × Told last ss

latest-prime : (p : String) (m : List (String × AgentState)) → latest p (prime m) ≡ lookup p m
unfolding latest
latest-prime p [] = refl
latest-prime p ((k, v) ∷ m) = ap (λ r. if k == p then some v else r) (latest-prime p m)

send-Told :
    (pane : String) (st : AgentState) (last : List (String × AgentState)) (s : Sub)
    → (s.dropped ≡ false → (p : String) → latest p s.sent ≡ lookup p last)
    → (send_event (record { pane_id = pane; state = st }) s).dropped ≡ false
    → (p : String)
    → latest p (send_event (record { pane_id = pane; state = st }) s).sent
      ≡ lookup p (insert pane st last)
unfolding send_event latest
send-Told pane st last s h = elim (Bool-cases (ltb s.buffered s.room)) [
  | inl b ↦
      rw b λ d p.
        ap (λ r. if pane == p then some st else r) (h d p) ∙ sym (lookup-insert p pane st last)
  | inr b ↦ rw b λ d p. cc
]

deliver-Told :
    (pane : String) (st : AgentState) (last : List (String × AgentState)) (ss : List Sub)
    → Told last ss
    → Told (insert pane st last) (deliver (record { pane_id = pane; state = st }) ss)
unfolding Told deliver
deliver-Told pane st last [] h = tt
deliver-Told pane st last (s ∷ ss) (h, hs) =
    (send-Told pane st last s h, deliver-Told pane st last ss hs)

publish-Told :
    (pane : String) (st : AgentState) (hub : Hub)
    → Told hub.last hub.subs
    → Told (publish pane st hub).last (publish pane st hub).subs
unfolding publish
publish-Told pane st hub h =
    elim (Bool-cases (same_state (lookup pane hub.last) st))
      as (λ _. Told (publish pane st hub).last (publish pane st hub).subs) [
        | inl b ↦ rw b h
        | inr b ↦ rw b (deliver-Told pane st hub.last hub.subs h)
      ]

broadcast-Told :
    (panes : List PaneInfo) (hub : Hub)
    → Told hub.last hub.subs
    → Told (broadcast panes hub).last (broadcast panes hub).subs
unfolding broadcast
broadcast-Told [] hub h = h
broadcast-Told (p ∷ ps) hub h =
    broadcast-Told ps (publish p.pane_id (normalize_state p.agent_status) hub)
      (publish-Told p.pane_id (normalize_state p.agent_status) hub h)

without-Told :
    (id : ℕ) (last : List (String × AgentState)) (ss : List Sub)
    → Told last ss
    → Told last (without id ss)
unfolding Told without
without-Told id last [] h = tt
without-Told id last (s ∷ ss) (h, hs) = elim (Bool-cases (s.id == id)) [
  | inl b ↦ rw b (without-Told id last ss hs)
  | inr b ↦ rw b (h, without-Told id last ss hs)
]

receive_from-Told :
    (id : ℕ) (last : List (String × AgentState)) (ss : List Sub)
    → Told last ss
    → Told last (receive_from id ss)
unfolding Told receive_from
receive_from-Told id last [] h = tt
receive_from-Told id last (s ∷ ss) (h, hs) = elim (Bool-cases (s.id == id)) [
  | inl b ↦ rw b (h, receive_from-Told id last ss hs)
  | inr b ↦ rw b (h, receive_from-Told id last ss hs)
]

-- In every order of subscriptions, polls, receives and unsubscriptions, a subscriber to which no send
-- was dropped has been sent, for each pane, exactly the last state that the poller saw: nothing that
-- changed before it joined, or since, is missed.
pub Reachable-Told : {hub : Hub} → Reachable hub → Told hub.last hub.subs
unfolding Told subscribe unsubscribe
Reachable-Told begins = tt
Reachable-Told (goes_on {h} r subscribes) = (λ d p. latest-prime p h.last, Reachable-Told r)
Reachable-Told (goes_on {h} r (unsubscribes id)) = without-Told id h.last h.subs (Reachable-Told r)
Reachable-Told (goes_on {h} r (polled panes on)) = broadcast-Told panes h (Reachable-Told r)
Reachable-Told (goes_on {h} r (received id)) = receive_from-Told id h.last h.subs (Reachable-Told r)
