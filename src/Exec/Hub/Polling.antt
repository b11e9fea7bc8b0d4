-- ===== src/Exec/Hub/Polling.antt =====
-- When the hub's poller runs.
use hounds_ciai.Prelude.{
  ℕ, String, true, ◌≡◌, refl, ◌∙◌, List, [], ◌∷◌, string_eq, nat_eq, is_nonempty, Bool-cases, inl,
  inr, arith,
}
use hounds_ciai.Exec.{AgentState, normalize_state}
use hounds_ciai.Prelude.Maps.{lookup}
use hounds_ciai.Exec.Hub.{
  Sub, PaneInfo, Hub, subscribe, without, unsubscribe, deliver, same_state, publish, broadcast,
  receive_from,
}
use hounds_ciai.Exec.Hub.Telling.{
  Reachable, begins, goes_on, subscribes, unsubscribes, polled, received,
}

abbrev pub Tuned : Hub → Type 0
Tuned hub = hub.polling ≡ is_nonempty hub.subs

without_nonempty :
    (id : ℕ) (ss : List Sub) → is_nonempty (without id ss) ≡ true → is_nonempty ss ≡ true
unfolding without
without_nonempty id [] h = h
without_nonempty id (s ∷ ss) h = refl

unsubscribe-Tuned : (id : ℕ) (hub : Hub) → Tuned hub → Tuned (unsubscribe id hub)
unfolding unsubscribe
unsubscribe-Tuned id hub h = elim (Bool-cases (is_nonempty (without id hub.subs))) [
  | inl b ↦ rw (b, h ∙ without_nonempty id hub.subs b) refl
  | inr b ↦ rw b (ground arith)
]

publish-Tuned :
    (pane : String) (st : AgentState) (hub : Hub) → Tuned hub → Tuned (publish pane st hub)
unfolding publish deliver
publish-Tuned pane st hub h =
    elim (Bool-cases (same_state (lookup pane hub.last) st)) as (λ _. Tuned (publish pane st hub)) [
      | inl b ↦ rw b h
      | inr b ↦ rw b (h ∙ delivered hub.subs)
    ]
  where
    delivered :
        (ss : List Sub)
        → is_nonempty ss ≡ is_nonempty (deliver (record { pane_id = pane; state = st }) ss)
    delivered [] = refl
    delivered (s ∷ ss) = refl

broadcast-Tuned : (panes : List PaneInfo) (hub : Hub) → Tuned hub → Tuned (broadcast panes hub)
unfolding broadcast
broadcast-Tuned [] hub h = h
broadcast-Tuned (p ∷ ps) hub h =
    broadcast-Tuned ps (publish p.pane_id (normalize_state p.agent_status) hub)
      (publish-Tuned p.pane_id (normalize_state p.agent_status) hub h)

received_nonempty : (id : ℕ) (ss : List Sub) → is_nonempty ss ≡ is_nonempty (receive_from id ss)
unfolding receive_from
received_nonempty id [] = refl
received_nonempty id (s ∷ ss) = refl

-- The poller runs exactly while someone is subscribed, whatever the order of the hub's steps.
pub Reachable-polling : {hub : Hub} → Reachable hub → hub.polling ≡ is_nonempty hub.subs
unfolding subscribe
Reachable-polling begins = refl
Reachable-polling (goes_on r subscribes) = refl
Reachable-polling (goes_on {h} r (unsubscribes id)) = unsubscribe-Tuned id h (Reachable-polling r)
Reachable-polling (goes_on {h} r (polled panes on)) = broadcast-Tuned panes h (Reachable-polling r)
Reachable-polling (goes_on {h} r (received id)) = Reachable-polling r ∙ received_nonempty id h.subs
