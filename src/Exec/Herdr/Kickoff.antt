-- ===== src/Exec/Herdr/Kickoff.antt =====
-- The delivery of a kickoff in internal/exec/herdr.go: when it counts as accepted, and that its polls
-- end.
use hounds_ciai.Prelude.{
  ℕ, zero, suc, ◌+◌, ◌≤◌, ◌<◌, String, Bool, true, false, ◌≡◌, ◌≢◌, ◌⊎◌, inl, inr, refl, sym, ◌∙◌,
  ap, not, ◌&&◌, ◌==◌, ==_false, List, ◌∷◌, nat_eq, string_eq, ltb, Bool-cases, Option-cases,
  ltb→lt, arith,
}
use hounds_ciai.Exec.{AgentState, working, blocked, done, idle, unknown, agent_state_text}
use hounds_ciai.Exec.Herdr.Shell.{
  Command, pause, Herdr, Host, out_of_polls, Answer, good, bad, Session, H, done_, give_up, attempt,
  choose, issue, wait_for, read_clock, proceed, ◌>>=◌, argv, pane_list, decoded,
}
use hounds_ciai.Exec.Herdr.{current_status, list_panes, poll_accepted, kickoff_accepted}
use hounds_ciai.Exec.Herdr.Readings.{moved}

-- Time passes: no process turns the clock back, and a pause that the context does not end takes its
-- time.
pub record Ticks {W : Type 0} (host : Host W) : Type 0 where
  pub running :
      (c : Command) (args : List String) (w : W) → host.clock w ≤ host.clock (host.run c args w).1
  pub pausing :
      (d : ℕ) (w : W)
      → (host.pauses d w).0 ≡ true
      → host.clock w + d ≤ host.clock (host.pauses d w).1

-- The agent works or is done, or is in a known state that is not the one before.
abbrev pub Evidence : AgentState → AgentState → Type 0
Evidence before st = (st ≡ working) ⊎ ((st ≡ done) ⊎ ((st ≢ before) × (st ≢ unknown)))

text_differs : (a b : AgentState) → (agent_state_text a == agent_state_text b) ≡ false → a ≢ b
text_differs a b h e = ==_false (agent_state_text a) (agent_state_text b) h (ap agent_state_text e)

known_change :
    (before st : AgentState)
    → (not (agent_state_text st == agent_state_text before)
        && not (agent_state_text st == agent_state_text unknown))
      ≡ true
    → Evidence before st
known_change before st h =
    inr (
      inr (text_differs st before (ground (arith, h)), text_differs st unknown (ground (arith, h))))

moved-Evidence : (before st : AgentState) → moved before st ≡ true → Evidence before st
unfolding moved
moved-Evidence before working h = inl refl
moved-Evidence before done h = inr (inl refl)
moved-Evidence before blocked h = known_change before blocked h
moved-Evidence before idle h = known_change before idle h
moved-Evidence before unknown h = known_change before unknown h

module _ {W : Type 0} (host : Host W) (h : Herdr) (pane : String) where
  -- The session has just polled the pane, and seen a state that tells of a change.
  pub record Seen (before : AgentState) (after : Session W) : Type 0 where
    pub at_ : Session W
    pub state : AgentState
    pub polled : current_status host h pane at_ ≡ (good state, after)
    pub change : Evidence before state

  -- The session after a poll.
  after_poll : Session W → Session W
  after_poll s = record {
    world = (host.run pane_list (argv h pane_list) s.world).1;
    trace = pane_list ∷ s.trace;
  }

  -- A poll always tells a state, be it the unknown one.
  current_status-good :
      (s : Session W) → (st : AgentState) × (current_status host h pane s ≡ (good st, after_poll s))
  unfolding current_status list_panes issue attempt after_poll decoded done_ give_up ◌>>=◌ proceed
  current_status-good s = elim (Option-cases (host.run pane_list (argv h pane_list) s.world).0) [
    | inl e ↦ rw e (_, refl)
    | inr (out, e) ↦ rw e (elim (Option-cases (host.panes_of out)) [
      | inl q ↦ rw q (_, refl)
      | inr (ps, q) ↦ rw q (_, refl)
    ])
  ]

  -- What follows a poll that shows no change.
  module _ (before : AgentState) (deadline : ℕ) where
    go_on : ℕ → H W Bool
    go_on polls = read_clock host >>= λ t.
        choose (ltb t deadline)
          (wait_for host h.kickoff_ack_poll >>= λ on.
            choose on (poll_accepted host h polls pane before deadline) (done_ false))
          (done_ false)

    poll_accepted-suc :
        (polls : ℕ) (s : Session W) (st : AgentState)
        → current_status host h pane s ≡ (good st, after_poll s)
        → poll_accepted host h (suc polls) pane before deadline s
          ≡ choose (moved before st) (done_ true) (go_on polls) (after_poll s)
    unfolding poll_accepted go_on ◌>>=◌
    poll_accepted-suc polls s st e = ap (proceed _) e

    differs :
        (r : Answer Bool × Session W) (s : Session W) (b : Answer Bool)
        → r.0 ≡ b
        → b ≢ good true
        → ¬ (r ≡ (good true, s))
    differs r s b e ne q = ne (sym e ∙ ap (λ (p : Answer Bool × Session W). p.0) q)

    no_polls :
        (s s' : Session W) → ¬ (poll_accepted host h zero pane before deadline s ≡ (good true, s'))
    unfolding poll_accepted give_up
    no_polls s s' = differs _ s' (bad out_of_polls) refl (λ e. cc)

    not_yet :
        (r : Answer Bool × Session W) (s s' : Session W)
        → r ≡ (good false, s)
        → ¬ (r ≡ (good true, s'))
    not_yet r s s' e =
        differs r s' (good false) (ap (λ (p : Answer Bool × Session W). p.0) e) (λ q. cc)

    after_pause : Session W → Session W
    after_pause s = record {
      world = (host.pauses h.kickoff_ack_poll s.world).1;
      trace = pause h.kickoff_ack_poll ∷ s.trace;
    }

    -- The three ways on from a poll without a change.
    go_on-cases :
        (polls : ℕ) (s : Session W)
        → (go_on polls s ≡ (good false, s))
          ⊎ ((host.clock s.world < deadline)
              × ((go_on polls s ≡ (good false, after_pause s))
                  ⊎ (((host.pauses h.kickoff_ack_poll s.world).0 ≡ true)
                      × (go_on polls s
                          ≡ poll_accepted host h polls pane before deadline (after_pause s)))))
    unfolding go_on read_clock wait_for choose done_ ◌>>=◌ proceed after_pause
    go_on-cases polls s = elim (Bool-cases (ltb (host.clock s.world) deadline)) [
      | inr e ↦ rw e (inl refl)
      | inl e ↦ rw e (
          inr (
            ltb→lt _ _ e,
            elim (Bool-cases (host.pauses h.kickoff_ack_poll s.world).0) [
              | inl on ↦ rw on (inr (refl, refl))
              | inr off ↦ rw off (inl refl)
            ],
          ))
    ]

    poll_accepted-Seen :
        (polls : ℕ) (s s' : Session W)
        → poll_accepted host h polls pane before deadline s ≡ (good true, s')
        → Seen before s'
    unfolding choose done_
    poll_accepted-Seen zero s s' h' = absurd (no_polls s s' h')
    poll_accepted-Seen (suc polls) s s' h' =
        let (st, e) = current_status-good s in
        let step = sym (poll_accepted-suc polls s st e) ∙ h' in
        elim (Bool-cases (moved before st)) [
          | inl m ↦
              let at_end : after_poll s ≡ s' = cc (rw m at step) in
              record {
                at_ = s;
                state = st;
                polled = rw (sym at_end) e;
                change = moved-Evidence before st m;
              }
          | inr m ↦
              let on : go_on polls (after_poll s) ≡ (good true, s') = rw m at step in
              elim (go_on-cases polls (after_poll s)) [
                | inl q ↦ absurd (not_yet _ _ s' q on)
                | inr (_, inl q) ↦ absurd (not_yet _ _ s' q on)
                | inr (_, inr (_, q)) ↦
                    poll_accepted-Seen polls (after_pause (after_poll s)) s' (sym q ∙ on)
              ]
        ]

    too_late :
        (s : Session W)
        → host.clock s.world ≤ host.clock (after_poll s).world
        → host.clock (after_poll s).world < deadline
        → ¬ (deadline < suc zero + host.clock s.world)
    too_late s later early late = omega arith

    less :
        (s : Session W) (polls : ℕ)
        → 0 < h.kickoff_ack_poll
        → host.clock s.world ≤ host.clock (after_poll s).world
        → host.clock (after_poll s).world < deadline
        → deadline < suc (suc polls) + host.clock s.world
        → host.clock (after_poll s).world + h.kickoff_ack_poll
          ≤ host.clock (after_pause (after_poll s)).world
        → deadline < suc polls + host.clock (after_pause (after_poll s)).world
    less s polls positive later early late paused = omega arith

    -- A method that returns a truth value, and no failure.
    abbrev Tells : Answer Bool × Session W → Type 0
    Tells r = (b : Bool) × (s' : Session W) × (r ≡ (good b, s'))

    poll_accepted-Tells :
        Ticks host
        → 0 < h.kickoff_ack_poll
        → (polls : ℕ) (s : Session W) → deadline < suc polls + host.clock s.world
        → Tells (poll_accepted host h (suc polls) pane before deadline s)
    unfolding choose done_ after_poll after_pause
    poll_accepted-Tells ticks positive zero s late =
        let (st, e) = current_status-good s in
        let later = ticks.running pane_list (argv h pane_list) s.world in
        rw (poll_accepted-suc zero s st e) (elim (Bool-cases (moved before st)) [
          | inl m ↦ rw m (true, after_poll s, refl)
          | inr m ↦ rw m (elim (go_on-cases zero (after_poll s)) [
            | inl q ↦ (false, after_poll s, q)
            | inr (early, r) ↦ absurd (too_late s later early late)
          ])
        ])
    poll_accepted-Tells ticks positive (suc polls) s late =
        let (st, e) = current_status-good s in
        let later = ticks.running pane_list (argv h pane_list) s.world in
        rw (poll_accepted-suc (suc polls) s st e) (elim (Bool-cases (moved before st)) [
          | inl m ↦ rw m (true, after_poll s, refl)
          | inr m ↦ rw m (elim (go_on-cases (suc polls) (after_poll s)) [
            | inl q ↦ (false, after_poll s, q)
            | inr (early, inl q) ↦ (false, after_pause (after_poll s), q)
            | inr (early, inr (full, q)) ↦
                let paused = ticks.pausing h.kickoff_ack_poll (after_poll s).world full in
                rw q (
                  poll_accepted-Tells ticks positive polls (after_pause (after_poll s))
                    (less s polls positive later early late paused))
          ])
        ])

  -- Where no process turns the clock back, each pause that the context does not end takes its time, and
  -- the pause between polls is not zero, the wait for an accepted kickoff ends within its polls and returns a truth value, whatever
  -- the pane shows.
  pub kickoff_accepted-Tells :
      Ticks host
      → 0 < h.kickoff_ack_poll
      → (before : AgentState) (s : Session W)
      → (b : Bool) × (s' : Session W) × (kickoff_accepted host h pane before s ≡ (good b, s'))
  unfolding kickoff_accepted read_clock ◌>>=◌ proceed
  kickoff_accepted-Tells ticks positive before s =
      poll_accepted-Tells before (host.clock s.world + h.kickoff_ack_timeout) ticks positive
        h.kickoff_ack_timeout s (omega arith)

  pub kickoff_accepted-Seen :
      (before : AgentState) (s s' : Session W)
      → kickoff_accepted host h pane before s ≡ (good true, s')
      → Seen before s'
  unfolding kickoff_accepted read_clock ◌>>=◌ proceed
  kickoff_accepted-Seen before s s' =
      poll_accepted-Seen before (host.clock s.world + h.kickoff_ack_timeout)
        (suc h.kickoff_ack_timeout) s s'
