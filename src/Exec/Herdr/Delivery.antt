-- ===== src/Exec/Herdr/Delivery.antt =====
-- `deliverKickoff` and `Spawn` of internal/exec/herdr.go: no success without evidence.
use hounds_ciai.Prelude.{
  String, Bool, true, false, ◌≡◌, ◌≢◌, refl, sym, ap, subst, ◌==◌, nat_eq, ==_ne,
}
use hounds_ciai.Exec.{AgentState, Spawn}
use hounds_ciai.Exec.Herdr.Shell.{
  Herdr, Host, Failure, Answer, good, bad, Session, H, done_, give_up, choose, ◌>>◌,
}
use hounds_ciai.Exec.Herdr.{
  current_status, kickoff_accepted, try_delivery, deliver_kickoff, spawn, clear_stale, add_worktree,
  open_workspace, launch_in,
}
use hounds_ciai.Exec.Herdr.Readings.{or_else, worktree_dir}
use hounds_ciai.Exec.Herdr.Tracing.{bad-not, attempt-good, bind-good}
use hounds_ciai.Exec.Herdr.Kickoff.{Seen, kickoff_accepted-Seen}

good-inj :
    {W A : Type 0} (r : Answer A × Session W) (a b : A) (s s' : Session W)
    → r ≡ (good a, s)
    → r ≡ (good b, s')
    → a ≡ b
good-inj r a b s s' p q = cc

second-chosen :
    {W A : Type 0} (b : Bool) (m n : H W A) (s : Session W) (r : Answer A × Session W)
    → b ≡ false
    → choose b m n s ≡ r
    → n s ≡ r
unfolding choose
second-chosen true m n s r e q = cc
second-chosen false m n s r e q = q

module _ {W : Type 0} (host : Host W) (h : Herdr) (pane : String) where
  -- A delivery that was accepted, or else the rest of the loop, made the success.
  settles :
      (before : AgentState) (send next : H W (Unit {0})) (mid s s' : Session W) (r : Answer Bool)
      → try_delivery host h pane before send mid ≡ (good r, s)
      → or_else next r s ≡ (good tt, s')
      → ((t : Session W) → next t ≡ (good tt, s') → Seen host h pane before s')
      → Seen host h pane before s'
  unfolding try_delivery or_else done_ ◌>>◌
  settles before send next mid s s' (good true) e q k =
      let (_, t, _, seen) =
        bind-good send (λ _. kickoff_accepted host h pane before) mid s true
          (attempt-good _ mid s true e) in
      let same : s ≡ s' = ap (λ (p : Answer (Unit {0}) × Session W). p.1) q in
      subst (Seen host h pane before) same (kickoff_accepted-Seen host h pane before t s seen)
  settles before send next mid s s' (good false) e q k = k s q
  settles before send next mid s s' (bad f) e q k = k s q

  gives_up : (f : Failure) (s s' : Session W) → ¬ (give_up {A = Unit {0}} f s ≡ (good tt, s'))
  unfolding give_up
  gives_up f s s' = bad-not _ f s s' tt refl

  -- The session `after` has just polled the pane, and seen that the agent moved from the state that a
  -- poll in the session `start` sees.
  pub record Moved (start after : Session W) : Type 0 where
    pub before : AgentState
    pub next : Session W
    pub polled : current_status host h pane start ≡ (good before, next)
    pub seen : Seen host h pane before after

  -- With the check of deliveries on, a kickoff counts as delivered only when the last thing that the
  -- backend did was to poll the pane, and what it saw tells that the agent moved from the state it was
  -- in before the delivery.
  pub deliver_kickoff-Seen :
      (kickoff : String) (s s' : Session W)
      → h.kickoff_ack_timeout ≢ 0
      → deliver_kickoff host h pane kickoff s ≡ (good tt, s')
      → Moved s s'
  unfolding deliver_kickoff choose
  deliver_kickoff-Seen kickoff s s' on e =
      let (before, mid, polled, rest) = bind-good (current_status host h pane) _ s s' tt e in
      let loop =
        second-chosen (h.kickoff_ack_timeout == 0) _ _ mid _ (==_ne h.kickoff_ack_timeout 0 on)
          rest in
      let (r, s1, first, then_) = bind-good (try_delivery host h pane before _) _ mid s' tt loop in
      record {
        before = before;
        next = mid;
        polled = polled;
        seen = settles before _ _ mid s1 s' r first then_ (λ t q.
            let (r', s2, second, last) =
              bind-good (try_delivery host h pane before _) _ t s' tt q in
            settles before _ _ t s2 s' r' second last (λ u p. absurd (gives_up _ u s' p)));
      }

module _ {W : Type 0} (host : Host W) (h : Herdr) where
  -- With the check of deliveries on, a spawn that returns a pane returns the task's worktree with it.
  -- It launched the agent in that pane, and it ends right after a poll of the pane which sees that the
  -- agent works or is done, or is in a known state other than the one that the poll right after the
  -- launch saw, before anything was delivered.
  pub spawn-Seen :
      (p : Spawn) (pane dir : String) (s s' : Session W)
      → h.kickoff_ack_timeout ≢ 0
      → spawn host h p s ≡ (good (pane, dir), s')
      → (dir ≡ worktree_dir h p.repo_dir p.task_id)
        × (opened : Session W) × (launched : Session W) × (launch_in host h pane p.launch opened
            ≡ (good tt, launched))
        × Moved host h pane launched s'
  unfolding spawn ◌>>◌ done_
  spawn-Seen p pane dir s s' on e =
      let wt = worktree_dir h p.repo_dir p.task_id in
      let (opened, mid, _, rest) =
        bind-good
          (clear_stale host h p wt
            >> add_worktree host h p wt
            >> open_workspace host h wt p.task_id)
          _ s s' (pane, dir) e in
      let (_, t, both, last) =
        bind-good (launch_in host h opened p.launch >> deliver_kickoff host h opened p.kickoff) _
          mid s' (pane, dir) rest in
      let (_, u, launch, delivered) =
        bind-good (launch_in host h opened p.launch) _ mid t tt both in
      let ends : t ≡ s' = ap (λ (q : Answer (String × String) × Session W). q.1) last in
      let same : (opened, wt) ≡ (pane, dir) = good-inj _ (opened, wt) (pane, dir) t s' refl last in
      let this : opened ≡ pane = ap (λ (q : String × String). q.0) same in
      let moves = deliver_kickoff-Seen host h opened p.kickoff u t on delivered in
      (
        ap (λ (q : String × String). q.1) (sym same),
        mid,
        u,
        subst (λ o. launch_in host h o p.launch mid ≡ (good tt, u)) this launch,
        subst (λ o. Moved host h o u s') this (subst (Moved host h opened u) ends moves),
      )
