-- ===== src/Supervisor/Keeps/Exits.antt =====
-- The handlers of exits and restarts keep the invariant (src/reap.c).
use ninit.Prelude.{
  ℕ, ◌<◌, ◌≡◌, refl, sym, subst, ◌∙◌, Bool, true, false, not, ◌&&◌, ◌||◌, Option, none, some, ◌==◌,
  ltb, arith, if_keeps, if◌then◌else◌,
}
use ninit.Graph.{Graph, IsWellFormed, start_tries}
use ninit.Supervisor.Core.{Core, St, is_running, is_done}
use ninit.Supervisor.Invariant.Defs.{IsSettled}
use ninit.Supervisor.Sys.{is_no_op, Status, timeout, Sys, World, set_run}
use ninit.Supervisor.Drain.{kill_group, close_fds, drain_out}
use ninit.Supervisor.Start.{exit_noexec, fail_service, launch, svc_can_start, Why}
use ninit.Supervisor.Exit.{
  take_down, is_oneshot, is_success, hup_status, restart_schedule, give_up, restart_failed,
  start_failed, restart_refused, restart_launch, fire_restart, exited_wanted, exited_done,
  exited_running, exited_settled, exited_reaped, stale_reaped,
}
use ninit.Supervisor.Keeps.Cores.{
  SameCore, kill_group-core, svc_abandon-core, close_fds-core, maybe_free-core, drain_out-core,
  launch-core,
}
use ninit.Supervisor.Keeps.Settled.{
  poison_deps-IsSettled, fail_apply-IsSettled, service_failed-IsSettled, complete-IsSettled,
  mark_pending-IsSettled, go_down-IsSettled,
}

restart_schedule-core :
    (g : Graph) (w : World) (i : ℕ) (was_up : Bool) (s : Sys)
    → SameCore s (restart_schedule g w i was_up s)
unfolding restart_schedule
restart_schedule-core g w i was_up s =
    svc_abandon-core i _
    ∙ close_fds-core i _
    ∙ drain_out-core w i 64 false _
    ∙ kill_group-core w i _

stale_reaped-core :
    (g : Graph) (w : World) (i pid : ℕ) (s : Sys) → SameCore s (stale_reaped g w i pid s)
unfolding stale_reaped
stale_reaped-core g w i pid s =
    let s1 : Sys =
      if (s.runs i).stale_pid == pid
      then set_run i (record (s.runs i) { stale_pid = 0 }) s
      else s in
    let first : SameCore s s1 =
      if_keeps (SameCore s) ((s.runs i).stale_pid == pid) _ _ (λ _. refl) (λ _. refl) in
    maybe_free-core i _
    ∙ if_keeps (SameCore s) (not ((s1.runs i).restart_at == 0) && (s1.runs i).stale_hold) _ _
        (λ _. first) (λ _. first)

pub not_done : (x : St) → is_running x ≡ true → is_done x ≡ false
not_done x e = ground arith

module _ (g : Graph) (wf : IsWellFormed g) (w : World) (i : ℕ) (l : i < g.n_svc) where
  -- the invariant between two handlers
  abbrev pub Quiet : Sys → Type 0
  Quiet s = IsSettled g s.core

  pub take_down-Quiet : (s : Sys) → Quiet s → Quiet (take_down g i s)
  unfolding take_down
  take_down-Quiet s h = go_down-IsSettled g wf w i l s.core h

  pub keep : {c c' : Core} → c' ≡ c → IsSettled g c → IsSettled g c'
  keep e h = subst (IsSettled g) (sym e) h

  restart_failed-Quiet : (s : Sys) → Quiet s → Quiet (restart_failed g w i s)
  unfolding restart_failed
  restart_failed-Quiet s h =
      let s1 : Sys = if s.core.shutting_down then s else take_down g i s in
      let down : Quiet s1 =
        if_keeps Quiet s.core.shutting_down _ _ (λ _. h) (λ _. take_down-Quiet s h) in
      let s2 = close_fds i s1 in
      let closed : Quiet s2 = keep (close_fds-core i s1) down in
      if_keeps Quiet (not s.core.shutting_down && (g.svcs i).restart) _ _
        (λ _. keep (restart_schedule-core g w i false s1) down)
        (λ _. keep (maybe_free-core i _) (
          if_keeps Quiet s.core.shutting_down _ _ (λ _. closed)
            (λ _. poison_deps-IsSettled g wf w i l s2 closed)))

  -- A failed start keeps the invariant, in every state of its service.
  pub start_failed-Quiet :
      (status : Status) (s : Sys) → Quiet s → Quiet (start_failed g w i status s)
  unfolding start_failed
  start_failed-Quiet status s h =
      if_keeps Quiet (is_running (s.core.state i)) _ _
        (λ e. service_failed-IsSettled g wf w i l status _ (not_done _ e) h)
        (λ _. restart_failed-Quiet _ h)

  give_up-Quiet : (s : Sys) → is_running (s.core.state i) ≡ true → Quiet s → Quiet (give_up g w i s)
  unfolding give_up
  give_up-Quiet s e h =
      fail_apply-IsSettled g wf w i l (fail_service g i (start_tries g i) (start_tries g i)) s
        (not_done _ e) h

  restart_refused-Quiet : (now : ℕ) (s : Sys) → Quiet s → Quiet (restart_refused g w i now s)
  unfolding restart_refused
  restart_refused-Quiet now s h =
      let r = s.runs i in
      if_keeps Quiet (not (r.stale_pid == 0) && is_running (s.core.state i)) _ _
        (λ e. give_up-Quiet s (ground arith) h)
        (λ _.
          if_keeps Quiet (not (r.stale_pid == 0) || not (r.pid == 0) || is_running (s.core.state i))
            _ _ (λ _. h) (λ _. h))

  restart_launch-Quiet : (now : ℕ) (s : Sys) → Quiet s → Quiet (restart_launch g w i now s)
  unfolding restart_launch
  restart_launch-Quiet now s h =
      let s0 : Sys = set_run i (record (s.runs i) { started = now }) s in
      let s' = (launch g w i s0).0 in
      let launched : Quiet s' = keep (launch-core g w i s0) h in
      if_keeps Quiet (launch g w i s0).1 _ _ (λ _. launched)
        (λ _.
          if_keeps Quiet (is_running (s'.core.state i)) _ _
            (λ e. service_failed-IsSettled g wf w i l exit_noexec s' (not_done _ e) launched)
            (λ _. keep (restart_schedule-core g w i false s') launched))

  pub fire_restart-Quiet : (now : ℕ) (s : Sys) → Quiet s → Quiet (fire_restart g w i now s)
  unfolding fire_restart
  fire_restart-Quiet now s h =
      let r = s.runs i in
      let s1 : Sys = set_run i (record r { restart_at = 0 }) s in
      if_keeps Quiet (r.restart_at == 0 || ltb now r.restart_at) _ _ (λ _. h)
        (λ _. if_keeps Quiet (s.core.want i) _ _ (λ _. h) (λ _. allowed s1 h (svc_can_start i s1)))
    where
      allowed :
          (s1 : Sys)
          → Quiet s1
          → (o : Option Why)
          → Quiet (elim o [
            | some _ ↦ restart_refused g w i now s1
            | none ↦ restart_launch g w i now s1
          ])
      allowed s1 k none = restart_launch-Quiet now s1 k
      allowed s1 k (some _) = restart_refused-Quiet now s1 k

  exited_wanted-Quiet : (s : Sys) → Quiet s → Quiet (exited_wanted g w i s)
  unfolding exited_wanted
  exited_wanted-Quiet s h =
      let s2 =
        take_down g i (set_run i (record (s.runs i) { starting = false; restart_at = 0 }) s) in
      let down : Quiet s2 = take_down-Quiet _ h in
      let killed = not w.cg_ok || is_no_op (s2.runs i).op in
      let s3 : Sys = if killed then kill_group w i s2 else s2 in
      let s4 = close_fds i (drain_out w i 64 false s3) in
      let same : SameCore s2 s4 =
        close_fds-core i _
        ∙ drain_out-core w i 64 false s3
        ∙ if_keeps (SameCore s2) killed _ _ (λ _. kill_group-core w i s2) (λ _. refl) in
      let quiet : Quiet s4 = keep same down in
      keep (maybe_free-core i _) (
        if_keeps Quiet (is_running (s4.core.state i)) _ _
          (λ _. mark_pending-IsSettled g wf w i l s4.core quiet) (λ _. quiet))

  exited_done-Quiet : (was_up : Bool) (s : Sys) → Quiet s → Quiet (exited_done g w i was_up s)
  unfolding exited_done
  exited_done-Quiet was_up s h =
      let s1 = take_down g i s in
      let down : Quiet s1 = take_down-Quiet s h in
      let s2 = close_fds i (drain_out w i 64 false (kill_group w i s1)) in
      let same : SameCore s1 s2 =
        close_fds-core i _ ∙ drain_out-core w i 64 false _ ∙ kill_group-core w i s1 in
      if_keeps Quiet (g.svcs i).restart _ _ (λ _. keep (restart_schedule-core g w i was_up s1) down)
        (λ _. keep (maybe_free-core i _) (poison_deps-IsSettled g wf w i l s2 (keep same down)))

  exited_running-Quiet :
      (status : Status) (s : Sys)
      → is_running (s.core.state i) ≡ true
      → Quiet s
      → Quiet (exited_running g w i status s)
  unfolding exited_running
  exited_running-Quiet status s e h =
      let r = s.runs i in
      let fails = λ (st : Status). service_failed-IsSettled g wf w i l st s (not_done _ e) h in
      if_keeps Quiet s.core.shutting_down _ _
        (λ _. keep (maybe_free-core i _ ∙ close_fds-core i s) h)
        (λ _.
          if_keeps Quiet r.timedout _ _ (λ _. fails timeout)
            (λ _.
              if_keeps Quiet r.hup _ _ (λ _. fails (hup_status status))
                (λ _.
                  if_keeps Quiet (is_oneshot (g.svcs i).kind && is_success status) _ _
                    (λ _. keep (maybe_free-core i _) (complete-IsSettled g wf w i l s h))
                    (λ _. fails status))))

  exited_settled-Quiet : (s : Sys) → Quiet s → Quiet (exited_settled g w i s)
  unfolding exited_settled
  exited_settled-Quiet s h =
      if_keeps Quiet (is_done (s.core.state i) && not s.core.shutting_down) _ _
        (λ _. exited_done-Quiet _ _ h) (λ _. keep (maybe_free-core i _) h)

  pub exited_reaped-Quiet :
      (status : Status) (s : Sys) → Quiet s → Quiet (exited_reaped g w i status s)
  unfolding exited_reaped
  exited_reaped-Quiet status s h =
      if_keeps Quiet (s.core.want i && not s.core.shutting_down) _ _ (λ _. exited_wanted-Quiet s h)
        (λ _.
          if_keeps Quiet (is_running (s.core.state i)) _ _ (λ e. exited_running-Quiet status s e h)
            (λ _. exited_settled-Quiet s h))

  pub stale_reaped-Quiet : (pid : ℕ) (s : Sys) → Quiet s → Quiet (stale_reaped g w i pid s)
  stale_reaped-Quiet pid s h = keep (stale_reaped-core g w i pid s) h
