-- ===== src/Supervisor/Keeps/Notifies.antt =====
-- Readiness reports, exits and timeouts keep the invariant (src/drain.c, src/reap.c, src/signals.c).
use ninit.Prelude.{
  ℕ, zero, suc, ◌+◌, ◌<◌, true, false, not, ◌&&◌, ◌||◌, List, ◌==◌, ltb, inl, inr, Bool-cases,
  if_keeps,
}
use ninit.Graph.{Graph, IsWellFormed, start_ms}
use ninit.Supervisor.Core.{is_running, is_done}
use ninit.Supervisor.Sys.{Status, notify_hup, timeout, Sys, Read, World, asked, set_run}
use ninit.Supervisor.Drain.{sigkill, drain_out}
use ninit.Supervisor.Start.{drain_final_chunks}
use ninit.Supervisor.Notify.{
  has_newline, report_ready, notify_bytes, notify_closed, drain_notify, exec_closed, drain_exec,
  child_exited, reap_one, start_overdue, check_timeout,
}
use ninit.Supervisor.Keeps.Cores.{signal_group-core, maybe_free-core, drain_out-core}
use ninit.Supervisor.Keeps.Settled.{service_failed-IsSettled, complete-IsSettled}
use ninit.Supervisor.Keeps.Exits.{
  Quiet, keep, not_done, start_failed-Quiet, exited_reaped-Quiet, stale_reaped-Quiet,
}

module _ (g : Graph) (wf : IsWellFormed g) (w : World) (i : ℕ) (l : i < g.n_svc) where
  abbrev Calm : Sys → Type 0
  Calm = Quiet g wf w i l

  report_ready-Quiet : (s : Sys) → Calm s → Calm (report_ready g w i s)
  unfolding report_ready
  report_ready-Quiet s h =
      if_keeps Calm (is_running (s.core.state i) || is_done (s.core.state i)) _ _
        (λ _. complete-IsSettled g wf w i l _ h) (λ _. h)

  notify_bytes-Quiet : (bs : List ℕ) (s : Sys) → Calm s → Calm (notify_bytes g w i bs s)
  unfolding notify_bytes
  notify_bytes-Quiet bs s h =
      let r = s.runs i in
      if_keeps Calm (r.starting && not r.timedout && not r.hup && has_newline bs) _ _
        (λ _. report_ready-Quiet s h) (λ _. h)

  notify_closed-Quiet : (s : Sys) → Calm s → Calm (notify_closed g w i s)
  unfolding notify_closed
  notify_closed-Quiet s h =
      let s1 : Sys = set_run i (record (s.runs i) { ntf_fd = false }) s in
      if_keeps Calm (not (s1.runs i).starting) _ _ (λ _. keep g wf w i l (maybe_free-core i s1) h)
        (λ _.
          if_keeps Calm (not ((s1.runs i).pid == 0)) _ _
            (λ _. keep g wf w i l (signal_group-core w i sigkill _) h)
            (λ _. start_failed-Quiet g wf w i l notify_hup s1 h))

  -- drain_notify keeps the invariant, whatever it reads.
  pub drain_notify-Quiet : (chunks : ℕ) (s : Sys) → Calm s → Calm (drain_notify g w i chunks s)
  unfolding drain_notify
  drain_notify-Quiet zero s h = h
  drain_notify-Quiet (suc chunks) s h = elim (Bool-cases (s.runs i).ntf_fd) [
    | inl e ↦ rw (e, drain_notify) (at (drain_notify-Quiet chunks) (w.read s.tick))
    | inr e ↦ rw (e, drain_notify) h
  ]
    where
      at :
          ((t : Sys) → Calm t → Calm (drain_notify g w i chunks t))
          → (r : Read)
          → Calm (elim r [
            | Read.bytes bs ↦ drain_notify g w i chunks (notify_bytes g w i bs (asked s))
            | Read.interrupted ↦ drain_notify g w i chunks (asked s)
            | Read.again ↦ asked s
            | Read.closed ↦ notify_closed g w i (asked s)
          ])
      at ih (Read.bytes bs) = ih _ (notify_bytes-Quiet bs (asked s) h)
      at ih Read.interrupted = ih _ h
      at ih Read.again = h
      at ih Read.closed = notify_closed-Quiet (asked s) h

  exec_closed-Quiet : (s : Sys) → Calm s → Calm (exec_closed g w i s)
  unfolding exec_closed
  exec_closed-Quiet s h =
      let s1 : Sys = set_run i (record (s.runs i) { ntf_fd = false }) s in
      if_keeps Calm (not (s1.runs i).starting) _ _ (λ _. h) (λ _. report_ready-Quiet s1 h)

  -- drain_exec keeps the invariant, whatever it reads.
  pub drain_exec-Quiet : (tries : ℕ) (s : Sys) → Calm s → Calm (drain_exec g w i tries s)
  unfolding drain_exec
  drain_exec-Quiet zero s h = h
  drain_exec-Quiet (suc tries) s h = elim (Bool-cases (s.runs i).ntf_fd) [
    | inl e ↦ rw (e, drain_exec) (at (drain_exec-Quiet tries) (w.read s.tick))
    | inr e ↦ rw (e, drain_exec) h
  ]
    where
      at :
          ((t : Sys) → Calm t → Calm (drain_exec g w i tries t))
          → (r : Read)
          → Calm (elim r [
            | Read.bytes bs ↦ set_run i (record (s.runs i) { ntf_fd = false }) (asked s)
            | Read.interrupted ↦ drain_exec g w i tries (asked s)
            | Read.again ↦ asked s
            | Read.closed ↦ exec_closed g w i (asked s)
          ])
      at ih (Read.bytes bs) = h
      at ih Read.interrupted = ih _ h
      at ih Read.again = h
      at ih Read.closed = exec_closed-Quiet (asked s) h

  -- An exit keeps the invariant, in every state of the service.
  child_exited-Quiet : (status : Status) (s : Sys) → Calm s → Calm (child_exited g w i status s)
  unfolding child_exited
  child_exited-Quiet status s h =
      let s1 = drain_out w i drain_final_chunks false s in
      let read : Calm s1 = keep g wf w i l (drain_out-core w i drain_final_chunks false s) h in
      let r = s1.runs i in
      exited_reaped-Quiet g wf w i l status _ (
        if_keeps Calm (r.ntf_fd && not r.ntf_exec) _ _
          (λ _. drain_notify-Quiet drain_final_chunks s1 read) (λ _. read))

  -- So does a pid that is reaped.
  pub reap_one-Quiet :
      (pid : ℕ) (status : Status) (s : Sys) → Calm s → Calm (reap_one g w i pid status s)
  unfolding reap_one
  reap_one-Quiet pid status s h =
      let s1 = child_exited g w i status s in
      let quiet : Calm s1 = child_exited-Quiet status s h in
      if_keeps Calm (not ((s.runs i).pid == pid)) _ _ (λ _. stale_reaped-Quiet g wf w i l pid s h)
        (λ _. if_keeps Calm (w.cg_ok && (s1.runs i).pid == 0) _ _ (λ _. quiet) (λ _. quiet))

  start_overdue-Quiet : (s : Sys) → Calm s → Calm (start_overdue g w i s)
  unfolding start_overdue
  start_overdue-Quiet s h =
      let r = s.runs i in
      let s1 : Sys = set_run i (record r { timedout = true }) s in
      if_keeps Calm (r.starting && not r.timedout) _ _
        (λ _.
          if_keeps Calm (is_running (s1.core.state i)) _ _
            (λ e. service_failed-IsSettled g wf w i l timeout s1 (not_done _ e) h)
            (λ _. start_failed-Quiet g wf w i l timeout s1 h))
        (λ _. h)

  -- So does a look at a start that may be overdue.
  pub check_timeout-Quiet : (now : ℕ) (s : Sys) → Calm s → Calm (check_timeout g w i now s)
  unfolding check_timeout
  check_timeout-Quiet now s h =
      let r = s.runs i in
      if_keeps Calm (not r.starting || r.timedout || ltb now (r.started + start_ms g i)) _ _
        (λ _. h)
        (λ _. start_overdue-Quiet _ (
          if_keeps Calm r.ntf_fd _ _
            (λ _.
              if_keeps Calm r.ntf_exec _ _ (λ _. drain_exec-Quiet drain_final_chunks s h)
                (λ _. drain_notify-Quiet drain_final_chunks s h))
            (λ _. h)))
