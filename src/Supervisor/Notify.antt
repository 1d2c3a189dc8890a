-- ===== src/Supervisor/Notify.antt =====
-- Readiness reports, exits and start timeouts (src/drain.c, src/reap.c, src/signals.c).
use ninit.Prelude.{
  ℕ, zero, suc, ◌+◌, Bool, true, false, not, ◌&&◌, ◌||◌, List, [], ◌∷◌, ◌==◌, ltb, if◌then◌else◌,
}
use ninit.Graph.{Graph, start_ms}
use ninit.Supervisor.Core.{is_running, is_done}
use ninit.Supervisor.Sys.{
  Status, notify_hup, timeout, Sys, bytes, interrupted, again, closed, World, asked, set_run,
}
use ninit.Supervisor.Drain.{sigkill, signal_group, maybe_free, drain_out}
use ninit.Supervisor.Start.{drain_final_chunks, service_failed}
use ninit.Supervisor.Release.{complete}
use ninit.Supervisor.Exit.{start_failed, exited_reaped, stale_reaped}

-- memchr(buf, '\n', k)
unfoldable pub has_newline : List ℕ → Bool
has_newline [] = false
has_newline (b ∷ bs) = b == 10 || has_newline bs

module _ (g : Graph) (w : World) where
  -- a report that counts: the service is started, and is up if the graph still wants it
  unfoldable pub report_ready : ℕ → Sys → Sys
  report_ready i s =
      let s1 = set_run i (record (s.runs i) { starting = false }) s in
      if is_running (s1.core.state i) || is_done (s1.core.state i) then complete g w i s1 else s1

  -- drain_notify, at bytes that were read
  unfoldable pub notify_bytes : ℕ → List ℕ → Sys → Sys
  notify_bytes i bs s =
      let r = s.runs i in
      if r.starting && not r.timedout && not r.hup && has_newline bs then report_ready i s else s

  -- drain_notify, where the other end is closed
  unfoldable pub notify_closed : ℕ → Sys → Sys
  notify_closed i s =
      let s1 = set_run i (record (s.runs i) { ntf_fd = false }) s in
      let r = s1.runs i in
      if not r.starting
      then maybe_free i s1
      else if not (r.pid == 0)
      then signal_group w i sigkill (set_run i (record r { hup = true }) s1)
      else start_failed g w i notify_hup s1

  unfoldable pub drain_notify : ℕ → ℕ → Sys → Sys
  drain_notify i zero s = s
  drain_notify i (suc chunks) s = elim (s.runs i).ntf_fd [
    | false ↦ s
    | true ↦ elim (w.read s.tick) [
      | bytes bs ↦ drain_notify i chunks (notify_bytes i bs (asked s))
      | interrupted ↦ drain_notify i chunks (asked s)
      | again ↦ asked s
      | closed ↦ notify_closed i (asked s)
    ]
  ]

  -- drain_exec, where the pipe was closed by the exec
  unfoldable pub exec_closed : ℕ → Sys → Sys
  exec_closed i s =
      let s1 = set_run i (record (s.runs i) { ntf_fd = false }) s in
      if not (s1.runs i).starting then s1 else report_ready i s1

  -- drain_exec: `tries` bounds the reads that a signal interrupts in a row
  unfoldable pub drain_exec : ℕ → ℕ → Sys → Sys
  drain_exec i zero s = s
  drain_exec i (suc tries) s = elim (s.runs i).ntf_fd [
    | false ↦ s
    | true ↦ elim (w.read s.tick) [
      | bytes bs ↦ set_run i (record (s.runs i) { ntf_fd = false }) (asked s)
      | interrupted ↦ drain_exec i tries (asked s)
      | again ↦ asked s
      | closed ↦ exec_closed i (asked s)
    ]
  ]

  -- child_exited
  unfoldable pub child_exited : ℕ → Status → Sys → Sys
  child_exited i status s =
      let s1 = drain_out w i drain_final_chunks false s in
      let r = s1.runs i in
      let s2 = if r.ntf_fd && not r.ntf_exec then drain_notify i drain_final_chunks s1 else s1 in
      exited_reaped g w i status (set_run i (record (s2.runs i) { pid = 0 }) s2)

  -- the body of reap(), for a pid that find_pid knows as that of i
  unfoldable pub reap_one : ℕ → ℕ → Status → Sys → Sys
  reap_one i pid status s =
      if not ((s.runs i).pid == pid)
      then stale_reaped g w i pid s
      else let s1 = child_exited i status s in
        let r = s1.runs i in
        if w.cg_ok && r.pid == 0 then set_run i (record r { pgid = 0 }) s1 else s1

  -- check_timeouts, for a start that is overdue and whose readiness was read
  unfoldable pub start_overdue : ℕ → Sys → Sys
  start_overdue i s =
      let r = s.runs i in
      if r.starting && not r.timedout
      then (let s1 = set_run i (record r { timedout = true }) s in
          if is_running (s1.core.state i)
          then service_failed g w i timeout s1
          else start_failed g w i timeout s1)
      else s

  -- the body of check_timeouts' loop; drain_exec is given a bound on interrupted reads
  unfoldable pub check_timeout : ℕ → ℕ → Sys → Sys
  check_timeout i now s =
      let r = s.runs i in
      if not r.starting || r.timedout || ltb now (r.started + start_ms g i)
      then s
      else let s1 =
          if r.ntf_fd
          then if r.ntf_exec
            then drain_exec i drain_final_chunks s
            else drain_notify i drain_final_chunks s
          else s in
        start_overdue i s1
