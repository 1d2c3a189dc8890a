-- ===== src/Supervisor/Exit.antt =====
-- What follows when a process exits, and the restarts that come due (src/reap.c).
use ninit.Prelude.{
  ℕ, zero, suc, ◌+◌, Bool, true, false, not, ◌&&◌, ◌||◌, none, some, ◌==◌, ltb, leb, if◌then◌else◌,
}
use ninit.Graph.{Graph, Kind, start_tries}
use ninit.Supervisor.Core.{is_running, is_done, go_down, mark_pending}
use ninit.Supervisor.Sys.{
  is_no_op, Status, exited, signaled, notify_hup, timeout, Sys, World, set_run,
}
use ninit.Supervisor.Drain.{sigkill, kill_group, svc_abandon, close_fds, maybe_free, drain_out}
use ninit.Supervisor.Start.{
  kill_grace_ms, drain_final_chunks, exit_noexec, poison_deps, fail_service, fail_apply,
  retry_delay_ms, service_failed, launch, svc_can_start,
}
use ninit.Supervisor.Release.{complete}

-- restart_delay_ms[b < last ? b : last]
unfoldable pub restart_delay_ms : ℕ → ℕ
restart_delay_ms zero = 100
restart_delay_ms (suc zero) = 250
restart_delay_ms (suc (suc zero)) = 500
restart_delay_ms (suc (suc (suc zero))) = 1000
restart_delay_ms (suc (suc (suc (suc zero)))) = 2000
restart_delay_ms _ = 5000

-- go_down() on the shared state
unfoldable pub take_down : Graph → ℕ → Sys → Sys
take_down g i s = record s { core = go_down g i s.core }

abbrev pub is_oneshot : Kind → Bool
is_oneshot Kind.oneshot = true
is_oneshot _ = false

-- WIFEXITED(status) && WEXITSTATUS(status) == 0
abbrev pub is_success : Status → Bool
is_success (exited code) = code == 0
is_success _ = false

-- only the SIGKILL that drain_notify() sent says less than the hup itself
unfoldable pub hup_status : Status → Status
hup_status (signaled sig) = if sig == sigkill then notify_hup else signaled sig
hup_status status = status

module _ (g : Graph) (w : World) where
  -- restart_schedule: the burst that it counts from
  unfoldable pub restart_burst : ℕ → Bool → Sys → ℕ
  restart_burst i was_up s =
      let r = s.runs i in if was_up && leb (r.started + 10000) (w.now s.tick) then 0 else r.burst

  unfoldable pub restart_schedule : ℕ → Bool → Sys → Sys
  unfolding restart_burst
  restart_schedule i was_up s =
      let b = restart_burst i was_up s in
      let s1 = set_run i (record (s.runs i) { burst = if ltb b 5 then b + 1 else b }) s in
      let s2 =
        svc_abandon i (close_fds i (drain_out w i drain_final_chunks false (kill_group w i s1))) in
      set_run i
        (record (s2.runs i) { restart_at = w.now s2.tick + restart_delay_ms b; stale_hold = false })
        s2

  unfoldable pub give_up : ℕ → Sys → Sys
  give_up i s = let tries = start_tries g i in fail_apply g i (fail_service g i tries tries) s

  -- start_failed of a service that is not RUNNING
  unfoldable pub restart_failed : ℕ → Sys → Sys
  restart_failed i s =
      let down = s.core.shutting_down in
      let s1 = if down then s else take_down g i s in
      if not down && (g.svcs i).restart
      then restart_schedule i false s1
      else let s2 = close_fds i s1 in
        let s3 = if down then s2 else poison_deps g i s2 in maybe_free i s3

  unfoldable pub start_failed : ℕ → Status → Sys → Sys
  start_failed i status s =
      let s1 = set_run i (record (s.runs i) { starting = false }) s in
      if is_running (s1.core.state i) then service_failed g w i status s1 else restart_failed i s1

  -- fire_restart where svc_can_start refuses
  unfoldable pub restart_refused : ℕ → ℕ → Sys → Sys
  restart_refused i now s =
      let r = s.runs i in
      let run = is_running (s.core.state i) in
      if not (r.stale_pid == 0) && run
      then give_up i s
      else if not (r.stale_pid == 0) || not (r.pid == 0) || run
      then set_run i
          (record r { restart_at = now + kill_grace_ms; stale_hold = not (r.stale_pid == 0) }) s
      else s

  -- fire_restart where it does not: launch, and what a failure of it means
  unfoldable pub restart_launch : ℕ → ℕ → Sys → Sys
  restart_launch i now s =
      let (s', ok) = launch g w i (set_run i (record (s.runs i) { started = now }) s) in
      if ok
      then s'
      else if is_running (s'.core.state i)
      then service_failed g w i exit_noexec s'
      else restart_schedule i false s'

  unfoldable pub fire_restart : ℕ → ℕ → Sys → Sys
  fire_restart i now s =
      let r = s.runs i in
      if r.restart_at == 0 || ltb now r.restart_at
      then s
      else let s1 = set_run i (record r { restart_at = 0 }) s in
        if s1.core.want i then s1 else elim (svc_can_start i s1) [
          | some _ ↦ restart_refused i now s1
          | none ↦ restart_launch i now s1
        ]

  -- child_exited: a service that is held stopped
  unfoldable pub exited_wanted : ℕ → Sys → Sys
  exited_wanted i s =
      let s1 = set_run i (record (s.runs i) { starting = false; restart_at = 0 }) s in
      let s2 = take_down g i s1 in
      let s3 = if not w.cg_ok || is_no_op (s2.runs i).op then kill_group w i s2 else s2 in
      let s4 = close_fds i (drain_out w i drain_final_chunks false s3) in
      let s5 =
        if is_running (s4.core.state i) then record s4 { core = mark_pending i s4.core } else s4 in
      maybe_free i s5

  -- child_exited: a service that was DONE goes down, and comes back or takes its dependents along
  unfoldable pub exited_done : ℕ → Bool → Sys → Sys
  exited_done i was_up s =
      let s1 = take_down g i s in
      if (g.svcs i).restart
      then restart_schedule i was_up s1
      else let s2 = close_fds i (drain_out w i drain_final_chunks false (kill_group w i s1)) in
        maybe_free i (poison_deps g i s2)

  -- child_exited: a start that has not completed
  unfoldable pub exited_running : ℕ → Status → Sys → Sys
  exited_running i status s =
      let r = s.runs i in
      if s.core.shutting_down
      then maybe_free i (close_fds i s)
      else if r.timedout
      then service_failed g w i timeout s
      else if r.hup
      then service_failed g w i (hup_status status) s
      else if is_oneshot (g.svcs i).kind && is_success status
      then maybe_free i (complete g w i s)
      else service_failed g w i status s

  -- child_exited: a service that is not RUNNING
  unfoldable pub exited_settled : ℕ → Sys → Sys
  exited_settled i s =
      let was_up = not (s.runs i).starting in
      let s1 = set_run i (record (s.runs i) { starting = false }) s in
      if is_done (s1.core.state i) && not s1.core.shutting_down
      then exited_done i was_up s1
      else maybe_free i s1

  -- child_exited, once the pipes are read and the pid is forgotten
  unfoldable pub exited_reaped : ℕ → Status → Sys → Sys
  exited_reaped i status s =
      if s.core.want i && not s.core.shutting_down
      then exited_wanted i s
      else if is_running (s.core.state i)
      then exited_running i status s
      else exited_settled i s

  -- stale_reaped: an abandoned instance finally died
  unfoldable pub stale_reaped : ℕ → ℕ → Sys → Sys
  stale_reaped i pid s =
      let r = s.runs i in
      let s1 = if r.stale_pid == pid then set_run i (record r { stale_pid = 0 }) s else s in
      let r1 = s1.runs i in
      let s2 =
        if not (r1.restart_at == 0) && r1.stale_hold
        then set_run i
            (record r1 { restart_at = w.now s1.tick + retry_delay_ms g i; stale_hold = false }) s1
        else s1 in
      maybe_free i s2
