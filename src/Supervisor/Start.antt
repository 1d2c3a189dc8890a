-- ===== src/Supervisor/Start.antt =====
-- Starts and failed starts (src/spawn.c, src/reap.c, src/state.c, src/fail.c).
use ninit.Prelude.{
  ℕ, zero, suc, ◌+◌, Bool, true, false, not, ◌&&◌, ◌||◌, [], Option, none, some, ◌==◌, ltb,
  if◌then◌else◌,
}
use ninit.Graph.{Graph, warn, stop, shell as on_shell, is_daemon, start_tries}
use ninit.Supervisor.Core.{
  skipped, mark_running, poison as poison_core, poison_deps as poison_deps_core,
}
use ninit.Supervisor.Sys.{
  is_no_op, Status, exited, Sys, shell, no_pipe, no_fork, child, World, asked, set_run, put,
}
use ninit.Supervisor.Live.{live_add, live_has, live_del}
use ninit.Supervisor.Drain.{kill_group, svc_abandon, close_fds, maybe_free, drain_out}

abbrev pub kill_grace_ms : ℕ
kill_grace_ms = 2000

abbrev pub drain_final_chunks : ℕ
drain_final_chunks = 64

-- EXIT_NOEXEC
abbrev pub exit_noexec : Status
exit_noexec = exited 127

-- enum fail_act
pub data FailAct : Type 0 where
  fail_retry fail_warn fail_stop fail_shell : FailAct

-- a start between attempts: poison_take's look into struct run
abbrev pub between_attempts : Sys → ℕ → Bool
between_attempts s d = not ((s.runs d).restart_at == 0) && (s.runs d).pid == 0

-- the body of skipped_note's loop: a skipped service has no retry to wait for
unfoldable pub clear_retry : ℕ → Sys → Sys
clear_retry d s =
    let r = s.runs d in
    elim (s.core.state d) [
      | skipped ↦
          if r.restart_at == 0
          then s
          else maybe_free d (set_run d (record r { restart_at = 0; stale_hold = false }) s)
      | _ ↦ s
    ]

-- the loop over the live list, from slot k: a freed service leaves its slot to another
unfoldable pub clear_retries : ℕ → ℕ → Sys → Sys
clear_retries zero k s = s
clear_retries (suc fuel) k s = elim (ltb k s.n_live) [
  | false ↦ s
  | true ↦
      let d = s.live k in
      let s' = clear_retry d s in
      clear_retries fuel (if ltb k s'.n_live && s'.live k == d then k + 1 else k) s'
]

module _ (g : Graph) where
  -- poison and poison_deps: the states first, then the restart times of what is skipped
  unfoldable pub poison : ℕ → Sys → Sys
  poison i s =
      let s' = record s { core = poison_core g (between_attempts s) i s.core } in
      clear_retries s.n_live 0 s'

  unfoldable pub poison_deps : ℕ → Sys → Sys
  poison_deps i s =
      let s' = record s { core = poison_deps_core g (between_attempts s) i s.core } in
      clear_retries s.n_live 0 s'

  -- fail_service, without its log lines
  unfoldable pub fail_service : ℕ → ℕ → ℕ → FailAct
  fail_service i attempt tries =
      if ltb attempt tries
      then fail_retry
      else elim (g.svcs i).onfail [ warn ↦ fail_warn | on_shell ↦ fail_shell | stop ↦ fail_stop ]

  unfoldable pub fail_apply : ℕ → FailAct → Sys → Sys
  fail_apply i act s = let s' = poison i s in elim act [ fail_shell ↦ put (shell i) s' | _ ↦ s' ]

  unfoldable pub retry_delay_ms : ℕ → ℕ
  retry_delay_ms i = let d = (g.pols i).retry_ms in if ltb d 10 then 10 else d

  module _ (w : World) where
    -- the lines of service_failed before it looks at shutting_down
    unfoldable pub bury : ℕ → Sys → Sys
    bury i s =
        let s1 = close_fds i (drain_out w i drain_final_chunks false (kill_group w i s)) in
        let s2 = svc_abandon i (set_run i (record (s1.runs i) { starting = false }) s1) in
        let r = s2.runs i in
        if live_has i s2 && r.stale_pid == 0 && is_no_op r.op then live_del i s2 else s2

    -- the last lines of service_failed: the next attempt is due after a delay
    unfoldable pub retry_later : ℕ → Sys → Sys
    retry_later i s =
        let s' = if live_has i s then s else live_add i s in
        let r = s'.runs i in
        let stale = not (r.stale_pid == 0) in
        set_run i
          (record r {
            stale_hold = stale;
            restart_at = w.now s'.tick + (if stale then kill_grace_ms else retry_delay_ms i);
          })
          s'

    -- service_failed, where `attempt` has been counted
    unfoldable pub failed_attempt : ℕ → Sys → Sys
    failed_attempt i s = elim (fail_service i (s.runs i).attempt (start_tries g i)) [
      | fail_retry ↦ retry_later i s
      | act ↦ fail_apply i act s
    ]

    unfoldable pub service_failed : ℕ → Status → Sys → Sys
    service_failed i status s =
        let s1 = bury i s in
        let r = s1.runs i in
        if s1.core.shutting_down
        then s1
        else failed_attempt i (
            set_run i
              (record r { attempt = if ltb r.attempt 255 then r.attempt + 1 else r.attempt }) s1)

    -- launch: the fields that it resets first
    unfoldable pub launch_reset : ℕ → Sys → Sys
    launch_reset i s =
        set_run i
          (record (s.runs i) {
            tail = [];
            line = [];
            hup = false;
            timedout = false;
            starting = true;
            ntf_exec = is_daemon (g.svcs i).kind && (g.svcs i).notify_fd == 0;
          })
          s

    -- a cgroup that cgroup.kill was written to is made anew
    unfoldable pub launch_cgroup : ℕ → Sys → Sys
    launch_cgroup i s =
        if (s.runs i).cg_killed && w.cg_drop s.tick
        then set_run i (record (s.runs i) { cg_killed = false }) (asked s)
        else asked s

    -- launch, from its fork on: true is its return value 0
    unfoldable pub launched : ℕ → ℕ → Sys → Sys
    launched i p s =
        let r = s.runs i in
        let s' =
          set_run i
            (record r {
              pid = suc p;
              pgid = suc p;
              out_fd = true;
              ntf_fd = not ((g.svcs i).notify_fd == 0) || r.ntf_exec;
              started = w.now s.tick;
            })
            s in
        if live_has i s' then s' else live_add i s'

    unfoldable pub launch : ℕ → Sys → Sys × Bool
    launch i s =
        let s1 = asked (launch_reset i s) in
        elim (w.launch s.tick) [
          | no_pipe ↦ (s1, false)
          | no_fork ↦ (launch_cgroup i s1, false)
          | child p ↦ (launched i p (launch_cgroup i s1), true)
        ]

    unfoldable pub spawn : ℕ → Sys → Sys
    spawn i s =
        let (s', ok) = launch i (record s { core = mark_running i s.core }) in
        if ok then s' else service_failed i exit_noexec s'

-- the reasons of svc_can_start
pub data Why : Type 0 where
  in_shutdown held_stopped already_running not_exited waiting : Why

-- svc_can_start: `none` is a yes
unfoldable pub svc_can_start : ℕ → Sys → Option Why
svc_can_start i s =
    if s.core.shutting_down
    then some in_shutdown
    else if s.core.want i
    then some held_stopped
    else if not ((s.runs i).pid == 0)
    then some already_running
    else if not ((s.runs i).stale_pid == 0)
    then some not_exited
    else if not (s.core.unmet i == 0)
    then some waiting
    else none

unfoldable pub svc_try_start : Graph → World → ℕ → Sys → Sys × Bool
svc_try_start g w i s = elim (svc_can_start i s) [
  | none ↦ (spawn g w i s, true)
  | some _ ↦ (s, false)
]
