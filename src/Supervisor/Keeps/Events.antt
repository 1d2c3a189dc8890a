-- ===== src/Supervisor/Keeps/Events.antt =====
-- Every event keeps the invariant, so every run of the supervisor has it.
use ninit.Prelude.{ℕ, ◌<◌, refl, true, false, not, ◌||◌, List, [], ◌∷◌, All, if_keeps}
use ninit.Graph.{Graph, IsWellFormed, targets}
use ninit.Supervisor.Invariant.Defs.{IsSettled}
use ninit.Supervisor.Invariant.Sound.{IsFlagged-of_flags}
use ninit.Supervisor.Sys.{is_no_op, Sys, World}
use ninit.Supervisor.Ops.{svc_op_start, svc_op_stop}
use ninit.Supervisor.Boot.{start_graph}
use ninit.Supervisor.Live.{live_has}
use ninit.Supervisor.Steps.{
  drain_poll_chunks, Command, start, stop, restart, Event, reaped, restarts, start_checked, ticked,
  output, notified, execed, asked_for, resume, turn, shutdown, ctl_cmd, handle, handle_all, run,
  IsFor, freed,
}
use ninit.Supervisor.Keeps.Cores.{drain_out-core, maybe_free-core}
use ninit.Supervisor.Keeps.Exits.{keep, fire_restart-Quiet}
use ninit.Supervisor.Keeps.Notifies.{
  drain_notify-Quiet, drain_exec-Quiet, reap_one-Quiet, check_timeout-Quiet,
}
use ninit.Supervisor.Keeps.Requests.{
  svc_op_start-Quiet, svc_op_stop-Quiet, ctl_tick_one-Quiet, ctl_resume-Quiet,
}
use ninit.Supervisor.Keeps.Boots.{start_graph-IsSettled}

module _ (g : Graph) (wf : IsWellFormed g) (w : World) where
  abbrev Still : Sys → Type 0
  Still s = IsSettled g s.core

  ctl_cmd-Still :
      (cmd : Command) (i : ℕ) → i < g.n_svc → (s : Sys) → Still s → Still (ctl_cmd g w cmd i s)
  unfolding ctl_cmd
  ctl_cmd-Still cmd i l s h =
      if_keeps Still (s.core.shutting_down || targets g i || not (is_no_op (s.runs i).op)) _ _
        (λ _. h) (λ _. go cmd)
    where
      go :
          (cmd : Command)
          → Still (elim cmd [
            | restart ↦ svc_op_stop g w i true s
            | stop ↦ svc_op_stop g w i false s
            | start ↦ svc_op_start g w i s
          ])
      go restart = svc_op_stop-Quiet g wf w i l true s h
      go stop = svc_op_stop-Quiet g wf w i l false s h
      go start = svc_op_start-Quiet g wf w i l s h

  freed-Still : (i : ℕ) → i < g.n_svc → (s : Sys) → Still s → Still (freed i s)
  freed-Still i l s h =
      if_keeps Still (live_has i s) _ _ (λ _. keep g wf w i l (maybe_free-core i s) h) (λ _. h)

  -- Every event keeps the invariant, whatever the kernel answers.
  pub handle-IsSettled :
      (e : Event) (s : Sys) → IsFor g e → IsSettled g s.core → IsSettled g (handle g w e s).core
  unfolding handle
  handle-IsSettled (reaped i pid status) s l h = reap_one-Quiet g wf w i l pid status s h
  handle-IsSettled (restarts i now) s l h =
      if_keeps Still s.core.shutting_down _ _ (λ _. h) (λ _. fire_restart-Quiet g wf w i l now s h)
  handle-IsSettled (start_checked i now) s l h =
      if_keeps Still s.core.shutting_down _ _ (λ _. h) (λ _. check_timeout-Quiet g wf w i l now s h)
  handle-IsSettled (ticked i now) s l h = ctl_tick_one-Quiet g wf w i l now s h
  handle-IsSettled (output i) s l h =
      freed-Still i l _ (keep g wf w i l (drain_out-core w i drain_poll_chunks true s) h)
  handle-IsSettled (notified i) s l h =
      freed-Still i l _ (drain_notify-Quiet g wf w i l drain_poll_chunks s h)
  handle-IsSettled (execed i) s l h =
      freed-Still i l _ (drain_exec-Quiet g wf w i l drain_poll_chunks s h)
  handle-IsSettled (asked_for cmd i) s l h = ctl_cmd-Still cmd i l s h
  handle-IsSettled resume s l h =
      if_keeps Still s.core.shutting_down _ _ (λ _. h) (λ _. ctl_resume-Quiet g wf w s h)
  handle-IsSettled turn s l h = h
  handle-IsSettled shutdown s l h = record {
    sound = record {
      counted = record {
        active = h.sound.counted.active;
        pending = h.sound.counted.pending;
        done = h.sound.counted.done;
      };
      flagged = IsFlagged-of_flags g (λ _. 0) s.core _ refl h.sound.flagged;
    };
    resting = h.resting;
  }

  handle_all-IsSettled :
      (es : List Event) (s : Sys) → All (IsFor g) es → Still s → Still (handle_all g w es s)
  unfolding handle_all
  handle_all-IsSettled [] s l h = h
  handle_all-IsSettled (e ∷ es) s l h =
      handle_all-IsSettled es (handle g w e s) l.1 (handle-IsSettled e s l.0 h)

  -- After the boot and any events on services of the graph, whatever the kernel answered, the
  -- counters, the flags and the unmet counts satisfy the invariant.
  pub run-IsSettled : (es : List Event) → All (IsFor g) es → IsSettled g (run g w es).core
  unfolding run
  run-IsSettled es l = handle_all-IsSettled es (start_graph g w) l (start_graph-IsSettled g wf w)
