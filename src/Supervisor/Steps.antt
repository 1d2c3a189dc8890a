-- ===== src/Supervisor/Steps.antt =====
-- What pid 1 does after the boot, one service at a time: the bodies of the loops of src/ninit.c's
-- main(), of fire_restarts, check_timeouts, ctl_tick and reap(), and the commands of ctl_cmd
-- (src/reap.c, src/signals.c, src/command.c).
use ninit.Prelude.{ℕ, ◌<◌, true, false, not, ◌||◌, List, [], ◌∷◌, if◌then◌else◌}
use ninit.Graph.{Graph, targets}
use ninit.Supervisor.Sys.{is_no_op, Status, Sys, World}
use ninit.Supervisor.Live.{live_has}
use ninit.Supervisor.Drain.{maybe_free, drain_out}
use ninit.Supervisor.Exit.{fire_restart}
use ninit.Supervisor.Notify.{drain_notify, drain_exec, reap_one, check_timeout}
use ninit.Supervisor.Ops.{svc_op_start, svc_op_stop, ctl_tick_one, ctl_resume}
use ninit.Supervisor.Boot.{start_graph}

-- DRAIN_POLL_CHUNKS
abbrev pub drain_poll_chunks : ℕ
drain_poll_chunks = 16

-- DRAIN_BUDGET
abbrev pub drain_budget : ℕ
drain_budget = 262144

pub data Command : Type 0 where
  start stop restart : Command

-- what the main loop finds to do
pub data Event : Type 0 where
  reaped : ℕ → ℕ → Status → Event
  restarts : ℕ → ℕ → Event
  start_checked : ℕ → ℕ → Event
  ticked : ℕ → ℕ → Event
  output notified execed : ℕ → Event
  asked_for : Command → ℕ → Event
  resume : Event
  turn : Event  -- the top of the loop
  shutdown : Event

-- what the main loop does with a service once its descriptor was read
abbrev pub freed : ℕ → Sys → Sys
freed i s = if live_has i s then maybe_free i s else s

module _ (g : Graph) (w : World) where
  -- ctl_cmd, for a command on a service that ctl_find has found
  unfoldable pub ctl_cmd : Command → ℕ → Sys → Sys
  ctl_cmd cmd i s =
      if s.core.shutting_down || targets g i || not (is_no_op (s.runs i).op) then s else elim cmd [
        | restart ↦ svc_op_stop g w i true s
        | stop ↦ svc_op_stop g w i false s
        | start ↦ svc_op_start g w i s
      ]

  unfoldable pub handle : Event → Sys → Sys
  handle (reaped i pid status) s = reap_one g w i pid status s
  handle (restarts i now) s = if s.core.shutting_down then s else fire_restart g w i now s
  handle (start_checked i now) s = if s.core.shutting_down then s else check_timeout g w i now s
  handle (ticked i now) s = ctl_tick_one g w i now s
  handle (output i) s = freed i (drain_out w i drain_poll_chunks true s)
  handle (notified i) s = freed i (drain_notify g w i drain_poll_chunks s)
  handle (execed i) s = freed i (drain_exec g w i drain_poll_chunks s)
  handle (asked_for cmd i) s = ctl_cmd cmd i s
  handle resume s = if s.core.shutting_down then s else ctl_resume g w s
  handle turn s = record s { drain_left = drain_budget }
  handle shutdown s = record s { core = record s.core { shutting_down = true } }

  unfoldable pub handle_all : List Event → Sys → Sys
  handle_all [] s = s
  handle_all (e ∷ es) s = handle_all es (handle e s)

  -- the supervisor after its boot and the events of a list
  unfoldable pub run : List Event → Sys
  run es = handle_all es (start_graph g w)

-- An event names a service of the graph.
abbrev pub IsFor : Graph → Event → Type 0
IsFor g (reaped i pid status) = i < g.n_svc
IsFor g (restarts i now) = i < g.n_svc
IsFor g (start_checked i now) = i < g.n_svc
IsFor g (ticked i now) = i < g.n_svc
IsFor g (output i) = i < g.n_svc
IsFor g (notified i) = i < g.n_svc
IsFor g (execed i) = i < g.n_svc
IsFor g (asked_for cmd i) = i < g.n_svc
IsFor g resume = Unit
IsFor g turn = Unit
IsFor g shutdown = Unit
