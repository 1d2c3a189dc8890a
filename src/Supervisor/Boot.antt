-- ===== src/Supervisor/Boot.antt =====
-- How the supervisor starts: start_graph of src/ninit.c.
use ninit.Prelude.{ℕ, false, List, [], ◌∷◌, if◌then◌else◌, range}
use ninit.Graph.{Graph, targets}
use ninit.Supervisor.Core.{Core, pending}
use ninit.Supervisor.Sys.{no_op, Run, Sys, World}
use ninit.Supervisor.Start.{svc_try_start}
use ninit.Supervisor.Release.{complete}

-- the zeroed memory of start_graph, with the loop that sets unmet
unfoldable pub boot_core : Graph → Core
boot_core g = record {
  state = λ i. pending;
  up = λ i. false;
  want = λ i. false;
  unmet = λ i. (g.svcs i).unmet;
  released = λ i. false;
  queue = [];
  draining = false;
  shutting_down = false;
  n_active = 0;
  n_done = 0;
  n_pending = g.n_svc;
  n_up = 0;
}

abbrev pub boot_run : Run
boot_run = record {
  pid = 0;
  pgid = 0;
  stale_pid = 0;
  out_fd = false;
  ntf_fd = false;
  live_pos = 0;
  restart_at = 0;
  burst = 0;
  cg_killed = false;
  stale_hold = false;
  attempt = 0;
  hup = false;
  timedout = false;
  starting = false;
  ntf_exec = false;
  op = no_op;
  op_restart = false;
  started = 0;
  op_at = 0;
  tail = [];
  line = [];
}

abbrev pub boot_sys : Graph → Sys
boot_sys g = record {
  core = boot_core g;
  runs = λ i. boot_run;
  live = λ k. 0;
  n_live = 0;
  n_ops = 0;
  drain_left = 0;
  drain_rotor = 0;
  tick = 0;
  sent = [];
}

module _ (g : Graph) (w : World) where
  -- the body of the loop over the roots
  unfoldable pub start_root : ℕ → Sys → Sys
  start_root i s = if targets g i then complete g w i s else (svc_try_start g w i s).0

  unfoldable pub start_roots : List ℕ → Sys → Sys
  start_roots [] s = s
  start_roots (i ∷ is) s = start_roots is (start_root i s)

  unfoldable pub start_graph : Sys
  start_graph = start_roots (range 0 g.n_roots) (boot_sys g)
