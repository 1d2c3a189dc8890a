-- ===== src/Examples.antt =====
-- A small image with a oneshot, a daemon behind it and a target behind that, a kernel that answers
-- simply, and the theorems at them.
mod Stop
mod Pids
mod Shell
mod Logging
mod Schedule
mod Text
mod Argv
mod Names
use ninit.Prelude.{
  range, ◌++◌, ℕ, ◌+◌, ◌≤◌, ◌≡◌, ◌≢◌, ◌⊎◌, count, refl, true, false, List, [], ◌∷◌, none, ◌==◌, ltb,
  if◌then◌else◌, arith, All, sum,
}
use ninit.Graph.{Graph, IsWellFormed, dependents, order_only}
use ninit.Verify.{
  RawSvc, Image, span_meets, reject, or_else, first, header_problem, section_problem, edge_problem,
  svc_problem, table_problem, ng_verify, graph_of,
}
use ninit.Verify.Accepted.{ng_verify-IsWellFormed}
use ninit.Supervisor.Sys.{exited, Read, Launch, World}
use ninit.Supervisor.Boot.{boot_core, boot_sys}
use ninit.Supervisor.Steps.{Event, reaped, execed, asked_for, turn, restart, shutdown, IsFor}
use ninit.Supervisor.Invariant.Defs.{unreleased, IsSound, IsSettled, IsResting}
use ninit.Supervisor.Start.{Why, svc_can_start}
use ninit.Supervisor.Output.{Sink, absorb_tail, absorb}
use ninit.Supervisor.Output.Lines.{take_bytes}
use ninit.Supervisor.Output.Whole.{absorb-take_bytes, absorb-append}
use ninit.Supervisor.Output.Tail.{last, absorb_tail-last, absorb_tail-append}
use ninit.Supervisor.Live.{live_add, live_has, live_del}
use ninit.Supervisor.Live.Listed.{IsListed, live_add-IsListed, live_del-IsListed}
use ninit.Supervisor.Promises.{run-unmet, run-prerequisites}
use ninit.Supervisor.Boot.{start_graph}
use ninit.Supervisor.Release.{release_loop, complete}
use ninit.Supervisor.Steps.{run, handle}
use ninit.Supervisor.Core.{go_down, poison}
use ninit.Supervisor.Start.{service_failed}
use ninit.Supervisor.Invariant.Sound.{go_down-IsSound}
use ninit.Supervisor.Invariant.Fail.{poison-IsSound}
use ninit.Supervisor.Keeps.Starts.{Good, service_failed-Good}
use ninit.Supervisor.Keeps.Releases.{complete-Good}
use ninit.Supervisor.Keeps.Boots.{boot_core-IsSound, start_graph-IsSettled}
use ninit.Supervisor.Keeps.Drains.{rounds_left}
use ninit.Supervisor.Keeps.Ends.{complete-IsResting, release_loop-ends}
use ninit.Supervisor.Keeps.Events.{handle-IsSettled, run-IsSettled}

abbrev sample_svc : ℕ → RawSvc
sample_svc i =
    if i == 0
    then record {
      unmet = 0;
      type = 0;
      flags = 1;
      n_desc = 2;
      notify_fd = 0;
      script_off = 0;
      name_off = 4;
    }
    else if i == 1
    then record {
      unmet = 1;
      type = 1;
      flags = 5;
      n_desc = 1;
      notify_fd = 0;
      script_off = 0;
      name_off = 8;
    }
    else record {
      unmet = 1;
      type = 2;
      flags = 0;
      n_desc = 0;
      notify_fd = 0;
      script_off = 4294967295;
      name_off = 12;
    }

abbrev sample : Image
sample = record {
  len = 200;
  aligned = true;
  magic_ok = true;
  version = 9;
  crc_ok = true;
  total_len = 200;
  n_svc = 3;
  n_roots = 1;
  n_edges = 2;
  blob_len = 16;
  off_svc = 64;
  off_rdep_off = 160;
  off_rdep_idx = 176;
  off_blob = 184;
  off_pol = 112;
  reserved = 0;
  blob_ends = true;
  svcs = sample_svc;
  pols = λ i. record {
    start_ms = 0;
    stop_ms = 0;
    retry_ms = 0;
    start_tries = 0;
    pflags = 0;
    exec_off = 4294967295;
  };
  roff = λ i. if ltb i 2 then i else 2;
  ridx = λ k. k + 1;
  name_bad = λ i. false;
  script_bad = λ i. false;
  exec_bad = λ i. false;
  names_clash = false;
}

sample_accepted : ng_verify sample ≡ none
unfolding ng_verify header_problem section_problem table_problem svc_problem edge_problem first
    reject or_else span_meets
sample_accepted = refl

abbrev sample_graph : Graph
sample_graph = graph_of sample

-- Every fork succeeds, every pipe is closed when it is read, and there are no cgroups.
abbrev sample_world : World
sample_world = record {
  now = λ t. 1000 + t;
  cg_ok = false;
  cg_kill = λ t. false;
  populated = λ t. none;
  cg_drop = λ t. false;
  launch = λ t. Launch.child (100 + t);
  read = λ t. Read.closed;
}

-- The oneshot ends, the daemon reports by its exec, is restarted by a client, and exits.
abbrev sample_events : List Event
sample_events = turn ∷ reaped 0 101 (exited 0) ∷ execed 1 ∷ asked_for restart 1 ∷ shutdown ∷ []

sample_below : All (IsFor sample_graph) sample_events
unfolding graph_of
sample_below = (tt, (omega arith, (omega arith, (omega arith, (tt, tt)))))

abbrev sample_well_formed : IsWellFormed sample_graph
sample_well_formed = ng_verify-IsWellFormed sample sample_accepted

sample_rounds : rounds_left sample_graph (boot_core sample_graph) ≤ 25
unfolding boot_core graph_of sum
sample_rounds = omega arith

ng_verify-IsWellFormed_example : IsWellFormed (graph_of sample)
ng_verify-IsWellFormed_example = ng_verify-IsWellFormed sample sample_accepted

run-IsSettled_example : IsSettled sample_graph (run sample_graph sample_world sample_events).core
run-IsSettled_example =
    run-IsSettled sample_graph sample_well_formed sample_world sample_events sample_below

run-unmet_example :
    (run sample_graph sample_world sample_events).core.unmet 1
    ≡ unreleased sample_graph (run sample_graph sample_world sample_events).core.released 1
run-unmet_example =
    run-unmet sample_graph sample_well_formed sample_world sample_events sample_below 1
      sample_below.1.1.0

handle-IsSettled_example :
    IsSettled sample_graph
      (handle sample_graph sample_world
        (reaped 0 101 (exited 0))
        (start_graph sample_graph sample_world)).core
handle-IsSettled_example =
    handle-IsSettled sample_graph sample_well_formed sample_world (reaped 0 101 (exited 0))
      (start_graph sample_graph sample_world) sample_below.1.0
      (start_graph-IsSettled sample_graph sample_well_formed sample_world)

complete-IsResting_example :
    IsResting (complete sample_graph sample_world 0 (boot_sys sample_graph)).core
unfolding boot_core
complete-IsResting_example =
    complete-IsResting sample_graph sample_well_formed sample_world 0 (boot_sys sample_graph)
      sample_below.1.0 (boot_core-IsSound sample_graph sample_well_formed) (refl, refl)

release_loop-ends_example :
    (release_loop sample_graph sample_world 25 (boot_sys sample_graph)).core.queue ≡ []
release_loop-ends_example =
    release_loop-ends sample_graph sample_well_formed sample_world 25 (boot_sys sample_graph)
      (boot_core-IsSound sample_graph sample_well_formed) sample_rounds

-- The daemon exits once it is up.
abbrev exit_events : List Event
exit_events = reaped 0 101 (exited 0) ∷ execed 1 ∷ reaped 1 104 (exited 1) ∷ []

exit_below : All (IsFor sample_graph) exit_events
unfolding graph_of
exit_below = (omega arith, (omega arith, (omega arith, tt)))

may_restart : svc_can_start 1 (run sample_graph sample_world exit_events) ≡ none
unfolding ninit.Supervisor.Core.mark_done ninit.Supervisor.Core.mark_running
    ninit.Supervisor.Core.set_up ninit.Supervisor.Core.reclaim_edge
    ninit.Supervisor.Core.reclaim_edges ninit.Supervisor.Core.reclaim_loop
    ninit.Supervisor.Core.reclaim ninit.Supervisor.Core.go_down ninit.Supervisor.Live.live_add
    ninit.Supervisor.Live.live_has ninit.Supervisor.Live.live_del ninit.Supervisor.Output.absorb
    ninit.Supervisor.Drain.signal_group ninit.Supervisor.Drain.kill_group
    ninit.Supervisor.Drain.svc_abandon ninit.Supervisor.Drain.close_fds
    ninit.Supervisor.Drain.maybe_free ninit.Supervisor.Drain.put_notes
    ninit.Supervisor.Drain.run_sink ninit.Supervisor.Drain.take_sink
    ninit.Supervisor.Drain.drain_read ninit.Supervisor.Drain.drain_out
    ninit.Supervisor.Start.launch_reset ninit.Supervisor.Start.launch_cgroup
    ninit.Supervisor.Start.launched ninit.Supervisor.Start.launch ninit.Supervisor.Start.spawn
    ninit.Supervisor.Start.svc_can_start ninit.Supervisor.Start.svc_try_start
    ninit.Supervisor.Release.svc_mark_done ninit.Supervisor.Release.release_target
    ninit.Supervisor.Release.release_service ninit.Supervisor.Release.release_edge
    ninit.Supervisor.Release.release_edges ninit.Supervisor.Release.release_loop
    ninit.Supervisor.Release.svc_release ninit.Supervisor.Release.complete
    ninit.Supervisor.Exit.take_down ninit.Supervisor.Exit.restart_schedule
    ninit.Supervisor.Exit.exited_done ninit.Supervisor.Exit.exited_running
    ninit.Supervisor.Exit.exited_settled ninit.Supervisor.Exit.exited_reaped
    ninit.Supervisor.Notify.report_ready ninit.Supervisor.Notify.exec_closed
    ninit.Supervisor.Notify.drain_exec ninit.Supervisor.Notify.child_exited
    ninit.Supervisor.Notify.reap_one ninit.Supervisor.Boot.boot_core
    ninit.Supervisor.Boot.start_root ninit.Supervisor.Boot.start_roots
    ninit.Supervisor.Boot.start_graph ninit.Supervisor.Steps.handle
    ninit.Supervisor.Steps.handle_all ninit.Supervisor.Steps.run graph_of
may_restart = refl

waits_for_oneshot : count 1 (dependents sample_graph 0) ≢ 0
unfolding graph_of count
waits_for_oneshot e = absurd (omega (arith, e))

run-prerequisites_example :
    ((run sample_graph sample_world exit_events).core.released 0 ≡ true)
    × (((run sample_graph sample_world exit_events).core.up 0 ≡ true)
        ⊎ (order_only sample_graph 0 ≡ true))
run-prerequisites_example =
    run-prerequisites sample_graph sample_well_formed sample_world exit_events exit_below 0 1
      exit_below.0 exit_below.1.0 waits_for_oneshot may_restart

-- a line of two bytes that is not finished
abbrev sample_sink : Sink
sample_sink = record { tail = 97 ∷ 98 ∷ []; line = 97 ∷ 98 ∷ []; notes = [] }

absorb-take_bytes_example :
    absorb (99 ∷ 10 ∷ 100 ∷ []) sample_sink
    ≡ take_bytes
        (99 ∷ 10 ∷ 100 ∷ [])
        (record sample_sink { tail = absorb_tail (97 ∷ 98 ∷ []) (99 ∷ 10 ∷ 100 ∷ []) })
absorb-take_bytes_example = absorb-take_bytes (99 ∷ 10 ∷ 100 ∷ []) sample_sink (omega arith)

absorb-append_example :
    absorb (10 ∷ 100 ∷ []) (absorb (99 ∷ []) sample_sink) ≡ absorb (99 ∷ 10 ∷ 100 ∷ []) sample_sink
absorb-append_example =
    absorb-append (99 ∷ []) (10 ∷ 100 ∷ []) sample_sink (omega arith) (omega arith)
