-- ===== src/Examples/Stop.antt =====
-- The ordered stop of the small image, with the daemon still running.
use ninit.Prelude.{
  refl, range, if◌then◌else◌, ◌==◌, ◌<◌, ◌≡◌, true, false, not, List, [], ◌∷◌, some, tally, arith,
  count, ◌≢◌,
}
use ninit.Graph.{dependents, stop_ms}
use ninit.Verify.{graph_of}
use ninit.Supervisor.Ops.{svc_gone}
use ninit.Supervisor.Drain.{signal_group}
use ninit.Supervisor.Steps.{handle_all}
use ninit.Supervisor.Sys.{Sys}
use ninit.Supervisor.Boot.{boot_run, boot_sys}
use ninit.Stop.{
  Prereqs, is_settled, is_waiting, stop_start, Stopping, Round, drop_waits, build_prereqs,
  stop_in_rounds, stop_ordered, count_live, stop_rounds, settle_one, settle_all, stop_round,
  signal_one, signal_all, press_stop, ask_stop, prereqs_of, fill_edge, fill_edges, fill_all,
  prereq_off,
}
use ninit.Stop.Order.{IsTranspose}
use ninit.Stop.Transpose.{build_prereqs-IsTranspose}
use ninit.Stop.Whole.{stop_ordered-settled, stop_ordered-left}
use ninit.Examples.{sample_graph, sample_world, sample_well_formed}

abbrev sample_running : Sys
sample_running = record (boot_sys sample_graph) {
  runs = λ i. record boot_run { pid = if i == 1 then 104 else 0 };
}

abbrev sample_rounds : List Round
sample_rounds =
    record { now = 2000; events = []; later = 2001 }
    ∷ record { now = 3000; events = []; later = 3001 }
    ∷ []

abbrev sample_prereqs : Prereqs
sample_prereqs = record {
  off = prereq_off sample_graph;
  idx = (fill_all sample_graph (range 0 3) (record { idx = λ k. 0; fill = λ d. 0 })).idx;
}

-- the target settles in the first round, and the daemon is asked to stop in the second
abbrev sample_stopped : Stopping
sample_stopped =
    stop_rounds sample_graph sample_world sample_prereqs 31003 sample_rounds
      (stop_start sample_graph (record sample_running { tick = 4 }))

stops_in_order :
    stop_ordered sample_graph sample_world sample_rounds sample_running ≡ some sample_stopped
unfolding stop_ordered build_prereqs stop_in_rounds count_live svc_gone graph_of prereq_off
stops_in_order = refl

daemon_asked : is_waiting (sample_stopped.st 1) ≡ false
unfolding stop_rounds stop_round signal_all signal_one settle_all settle_one press_stop ask_stop
    drop_waits prereqs_of fill_all fill_edges fill_edge prereq_off svc_gone graph_of handle_all
    signal_group stop_ms
daemon_asked = refl

depends : count 2 (dependents sample_graph 1) ≢ 0
unfolding graph_of count
depends e = absurd (omega (arith, e))

one_below : 1 < sample_graph.n_svc
unfolding graph_of
one_below = omega arith

two_below : 2 < sample_graph.n_svc
unfolding graph_of
two_below = omega arith

stop_ordered-settled_example : is_settled (sample_stopped.st 2) ≡ true
stop_ordered-settled_example =
    stop_ordered-settled sample_graph sample_world sample_rounds sample_running sample_stopped 1 2
      sample_well_formed stops_in_order one_below two_below depends daemon_asked

stop_ordered-left_example :
    sample_stopped.left ≡ tally (λ x. not (is_settled x)) sample_graph.n_svc sample_stopped.st
stop_ordered-left_example =
    stop_ordered-left sample_graph sample_world sample_rounds sample_running sample_stopped
      sample_well_formed stops_in_order

build_prereqs-IsTranspose_example : IsTranspose sample_graph sample_prereqs
unfolding build_prereqs graph_of prereq_off
build_prereqs-IsTranspose_example =
    build_prereqs-IsTranspose sample_graph sample_well_formed sample_prereqs refl
