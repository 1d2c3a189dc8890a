-- ===== src/Stop.antt =====
-- The ordered stop of a shutdown (src/stop.c): a service is asked to stop once all that depends on
-- it is gone. Allocations are taken to succeed.
pub mod Transpose
pub mod Order
pub mod Rounds
pub mod Whole
use ninit.Prelude.{
  ℕ, zero, suc, ◌+◌, ◌-◌, Bool, true, false, not, ◌&&◌, ◌||◌, List, [], ◌∷◌, Option, none, some,
  map, ◌==◌, ltb, leb, length, if◌then◌else◌, range, update, sub32,
}
use ninit.Graph.{Graph, dependents, stop_ms}
use ninit.Supervisor.Sys.{Sys, World, asked}
use ninit.Supervisor.Drain.{sigkill, sigterm, signal_group}
use ninit.Supervisor.Ops.{svc_gone}
use ninit.Supervisor.Steps.{Event, drain_budget, handle_all}

-- what build_prereqs allocates: idx[off[d] .. off[d + 1]) are the prerequisites of d
pub record Prereqs : Type 0 where
  pub off : ℕ → ℕ
  pub idx : ℕ → ℕ

-- the second loop of build_prereqs, with its `fill`
pub record Filling : Type 0 where
  pub idx : ℕ → ℕ
  pub fill : ℕ → ℕ

module _ (g : Graph) where
  -- the first loop of build_prereqs
  unfoldable pub prereq_off : ℕ → ℕ
  prereq_off zero = 0
  prereq_off (suc d) = prereq_off d + (g.svcs d).unmet

  -- idx[off[d] + fill[d]++] = i
  unfoldable pub fill_edge : ℕ → ℕ → Filling → Filling
  fill_edge i d f = record {
    idx = update f.idx (prereq_off d + f.fill d) i;
    fill = update f.fill d (f.fill d + 1);
  }

  unfoldable pub fill_edges : ℕ → List ℕ → Filling → Filling
  fill_edges i [] f = f
  fill_edges i (d ∷ ds) f = fill_edges i ds (fill_edge i d f)

  unfoldable pub fill_all : List ℕ → Filling → Filling
  fill_all [] f = f
  fill_all (i ∷ is) f = fill_all is (fill_edges i (dependents g i) f)

  -- build_prereqs, where memory does not run out; the last offset of the reverse arrays is the
  -- number of edges of a verified image
  unfoldable pub build_prereqs : Option Prereqs
  unfolding prereq_off fill_all
  build_prereqs =
      if prereq_off g.n_svc == g.rdep_off g.n_svc
      then some (record {
        off = prereq_off;
        idx = (fill_all (range 0 g.n_svc) (record { idx = λ k. 0; fill = λ d. 0 })).idx;
      })
      else none

-- idx[k] for k = off[d]; k < off[d + 1]
unfoldable pub prereqs_of : Prereqs → ℕ → List ℕ
prereqs_of p d = map p.idx (range (p.off d) (p.off (suc d) - p.off d))

-- st[i]
pub data Stage : Type 0 where
  waiting termed settled killed : Stage

abbrev pub is_settled : Stage → Bool
is_settled settled = true
is_settled _ = false

abbrev pub is_waiting : Stage → Bool
is_waiting waiting = true
is_waiting _ = false

abbrev pub is_termed : Stage → Bool
is_termed termed = true
is_termed _ = false

-- the arrays of stop_ordered, with the supervisor
pub record Stopping : Type 0 where
  pub sys : Sys
  pub st : ℕ → Stage
  pub waitc : ℕ → ℕ
  pub stop_at : ℕ → ℕ
  pub left : ℕ
  pub next : ℕ

-- what one round of the loop meets: the time, what reap() and drain_output() find, the time again
pub record Round : Type 0 where
  pub now : ℕ
  pub events : List Event
  pub later : ℕ

-- the loop over the prerequisites of a service that has settled
unfoldable pub drop_waits : List ℕ → (ℕ → ℕ) → ℕ → ℕ
drop_waits [] waitc = waitc
drop_waits (j ∷ js) waitc =
    drop_waits js (if waitc j == 0 then waitc else update waitc j (waitc j - 1))

module _ (g : Graph) (w : World) (p : Prereqs) where
  -- a service that has nothing to wait for is asked to stop
  unfoldable pub ask_stop : ℕ → ℕ → Stopping → Stopping
  ask_stop now i t = record t {
    sys = signal_group w i sigterm t.sys;
    st = update t.st i termed;
    stop_at = update t.stop_at i (now + stop_ms g i);
  }

  -- the rest of the body: SIGKILL when the time is over, and the soonest time of all
  unfoldable pub press_stop : ℕ → ℕ → Stopping → Stopping
  press_stop now i t =
      let t' =
        if is_termed (t.st i) && leb (t.stop_at i) now
        then record t { sys = signal_group w i sigkill t.sys; st = update t.st i killed }
        else t in
      if is_termed (t'.st i) && ltb (t'.stop_at i) t'.next
      then record t' { next = t'.stop_at i }
      else t'

  -- the body of the first loop of a round
  unfoldable pub signal_one : ℕ → ℕ → Stopping → Stopping
  signal_one now i t =
      if is_settled (t.st i) || not (t.waitc i == 0)
      then t
      else if is_waiting (t.st i)
      then (let t' = record t { sys = asked t.sys } in
          if svc_gone w i t.sys then t' else press_stop now i (ask_stop now i t'))
      else press_stop now i t

  unfoldable pub signal_all : ℕ → List ℕ → Stopping → Stopping
  signal_all now [] t = t
  signal_all now (i ∷ is) t = signal_all now is (signal_one now i t)

  -- the body of the second loop of a round
  unfoldable pub settle_one : ℕ → Stopping → Stopping
  settle_one i t =
      if is_settled (t.st i) || not (t.waitc i == 0)
      then t
      else let t' = record t { sys = asked t.sys } in
        if not (svc_gone w i t.sys) then t' else record t' {
          st = update t.st i settled;
          left = sub32 t.left 1;
          waitc = drop_waits (prereqs_of p i) t.waitc;
        }

  unfoldable pub settle_all : List ℕ → Stopping → Stopping
  settle_all [] t = t
  settle_all (i ∷ is) t = settle_all is (settle_one i t)

  -- one round of the `for` loop, up to its exits
  unfoldable pub stop_round : ℕ → Round → Stopping → Stopping
  stop_round deadline r t =
      let t1 = signal_all r.now (range 0 g.n_svc) (record t { next = deadline }) in
      let budgeted = record t1.sys { drain_left = drain_budget } in
      let t2 = record t1 { sys = handle_all g w r.events budgeted } in
      settle_all (range 0 g.n_svc) t2

  -- the loop: it ends when all have settled, and at the deadline
  unfoldable pub stop_rounds : ℕ → List Round → Stopping → Stopping
  stop_rounds deadline [] t = t
  stop_rounds deadline (r ∷ rs) t =
      let t' = stop_round deadline r t in
      let rest = stop_rounds deadline rs t' in
      if t'.left == 0 then t' else if leb deadline r.later then t' else rest

-- the services that are not gone when the stop begins
unfoldable pub count_live : World → List ℕ → Sys → ℕ × Sys
count_live w [] s = (0, s)
count_live w (i ∷ is) s =
    let (k, s') = count_live w is (asked s) in (if svc_gone w i s then k else k + 1, s')

abbrev pub stop_total_ms : ℕ
stop_total_ms = 30000

-- what stop_ordered sets up before its loop
abbrev pub stop_start : Graph → Sys → Stopping
stop_start g s = record {
  sys = s;
  st = λ i. waiting;
  waitc = λ i. g.rdep_off (i + 1) - g.rdep_off i;
  stop_at = λ i. 0;
  left = g.n_svc;
  next = 0;
}

-- stop_ordered behind its allocations
unfoldable pub stop_in_rounds : Graph → World → Prereqs → List Round → Sys → Option Stopping
stop_in_rounds g w p rs s =
    let (live, s') = count_live w (range 0 g.n_svc) s in
    if live == 0
    then none
    else let begun = asked s' in
      some (stop_rounds g w p (w.now s'.tick + stop_total_ms) rs (stop_start g begun))

-- stop_ordered, over the rounds that are given
unfoldable pub stop_ordered : Graph → World → List Round → Sys → Option Stopping
unfolding stop_in_rounds
stop_ordered g w rs s =
    if g.n_svc == 0
    then none
    else elim (build_prereqs g) [ none ↦ none | some p ↦ stop_in_rounds g w p rs s ]
