-- ===== src/Supervisor/Core.antt =====
-- The service states with their counters, the readiness flags and the unmet counts, and what
-- src/state.c and src/fail.c do to them. Arrays are functions of the service's index.
use ninit.Prelude.{
  ℕ, zero, suc, ◌+◌, ◌-◌, Bool, true, false, not, ◌&&◌, ◌||◌, List, [], ◌∷◌, ◌++◌, ◌==◌,
  if◌then◌else◌, update, inc32, sub32, inc16, range,
}
use ninit.Graph.{Graph, dependents, order_only, targets}

-- NG_ST_*
pub data St : Type 0 where
  pending running done failed skipped : St

abbrev pub is_pending : St → Bool
is_pending pending = true
is_pending _ = false

abbrev pub is_running : St → Bool
is_running running = true
is_running _ = false

abbrev pub is_done : St → Bool
is_done done = true
is_done _ = false

-- FAILED or SKIPPED: the service will not start by itself
abbrev pub is_lost : St → Bool
is_lost failed = true
is_lost skipped = true
is_lost _ = false

pub record Core : Type 0 where
  pub state : ℕ → St
  pub up : ℕ → Bool
  pub want : ℕ → Bool  -- 1 holds the service stopped
  pub unmet : ℕ → ℕ  -- uint16_t
  pub released : ℕ → Bool
  pub queue : List ℕ  -- queue[q_head .. q_tail)
  pub draining : Bool
  pub shutting_down : Bool
  pub n_active : ℕ  -- uint32_t, as the three below
  pub n_done : ℕ
  pub n_pending : ℕ
  pub n_up : ℕ

-- svc_mark_done, but for `starting`
unfoldable pub mark_done : ℕ → Core → Core
mark_done i c = record c {
  n_active = if is_running (c.state i) then sub32 c.n_active 1 else c.n_active;
  n_pending = if is_pending (c.state i) then sub32 c.n_pending 1 else c.n_pending;
  state = update c.state i done;
  n_done = if is_done (c.state i) then c.n_done else inc32 c.n_done;
}

-- svc_mark_pending
unfoldable pub mark_pending : ℕ → Core → Core
mark_pending i c = if is_pending (c.state i) then c else record c {
  n_active = if is_running (c.state i) then sub32 c.n_active 1 else c.n_active;
  n_done = if is_done (c.state i) then sub32 c.n_done 1 else c.n_done;
  state = update c.state i pending;
  n_pending = inc32 c.n_pending;
}

-- what spawn() does before it calls launch()
unfoldable pub mark_running : ℕ → Core → Core
mark_running i c = if is_running (c.state i) then c else record c {
  n_pending = if is_pending (c.state i) then sub32 c.n_pending 1 else c.n_pending;
  state = update c.state i running;
  n_active = inc32 c.n_active;
}

-- svc_set_up
unfoldable pub set_up : ℕ → Bool → Core → Core
set_up i true c = if c.up i then c else record c { up = update c.up i true; n_up = inc32 c.n_up }
set_up i false c =
    if c.up i then record c { up = update c.up i false; n_up = sub32 c.n_up 1 } else c

-- released[i] = flag
abbrev pub set_released : ℕ → Bool → Core → Core
set_released i flag c = record c { released = update c.released i flag }

-- the state of svc_reclaim's loop: rqueue[rh .. rt) is still to be read
pub record Reclaiming : Type 0 where
  pub core : Core
  pub rqueue : List ℕ

module _ (g : Graph) where
  -- the body of the loop over the dependents of one service
  unfoldable pub reclaim_edge : ℕ → Reclaiming → Reclaiming
  reclaim_edge d w =
      let c = record w.core { unmet = update w.core.unmet d (inc16 (w.core.unmet d)) } in
      if targets g d && c.released d && not (order_only g d)
      then record { core = set_up d false (set_released d false c); rqueue = w.rqueue ++ d ∷ [] }
      else record w { core = c }

  unfoldable pub reclaim_edges : List ℕ → Reclaiming → Reclaiming
  reclaim_edges [] w = w
  reclaim_edges (d ∷ ds) w = reclaim_edges ds (reclaim_edge d w)

  -- the `while` loop, which takes one service off the queue in each round
  unfoldable pub reclaim_loop : ℕ → Reclaiming → Reclaiming
  reclaim_loop zero w = w
  reclaim_loop (suc fuel) w = elim w.rqueue [
    | [] ↦ w
    | j ∷ rest ↦ reclaim_loop fuel (reclaim_edges (dependents g j) (record w { rqueue = rest }))
  ]

  -- svc_reclaim
  unfoldable pub reclaim : ℕ → Core → Core
  reclaim i c =
      if not (c.released i) || order_only g i
      then c
      else (reclaim_loop g.n_svc (record { core = set_released i false c; rqueue = i ∷ [] })).core

  unfoldable pub go_down : ℕ → Core → Core
  go_down i c = if not (c.up i) && not (c.released i) then c else reclaim i (set_up i false c)

-- what fail_poison and fail_poison_deps write: the states and their three counts
pub record Spread : Type 0 where
  pub states : ℕ → St
  pub count : ℕ
  pub undone : ℕ
  pub waiting : ℕ

module _ (g : Graph) (up : ℕ → Bool) (idle : ℕ → Bool) where
  -- poison_take: `idle d` says that d has a restart time and no process
  unfoldable pub poison_take : (ℕ → St) → ℕ → Bool
  poison_take states d = elim (states d) [
    | pending ↦ true
    | running ↦ idle d
    | done ↦ targets g d && not (up d)
    | _ ↦ false
  ]

  -- the body of the loop over the dependents of one service
  unfoldable pub poison_edge : ℕ → Spread → Spread
  unfolding poison_take
  poison_edge d p =
      if poison_take p.states d
      then record {
        states = update p.states d skipped;
        count = if is_done (p.states d) then p.count else inc32 p.count;
        undone = if is_done (p.states d) then inc32 p.undone else p.undone;
        waiting = if is_running (p.states d) then inc32 p.waiting else p.waiting;
      }
      else p

  unfoldable pub poison_edges : List ℕ → Spread → Spread
  poison_edges [] p = p
  poison_edges (d ∷ ds) p = poison_edges ds (poison_edge d p)

  -- poison_spread, over the services that are left of `from .. n`
  unfoldable pub poison_spread : List ℕ → Spread → Spread
  poison_spread [] p = p
  poison_spread (j ∷ js) p =
      poison_spread js (if is_lost (p.states j) then poison_edges (dependents g j) p else p)

abbrev pub fresh_spread : (ℕ → St) → Spread
fresh_spread states = record { states = states; count = 0; undone = 0; waiting = 0 }

-- the counters that skipped_note adjusts
unfoldable pub note_counts : Spread → Core → Core
note_counts p c = record c {
  state = p.states;
  n_pending = sub32 c.n_pending (sub32 p.count p.waiting);
  n_active = sub32 c.n_active p.waiting;
  n_done = sub32 c.n_done p.undone;
}

-- the first lines of poison()
unfoldable pub leave_counts : ℕ → Core → Core
leave_counts i c = record c {
  n_active = if is_running (c.state i) then sub32 c.n_active 1 else c.n_active;
  n_pending = if is_pending (c.state i) then sub32 c.n_pending 1 else c.n_pending;
}

module _ (g : Graph) (idle : ℕ → Bool) where
  unfoldable pub fail_poison : ℕ → Core → Spread
  fail_poison i c =
      poison_spread g c.up idle (range i (g.n_svc - i)) (fresh_spread (update c.state i failed))

  unfoldable pub fail_poison_deps : ℕ → Core → Spread
  fail_poison_deps i c =
      let p = poison_edges g c.up idle (dependents g i) (fresh_spread c.state) in
      if p.count == 0 && p.undone == 0
      then p
      else poison_spread g c.up idle (range (i + 1) (g.n_svc - (i + 1))) p

  -- poison(), but for the restart times that skipped_note clears
  unfoldable pub poison : ℕ → Core → Core
  unfolding leave_counts
  poison i c = let down = go_down g i (leave_counts i c) in note_counts (fail_poison i down) down

  -- poison_deps(), likewise
  unfoldable pub poison_deps : ℕ → Core → Core
  poison_deps i c = if order_only g i then c else note_counts (fail_poison_deps i c) c
