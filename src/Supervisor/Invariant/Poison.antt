-- ===== src/Supervisor/Invariant/Poison.antt =====
-- poison and poison_deps (src/state.c) over the spread of a failure (src/fail.c).
use ninit.Prelude.{
  range-below, ℕ, ◌+◌, ◌-◌, ◌≤◌, ◌<◌, ◌≡◌, refl, Bool, ◌&&◌, ◌==◌, List, [], ◌∷◌, arith, All,
  if_keeps, tally, tally-le, update,
}
use ninit.Graph.{Graph, IsWellFormed, dependents}
use ninit.Supervisor.Core.{
  St, skipped, failed, Core, is_running, is_pending, is_done, is_lost, Spread, poison_edge,
  poison_edges, poison_spread, fresh_spread, fail_poison, fail_poison_deps, note_counts,
}
use ninit.Supervisor.Invariant.Defs.{IsCounted}
use ninit.Supervisor.Invariant.Marks.{moved}
use ninit.Supervisor.Invariant.Reclaim.{dependents-below}
use ninit.Supervisor.Invariant.Sound.{flags}

module _ (g : Graph) (wf : IsWellFormed g) (up idle : ℕ → Bool) (r p d : ℕ) where
  -- The counts of a spread account for every state that it changed, from r RUNNING, p PENDING and
  -- d DONE services at its start.
  pub record IsSpread (s : Spread) : Type 0 where
    pub runs : tally is_running g.n_svc s.states + s.waiting ≡ r
    pub pends : tally is_pending g.n_svc s.states + s.count ≡ p + s.waiting
    pub dones : tally is_done g.n_svc s.states + s.undone ≡ d
    pub within : s.waiting ≤ s.count

  module _ (hr : r ≤ g.n_svc) (hp : p ≤ g.n_svc) (hd : d ≤ g.n_svc) where
    poison_edge-IsSpread :
        (i : ℕ) (s : Spread) → i < g.n_svc → IsSpread s → IsSpread (poison_edge g up idle i s)
    unfolding poison_edge
    poison_edge-IsSpread i s l h =
        let small = wf.small in ground (arith, moved g wf.small s.states i skipped l)

    poison_edges-IsSpread :
        (ds : List ℕ) (s : Spread)
        → All (λ i. i < g.n_svc) ds
        → IsSpread s
        → IsSpread (poison_edges g up idle ds s)
    unfolding poison_edges
    poison_edges-IsSpread [] s l h = h
    poison_edges-IsSpread (i ∷ ds) s l h =
        poison_edges-IsSpread ds (poison_edge g up idle i s) l.1 (poison_edge-IsSpread i s l.0 h)

    poison_spread-IsSpread :
        (js : List ℕ) (s : Spread)
        → All (λ i. i < g.n_svc) js
        → IsSpread s
        → IsSpread (poison_spread g up idle js s)
    unfolding poison_spread
    poison_spread-IsSpread [] s l h = h
    poison_spread-IsSpread (j ∷ js) s l h = poison_spread-IsSpread js _ l.1 (
        if_keeps IsSpread (is_lost (s.states j)) _ _
          (λ _. poison_edges-IsSpread (dependents g j) s (dependents-below g wf (λ _. 0) j l.0) h)
          (λ _. h))

module _ (g : Graph) (wf : IsWellFormed g) (idle : ℕ → Bool) (i : ℕ) (c : Core) where
  abbrev pub StartsFrom : (ℕ → St) → Spread → Type 0
  StartsFrom a =
      IsSpread g wf c.up idle (tally is_running g.n_svc a) (tally is_pending g.n_svc a)
        (tally is_done g.n_svc a)

  fresh-StartsFrom : (a : ℕ → St) → StartsFrom a (fresh_spread a)
  fresh-StartsFrom a = record {
    runs = omega arith;
    pends = omega arith;
    dones = omega arith;
    within = omega arith;
  }

  spread-StartsFrom :
      (a : ℕ → St) (js : List ℕ) (s : Spread)
      → All (λ j. j < g.n_svc) js
      → StartsFrom a s
      → StartsFrom a (poison_spread g c.up idle js s)
  spread-StartsFrom a js s =
      poison_spread-IsSpread g wf c.up idle (tally is_running g.n_svc a)
        (tally is_pending g.n_svc a) (tally is_done g.n_svc a) (tally-le is_running g.n_svc a)
        (tally-le is_pending g.n_svc a) (tally-le is_done g.n_svc a) js s

  pub fail_poison-StartsFrom :
      i < g.n_svc → StartsFrom (update c.state i failed) (fail_poison g idle i c)
  unfolding fail_poison
  fail_poison-StartsFrom l =
      spread-StartsFrom _ _ _ (range-below g.n_svc i (g.n_svc - i) (omega arith))
        (fresh-StartsFrom _)

  pub fail_poison_deps-StartsFrom : i < g.n_svc → StartsFrom c.state (fail_poison_deps g idle i c)
  unfolding fail_poison_deps
  fail_poison_deps-StartsFrom l =
      let p = poison_edges g c.up idle (dependents g i) (fresh_spread c.state) in
      let edges : StartsFrom c.state p =
        poison_edges-IsSpread g wf c.up idle _ _ _ (tally-le is_running g.n_svc c.state)
          (tally-le is_pending g.n_svc c.state) (tally-le is_done g.n_svc c.state) (dependents g i)
          _ (dependents-below g wf (λ _. 0) i l) (fresh-StartsFrom c.state) in
      if_keeps (StartsFrom c.state) (p.count == 0 && p.undone == 0) _ _ (λ _. edges)
        (λ _.
          spread-StartsFrom c.state _ p
            (range-below g.n_svc (i + 1) (g.n_svc - (i + 1)) (omega arith)) edges)

  -- skipped_note's arithmetic turns counters that fit `a` into counters that fit the spread.
  pub note_counts-IsCounted :
      (a : ℕ → St) (s : Spread)
      → StartsFrom a s
      → c.n_active ≡ tally is_running g.n_svc a
      → c.n_pending ≡ tally is_pending g.n_svc a
      → c.n_done ≡ tally is_done g.n_svc a
      → IsCounted g (note_counts s c)
  unfolding note_counts
  note_counts-IsCounted a s h ea ep ed =
      let small = wf.small in
      let runs = tally-le is_running g.n_svc a in
      let pends = tally-le is_pending g.n_svc a in
      let dones = tally-le is_done g.n_svc a in
      record { active = omega arith; pending = omega arith; done = omega arith }

  pub note_counts-flags : (s : Spread) → flags (note_counts s c) ≡ flags c
  unfolding note_counts
  note_counts-flags s = refl
