-- ===== src/Supervisor/Invariant/Sound.antt =====
-- The marks and go_down keep the invariant as a whole (src/state.c).
use ninit.Prelude.{
  ℕ, zero, suc, ◌+◌, ◌%◌, ◌<◌, ◌≡◌, ◌⊎◌, refl, ap, sym, subst, ◌∙◌, All, List-cases, Bool, true,
  false, not, ◌&&◌, ◌||◌, List, [], ◌∷◌, arith, tally, if_keeps, inl, inr,
}
use ninit.Graph.{Graph, IsWellFormed, dependents, order_only, targets}
use ninit.Supervisor.Core.{
  St, Core, is_running, is_pending, is_done, mark_done, mark_pending, mark_running, set_up,
  Reclaiming, reclaim_edge, reclaim_edges, reclaim_loop, reclaim, go_down,
}
use ninit.Supervisor.Invariant.Defs.{unreleased, owing, IsCounted, IsFlagged, IsSound}
use ninit.Supervisor.Invariant.Marks.{
  mark_done-IsCounted, mark_pending-IsCounted, mark_running-IsCounted,
}
use ninit.Supervisor.Invariant.GoDown.{go_down-IsFlagged}

-- the states and the counters of them
pub record Marks : Type 0 where
  pub states : ℕ → St
  pub active : ℕ
  pub done : ℕ
  pub pending : ℕ

abbrev pub marks : Core → Marks
marks c = record { states = c.state; active = c.n_active; done = c.n_done; pending = c.n_pending }

module _ (g : Graph) where
  pub set_up-marks : (i : ℕ) (v : Bool) (c : Core) → marks (set_up i v c) ≡ marks c
  unfolding set_up
  set_up-marks i true c = if_keeps (λ k. marks k ≡ marks c) (c.up i) _ _ (λ _. refl) (λ _. refl)
  set_up-marks i false c = if_keeps (λ k. marks k ≡ marks c) (c.up i) _ _ (λ _. refl) (λ _. refl)

  edge-marks : (d : ℕ) (w : Reclaiming) → marks (reclaim_edge g d w).core ≡ marks w.core
  unfolding reclaim_edge
  edge-marks d w =
      if_keeps (λ (k : Reclaiming). marks k.core ≡ marks w.core)
        (targets g d && w.core.released d && not (order_only g d)) _ _ (λ _. set_up-marks d false _)
        (λ _. refl)

  edges-marks : (ds : List ℕ) (w : Reclaiming) → marks (reclaim_edges g ds w).core ≡ marks w.core
  unfolding reclaim_edges
  edges-marks [] w = refl
  edges-marks (d ∷ ds) w = edges-marks ds (reclaim_edge g d w) ∙ edge-marks d w

  loop-marks : (fuel : ℕ) (w : Reclaiming) → marks (reclaim_loop g fuel w).core ≡ marks w.core
  unfolding reclaim_loop
  loop-marks zero w = refl
  loop-marks (suc fuel) w = elim (List-cases w.rqueue) [
    | inl e ↦ rw (e, reclaim_loop) refl
    | inr (j, rest, e) ↦
        let w' = record w { rqueue = rest } in
        rw (e, reclaim_loop)
          (loop-marks fuel (reclaim_edges g (dependents g j) w') ∙ edges-marks (dependents g j) w')
  ]

  pub go_down-marks : (i : ℕ) (c : Core) → marks (go_down g i c) ≡ marks c
  unfolding go_down reclaim
  go_down-marks i c =
      if_keeps (λ k. marks k ≡ marks c) (not (c.up i) && not (c.released i)) _ _ (λ _. refl)
        (λ _.
          if_keeps (λ k. marks k ≡ marks c) (not ((set_up i false c).released i) || order_only g i)
            _ _ (λ _. set_up-marks i false c) (λ _. loop-marks g.n_svc _ ∙ set_up-marks i false c))

  pub IsCounted-of_marks : (c c' : Core) → marks c' ≡ marks c → IsCounted g c → IsCounted g c'
  IsCounted-of_marks c c' e h = record {
    active = omega (
      arith,
      ap (λ (m : Marks). m.active) e,
      ap (λ (m : Marks). tally is_running g.n_svc m.states) e,
      h.active,
    );
    pending = omega (
      arith,
      ap (λ (m : Marks). m.pending) e,
      ap (λ (m : Marks). tally is_pending g.n_svc m.states) e,
      h.pending,
    );
    done = omega (
      arith,
      ap (λ (m : Marks). m.done) e,
      ap (λ (m : Marks). tally is_done g.n_svc m.states) e,
      h.done,
    );
  }

-- the flags with their counter, the unmet counts and the release queue
pub record Flags : Type 0 where
  pub up : ℕ → Bool
  pub released : ℕ → Bool
  pub unmet : ℕ → ℕ
  pub queue : List ℕ
  pub n_up : ℕ

abbrev pub flags : Core → Flags
flags c = record {
  up = c.up;
  released = c.released;
  unmet = c.unmet;
  queue = c.queue;
  n_up = c.n_up;
}

pub IsFlagged-of_flags :
    (g : Graph) (extra : ℕ → ℕ) (c c' : Core)
    → flags c' ≡ flags c
    → IsFlagged g extra c
    → IsFlagged g extra c'
IsFlagged-of_flags g extra c c' e h = record {
  ups = record {
    ups = subst (λ (m : Flags). m.n_up ≡ tally (λ b. b) g.n_svc m.up) (sym e) h.ups.ups;
  };
  ready = record {
    up_released = λ i.
        subst (λ (m : Flags). m.up i ≡ true → m.released i ≡ true) (sym e) (h.ready.up_released i);
    released_up = λ i.
        subst (λ (m : Flags). m.released i ≡ true → (m.up i ≡ true) ⊎ (order_only g i ≡ true))
          (sym e) (h.ready.released_up i);
  };
  linked = record {
    fits = λ d l. subst (λ (m : Flags). m.unmet d < 65536) (sym e) (h.linked.fits d l);
    queued = subst (λ (m : Flags). All (λ j. j < g.n_svc) m.queue) (sym e) h.linked.queued;
    linked = λ d l.
        subst
          (λ (m : Flags).
            (m.unmet d + 0) % 65536
            ≡ (unreleased g m.released d + owing g m.queue d + extra d) % 65536)
          (sym e) (h.linked.linked d l);
  };
}

module _ (g : Graph) (wf : IsWellFormed g) (extra : ℕ → ℕ) (i : ℕ) (c : Core) where
  -- go_down() of a service of a well-formed graph keeps the invariant.
  pub go_down-IsSound : i < g.n_svc → IsSound g extra c → IsSound g extra (go_down g i c)
  go_down-IsSound l h = record {
    counted = IsCounted-of_marks g c _ (go_down-marks g i c) h.counted;
    flagged = go_down-IsFlagged g wf extra i c l h.flagged;
  }

  pub mark_done-flags : flags (mark_done i c) ≡ flags c
  unfolding mark_done
  mark_done-flags = refl

  pub mark_pending-flags : flags (mark_pending i c) ≡ flags c
  unfolding mark_pending
  mark_pending-flags =
      if_keeps (λ k. flags k ≡ flags c) (is_pending (c.state i)) _ _ (λ _. refl) (λ _. refl)

  pub mark_running-flags : flags (mark_running i c) ≡ flags c
  unfolding mark_running
  mark_running-flags =
      if_keeps (λ k. flags k ≡ flags c) (is_running (c.state i)) _ _ (λ _. refl) (λ _. refl)

  pub mark_done-IsSound : i < g.n_svc → IsSound g extra c → IsSound g extra (mark_done i c)
  mark_done-IsSound l h = record {
    counted = mark_done-IsCounted g wf.small c i l h.counted;
    flagged = IsFlagged-of_flags g extra c _ mark_done-flags h.flagged;
  }

  pub mark_pending-IsSound : i < g.n_svc → IsSound g extra c → IsSound g extra (mark_pending i c)
  mark_pending-IsSound l h = record {
    counted = mark_pending-IsCounted g wf.small c i l h.counted;
    flagged = IsFlagged-of_flags g extra c _ mark_pending-flags h.flagged;
  }

  pub mark_running-IsSound :
      i < g.n_svc
      → is_done (c.state i) ≡ false
      → IsSound g extra c
      → IsSound g extra (mark_running i c)
  mark_running-IsSound l e h = record {
    counted = mark_running-IsCounted g wf.small c i l h.counted e;
    flagged = IsFlagged-of_flags g extra c _ mark_running-flags h.flagged;
  }
