-- ===== src/Supervisor/Invariant/Fail.antt =====
-- poison and poison_deps keep the invariant (src/state.c, src/fail.c).
use ninit.Prelude.{ℕ, ◌<◌, ◌≡◌, refl, ap, Bool, false, arith, if_keeps, update, tally}
use ninit.Graph.{Graph, IsWellFormed, order_only}
use ninit.Supervisor.Core.{
  failed, Core, is_running, is_pending, is_done, leave_counts, poison, poison_deps, go_down,
}
use ninit.Supervisor.Invariant.Defs.{IsCounted, IsSound}
use ninit.Supervisor.Invariant.Marks.{moved}
use ninit.Supervisor.Invariant.GoDown.{go_down-IsFlagged}
use ninit.Supervisor.Invariant.Sound.{Marks, flags, go_down-marks, IsFlagged-of_flags}
use ninit.Supervisor.Invariant.Poison.{
  fail_poison-StartsFrom, fail_poison_deps-StartsFrom, note_counts-IsCounted, note_counts-flags,
}

module _ (g : Graph) (wf : IsWellFormed g) (extra : ℕ → ℕ) (idle : ℕ → Bool) (i : ℕ)
    (c : Core) where
  leave_counts-flags : flags (leave_counts i c) ≡ flags c
  unfolding leave_counts
  leave_counts-flags = refl

  -- After the first lines of poison() the counters fit the states with i marked FAILED.
  leave_counts-fits :
      i < g.n_svc
      → is_done (c.state i) ≡ false
      → IsCounted g c
      → let a = update c.state i failed in
        ((leave_counts i c).n_active ≡ tally is_running g.n_svc a)
        × ((leave_counts i c).n_pending ≡ tally is_pending g.n_svc a)
        × ((leave_counts i c).n_done ≡ tally is_done g.n_svc a)
  unfolding leave_counts
  leave_counts-fits l e h =
      let small = wf.small in ground (arith, moved g wf.small c.state i failed l)

  -- poison() of a service of a well-formed graph that is not DONE keeps the invariant.
  pub poison-IsSound :
      i < g.n_svc
      → is_done (c.state i) ≡ false
      → IsSound g extra c
      → IsSound g extra (poison g idle i c)
  unfolding poison
  poison-IsSound l e h =
      let c1 = leave_counts i c in
      let down = go_down g i c1 in
      let same = go_down-marks g i c1 in
      let (active, pending, done) = leave_counts-fits l e h.counted in
      record {
        counted =
            note_counts-IsCounted g wf idle i down (update down.state i failed) _
              (fail_poison-StartsFrom g wf idle i down l)
              (omega (
                arith,
                active,
                ap (λ (m : Marks). m.active) same,
                ap (λ (m : Marks). tally is_running g.n_svc (update m.states i failed)) same,
              ))
              (omega (
                arith,
                pending,
                ap (λ (m : Marks). m.pending) same,
                ap (λ (m : Marks). tally is_pending g.n_svc (update m.states i failed)) same,
              ))
              (omega (
                arith,
                done,
                ap (λ (m : Marks). m.done) same,
                ap (λ (m : Marks). tally is_done g.n_svc (update m.states i failed)) same,
              ));
        flagged = IsFlagged-of_flags g extra down _ (note_counts-flags g wf idle i down _) (
            go_down-IsFlagged g wf extra i c1 l
              (IsFlagged-of_flags g extra c c1 leave_counts-flags h.flagged));
      }

  pub poison_deps-IsSound :
      i < g.n_svc → IsSound g extra c → IsSound g extra (poison_deps g idle i c)
  unfolding poison_deps
  poison_deps-IsSound l h =
      if_keeps (IsSound g extra) (order_only g i) _ _ (λ _. h)
        (λ _. record {
          counted =
              note_counts-IsCounted g wf idle i c c.state _
                (fail_poison_deps-StartsFrom g wf idle i c l) h.counted.active h.counted.pending
                h.counted.done;
          flagged = IsFlagged-of_flags g extra c _ (note_counts-flags g wf idle i c _) h.flagged;
        })
