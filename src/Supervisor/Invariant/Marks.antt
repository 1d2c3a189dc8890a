-- ===== src/Supervisor/Invariant/Marks.antt =====
-- The counters under the marks of src/state.c.
use ninit.Prelude.{
  ℕ, ◌+◌, ◌≤◌, ◌<◌, ◌≡◌, Bool, true, false, arith, bit, update, tally, tally-le, tally-update,
  if_keeps,
}
use ninit.Graph.{Graph}
use ninit.Supervisor.Core.{
  St, pending, running, done, Core, is_pending, is_running, is_done, mark_done, mark_pending,
  mark_running, set_up,
}
use ninit.Supervisor.Invariant.Defs.{IsCounted, IsUpCounted}

module _ (g : Graph) (small : g.n_svc ≤ 8192) where
  -- one write of a state, as the three counts of states see it
  pub moved :
      (a : ℕ → St) (i : ℕ) (v : St)
      → i < g.n_svc
      → (tally is_running g.n_svc (update a i v) + bit (is_running (a i))
          ≡ tally is_running g.n_svc a + bit (is_running v))
        × (tally is_pending g.n_svc (update a i v) + bit (is_pending (a i))
            ≡ tally is_pending g.n_svc a + bit (is_pending v))
        × (tally is_done g.n_svc (update a i v) + bit (is_done (a i))
            ≡ tally is_done g.n_svc a + bit (is_done v))
        × (tally is_running g.n_svc (update a i v) ≤ g.n_svc)
        × (tally is_pending g.n_svc (update a i v) ≤ g.n_svc)
        × (tally is_done g.n_svc (update a i v) ≤ g.n_svc)
        × (tally is_running g.n_svc a ≤ g.n_svc)
        × (tally is_pending g.n_svc a ≤ g.n_svc)
        × (tally is_done g.n_svc a ≤ g.n_svc)
  moved a i v l = (
    tally-update is_running g.n_svc a i v l,
    tally-update is_pending g.n_svc a i v l,
    tally-update is_done g.n_svc a i v l,
    tally-le is_running g.n_svc (update a i v),
    tally-le is_pending g.n_svc (update a i v),
    tally-le is_done g.n_svc (update a i v),
    tally-le is_running g.n_svc a,
    tally-le is_pending g.n_svc a,
    tally-le is_done g.n_svc a,
  )

  module _ (c : Core) (i : ℕ) (l : i < g.n_svc) (h : IsCounted g c) where
    pub mark_done-IsCounted : IsCounted g (mark_done i c)
    unfolding mark_done
    mark_done-IsCounted = ground (arith, moved c.state i done l)

    pub mark_pending-IsCounted : IsCounted g (mark_pending i c)
    unfolding mark_pending
    mark_pending-IsCounted = ground (arith, moved c.state i pending l)

    -- spawn() leaves n_done alone, so a service that is DONE must have been marked PENDING before.
    pub mark_running-IsCounted : is_done (c.state i) ≡ false → IsCounted g (mark_running i c)
    unfolding mark_running
    mark_running-IsCounted e = ground (arith, moved c.state i running l)

  module _ (c : Core) (i : ℕ) (l : i < g.n_svc) (h : IsUpCounted g c) where
    pub set_up-IsUpCounted : (v : Bool) → IsUpCounted g (set_up i v c)
    unfolding set_up
    set_up-IsUpCounted true =
        if_keeps (IsUpCounted g) (c.up i) _ _ (λ _. h)
          (λ e.
            let change = tally-update (λ (b : Bool). b) g.n_svc c.up i true l in
            let most = tally-le (λ (b : Bool). b) g.n_svc (update c.up i true) in ground arith)
    set_up-IsUpCounted false =
        if_keeps (IsUpCounted g) (c.up i) _ _
          (λ e.
            let change = tally-update (λ (b : Bool). b) g.n_svc c.up i false l in
            let most = tally-le (λ (b : Bool). b) g.n_svc c.up in ground arith)
          (λ _. h)
