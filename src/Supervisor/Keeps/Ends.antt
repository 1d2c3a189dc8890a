-- ===== src/Supervisor/Keeps/Ends.antt =====
-- complete() leaves no service in the release queue (src/state.c).
use ninit.Prelude.{
  ℕ, zero, suc, ◌+◌, ◌≤◌, ◌<◌, ◌≡◌, inl, inr, refl, ap, subst, true, false, not, ◌||◌, List, [],
  ◌∷◌, ◌++◌, ◌==◌, arith, All, length, nil_of_length, List-cases, if_keeps, tally-le,
}
use native.Mathlib.Nat.{mul-le-mul_right}
use ninit.Graph.{Graph, IsWellFormed, dependents, targets}
use ninit.Supervisor.Core.{Core, is_pending, set_up, mark_done}
use ninit.Supervisor.Invariant.Defs.{IsResting}
use ninit.Supervisor.Invariant.Reclaim.{dependents-below}
use ninit.Supervisor.Sys.{Sys, World}
use ninit.Supervisor.Release.{
  enqueue, meet, svc_mark_done, release_edge, release_edges, release_loop, release_rounds,
  svc_release, complete,
}
use ninit.Supervisor.Keeps.Starts.{Good}
use ninit.Supervisor.Keeps.Releases.{release_round-Good, flag-IsSound, raised, raised-IsSound}
use ninit.Supervisor.Keeps.Drains.{rounds_left, Cheap, service-Cheap, target-Cheap}

module _ (g : Graph) (wf : IsWellFormed g) (w : World) where
  edges-Cheap : (ds : List ℕ) → All (λ d. d < g.n_svc) ds → Cheap g (release_edges g w ds)
  unfolding release_edges release_edge
  edges-Cheap [] l s = omega arith
  edges-Cheap (d ∷ ds) l s =
      let s' : Sys = record s { core = meet d s.core } in
      let stay : rounds_left g s'.core ≤ rounds_left g s.core = omega arith in
      let first : rounds_left g (release_edge g w d s).core ≤ rounds_left g s.core =
        if_keeps (λ (t : Sys). rounds_left g t.core ≤ rounds_left g s.core)
          (not (s'.core.unmet d == 0) || s'.core.want d) _ _ (λ _. stay)
          (λ _.
            if_keeps (λ (t : Sys). rounds_left g t.core ≤ rounds_left g s.core) (targets g d) _ _
              (λ _. target-Cheap g w d l.0 s') (λ _. service-Cheap g w d l.0 s')) in
      omega (arith, first, edges-Cheap ds l.1 (release_edge g w d s))

  abbrev Fine : Sys → Type 0
  Fine s = Good g wf w (λ _. 0) s

  -- Each round takes a service off the queue for good, or starts one that was PENDING: with as many
  -- rounds as that leaves, the release loop ends, and its queue is empty.
  pub release_loop-ends :
      (fuel : ℕ) (s : Sys)
      → Good g wf w (λ _. 0) s
      → rounds_left g s.core ≤ fuel
      → (release_loop g w fuel s).core.queue ≡ []
  unfolding release_loop
  release_loop-ends zero s h l = nil_of_length s.core.queue (omega arith)
  release_loop-ends (suc fuel) s h l = elim (List-cases s.core.queue) [
    | inl e ↦ rw (e, release_loop) e
    | inr (j, rest, e) ↦
        let below = (subst (All (λ i. i < g.n_svc)) e h.flagged.linked.queued).0 in
        let s' : Sys = record s { core = record s.core { queue = rest } } in
        let cheap = edges-Cheap (dependents g j) (dependents-below g wf (λ _. 0) j below) s' in
        let long = ap (λ (q : List ℕ). length q) e in
        rw (e, release_loop)
          (release_loop-ends fuel _ (release_round-Good g wf w (λ _. 0) j rest s e h)
            (omega (arith, cheap, long)))
  ]

  -- the rounds that the model allows are enough
  enough : (c : Core) → length c.queue ≡ 1 → rounds_left g c ≤ release_rounds g w
  enough c one =
      let waiting = tally-le is_pending g.n_svc c.state in
      let held = tally-le not g.n_svc c.released in
      let scaled = mul-le-mul_right (g.n_svc + 1) waiting in omega arith

  -- complete() of a service ends with the release queue empty and the loop left, where it was
  -- called outside of the loop.
  pub complete-IsResting :
      (i : ℕ) (s : Sys)
      → i < g.n_svc
      → Good g wf w (λ _. 0) s
      → IsResting s.core
      → IsResting (complete g w i s).core
  unfolding complete svc_release svc_mark_done mark_done set_up
  complete-IsResting i s l h idle =
      let up = raised g wf w (λ _. 0) i s.core in
      let queue : up.queue ≡ [] =
        if_keeps (λ (k : Core). k.queue ≡ []) (s.core.up i) _ _ (λ _. idle.0) (λ _. idle.0) in
      let calm : up.draining ≡ false =
        if_keeps (λ (k : Core). k.draining ≡ false) (s.core.up i) _ _ (λ _. idle.1) (λ _. idle.1) in
      if_keeps (λ (t : Sys). IsResting t.core) (up.released i) _ _ (λ _. (queue, calm))
        (λ e.
          let queued = raised-IsSound g wf w (λ _. 0) i l s.core e h in
          if_keeps (λ (t : Sys). IsResting t.core) up.draining _ _
            (λ d. absurd (ground (arith, d, calm)))
            (λ _. (
              release_loop-ends (release_rounds g w) _ (flag-IsSound g wf w (λ _. 0) _ true queued)
                  (enough (enqueue i up) (ap (λ (q : List ℕ). length (q ++ i ∷ [])) queue)),
              refl,
            )))
