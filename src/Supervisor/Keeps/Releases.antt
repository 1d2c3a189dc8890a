-- ===== src/Supervisor/Keeps/Releases.antt =====
-- complete() with its release loop keeps the invariant (src/state.c).
use ninit.Prelude.{
  ℕ, zero, suc, ◌+◌, ◌<◌, ◌≡◌, refl, ap, sym, subst, fun_ext, ◌∙◌, Bool, true, false, not, ◌&&◌,
  ◌||◌, List, [], ◌∷◌, ◌==◌, arith, All, List-cases, Bool-cases, inl, inr, if_keeps, if◌then◌else◌,
  count,
}
use ninit.Graph.{Graph, IsWellFormed, dependents, targets}
use ninit.Supervisor.Core.{Core, St, pending, done, is_done, set_up, mark_done}
use ninit.Supervisor.Invariant.Defs.{IsSound}
use ninit.Supervisor.Invariant.Reclaim.{dependents-below}
use ninit.Supervisor.Invariant.Raise.{
  raise_target-IsSound, raise_service-IsSound, raise_again-IsSound, meet-IsSound, pop-IsSound,
  released-set_up-true,
}
use ninit.Supervisor.Invariant.Sound.{IsFlagged-of_flags, mark_done-flags}
use ninit.Supervisor.Sys.{Sys, World}
use ninit.Supervisor.Live.{live_add, live_has}
use ninit.Supervisor.Release.{
  enqueue, meet, svc_mark_done, release_target, restart_now, release_service, release_edge,
  release_edges, release_loop, release_rounds, svc_release, complete,
}
use ninit.Supervisor.Keeps.Cores.{SameCore, live_add-core}
use ninit.Supervisor.Keeps.Starts.{Good, Good_of_core, svc_try_start-Good}

pub restart_now-core : (g : Graph) (w : World) (d : ℕ) (s : Sys) → SameCore s (restart_now g w d s)
unfolding restart_now
restart_now-core g w d s =
    let s' : Sys = if live_has d s then s else live_add d s in
    let same : SameCore s s' =
      if_keeps (SameCore s) (live_has d s) _ _ (λ _. refl) (λ _. live_add-core d s) in
    if_keeps (SameCore s) ((s'.runs d).restart_at == 0) _ _ (λ _. same) (λ _. same)

module _ (g : Graph) (wf : IsWellFormed g) (w : World) (extra : ℕ → ℕ) where
  module _ (d : ℕ) (l : d < g.n_svc) where
    release_target-Good :
        (s : Sys) → Good g wf w extra s → Good g wf w extra (release_target g w d s)
    unfolding release_target svc_mark_done
    release_target-Good s h = elim (Bool-cases (s.core.released d)) [
      | inl e ↦ rw e h
      | inr e ↦ rw e (raise_target-IsSound g wf extra d l s.core e h)
    ]

    release_service-Good :
        (s : Sys) → Good g wf w extra s → Good g wf w extra (release_service g w d s)
    unfolding release_service
    release_service-Good s h = go (s.core.state d) refl
      where
        go : (x : St) → s.core.state d ≡ x → Good g wf w extra (release_service g w d s)
        go pending e =
            rw (e, release_service) (svc_try_start-Good g wf w extra d l s (ap is_done e) h)
        go done e =
            rw (e, release_service)
              (if_keeps (Good g wf w extra) (not (s.core.up d) && (g.svcs d).restart) _ _
                (λ _. Good_of_core g wf w extra (restart_now-core g w d s) h) (λ _. h))
        go St.running e = rw (e, release_service) h
        go St.failed e = rw (e, release_service) h
        go St.skipped e = rw (e, release_service) h

module _ (g : Graph) (wf : IsWellFormed g) (w : World) (extra : ℕ → ℕ) where
  release_edge-Good :
      (d : ℕ) (ds : List ℕ) (s : Sys)
      → d < g.n_svc
      → Good g wf w (λ e. count e (d ∷ ds) + extra e) s
      → Good g wf w (λ e. count e ds + extra e) (release_edge g w d s)
  unfolding release_edge
  release_edge-Good d ds s l h =
      let rest = λ (e : ℕ). count e ds + extra e in
      let s' : Sys = record s { core = meet d s.core } in
      let met : Good g wf w rest s' = meet-IsSound g wf extra d ds s.core h in
      if_keeps (Good g wf w rest) (not (s'.core.unmet d == 0) || s'.core.want d) _ _ (λ _. met)
        (λ _.
          if_keeps (Good g wf w rest) (targets g d) _ _
            (λ _. release_target-Good g wf w rest d l s' met)
            (λ _. release_service-Good g wf w rest d l s' met))

  release_edges-Good :
      (ds : List ℕ) (s : Sys)
      → All (λ d. d < g.n_svc) ds
      → Good g wf w (λ e. count e ds + extra e) s
      → Good g wf w (λ e. count e [] + extra e) (release_edges g w ds s)
  unfolding release_edges
  release_edges-Good [] s l h = h
  release_edges-Good (d ∷ ds) s l h =
      release_edges-Good ds (release_edge g w d s) l.1 (release_edge-Good d ds s l.0 h)

  count-none : {c : Core} → IsSound g (λ e. count e [] + extra e) c → IsSound g extra c
  count-none {c} h = subst (λ x. IsSound g x c) (fun_ext λ e. none e (extra e)) h
    where
      none : (e k : ℕ) → count e [] + k ≡ k
      none e k = unfold count in omega arith

  -- One round of the loop, for the service at the head of the queue.
  pub release_round-Good :
      (j : ℕ) (rest : List ℕ) (s : Sys)
      → s.core.queue ≡ j ∷ rest
      → Good g wf w extra s
      → Good g wf w extra
          (release_edges g w (dependents g j) (record s { core = record s.core { queue = rest } }))
  release_round-Good j rest s e h =
      let below = (subst (All (λ i. i < g.n_svc)) e h.flagged.linked.queued).0 in
      count-none (
        release_edges-Good (dependents g j) (record s { core = record s.core { queue = rest } })
          (dependents-below g wf (λ _. 0) j below) (pop-IsSound g wf extra j rest s.core e h))

  release_loop-Good :
      (fuel : ℕ) (s : Sys) → Good g wf w extra s → Good g wf w extra (release_loop g w fuel s)
  unfolding release_loop
  release_loop-Good zero s h = h
  release_loop-Good (suc fuel) s h = elim (List-cases s.core.queue) [
    | inl e ↦ rw (e, release_loop) h
    | inr (j, rest, e) ↦
        rw (e, release_loop) (release_loop-Good fuel _ (release_round-Good j rest s e h))
  ]

  -- `draining` is not looked at by the invariant
  pub flag-IsSound :
      (c : Core) (b : Bool) → IsSound g extra c → IsSound g extra (record c { draining = b })
  flag-IsSound c b h = record {
    counted = record {
      active = h.counted.active;
      pending = h.counted.pending;
      done = h.counted.done;
    };
    flagged = IsFlagged-of_flags g extra c _ refl h.flagged;
  }

  abbrev pub raised : ℕ → Core → Core
  raised i c = set_up i true (mark_done i c)

  module _ (i : ℕ) (l : i < g.n_svc) (c : Core) where
    still_released : (raised i c).released i ≡ c.released i
    still_released =
        ap (λ f. f i) (released-set_up-true g wf extra i l (mark_done i c))
        ∙ ap (λ m. m.released i) (mark_done-flags g wf extra i c)

    -- A service that comes up, but for the loop over those that waited for it.
    pub raised-IsSound :
        (raised i c).released i ≡ false
        → IsSound g extra c
        → IsSound g extra (enqueue i (raised i c))
    raised-IsSound e h = raise_service-IsSound g wf extra i l c (sym still_released ∙ e) h

  -- complete() keeps the invariant, with all that it starts.
  pub complete-Good :
      (i : ℕ) (s : Sys) → i < g.n_svc → Good g wf w extra s → Good g wf w extra (complete g w i s)
  unfolding complete svc_release svc_mark_done
  complete-Good i s l h =
      let up = raised i s.core in
      if_keeps (Good g wf w extra) (up.released i) _ _
        (λ e. raise_again-IsSound g wf extra i l s.core (sym (still_released i l s.core) ∙ e) h)
        (λ e.
          let queued = raised-IsSound i l s.core e h in
          if_keeps (Good g wf w extra) up.draining _ _ (λ _. queued)
            (λ _.
              flag-IsSound _ false
                (release_loop-Good (release_rounds g w) _ (flag-IsSound _ true queued))))
