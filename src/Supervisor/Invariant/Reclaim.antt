-- ===== src/Supervisor/Invariant/Reclaim.antt =====
-- svc_reclaim and go_down (src/state.c).
use ninit.Prelude.{
  ℕ, zero, suc, ◌+◌, ◌≤◌, ◌<◌, ◌≡◌, inl, inr, ap, Bool, true, false, not, ◌&&◌, List, [], ◌∷◌, ◌++◌,
  refl, ◌∙◌, subst, nil_of_length, List-cases, arith, All, All-append, if_keeps, Bool-cases, count,
  tally, tally-update, update, inc16, length, length-append,
}
use ninit.Graph.{Graph, IsWellFormed, dependents, order_only, targets}
use ninit.Supervisor.Core.{
  Core, set_up, set_released, Reclaiming, reclaim_edge, reclaim_edges, reclaim_loop,
}
use ninit.Supervisor.Invariant.Defs.{owing, IsUpCounted, IsReady, IsLinked}
use ninit.Supervisor.Invariant.Owing.{owing-cons, owing-append, owing-one, unreleased-lower}
use ninit.Supervisor.Invariant.Marks.{set_up-IsUpCounted}

module _ (g : Graph) (wf : IsWellFormed g) (extra : ℕ → ℕ) where
  open wf use {small, forward}

  -- what holds in the loops, with the dependents in `rest` still to be read
  pub record IsReclaiming (rest : List ℕ) (w : Reclaiming) : Type 0 where
    pub ups : IsUpCounted g w.core
    pub ready : IsReady g w.core
    pub linked : IsLinked g (λ d. owing g w.rqueue d + count d rest) extra w.core
    pub below : All (λ j. j < g.n_svc) w.rqueue

  abbrev bump : ℕ → Core → Core
  bump d c = record c { unmet = update c.unmet d (inc16 (c.unmet d)) }

  -- one increment takes its edge off the sum that is owed
  bump-IsLinked :
      (d : ℕ) (owed : ℕ → ℕ) (c : Core)
      → IsLinked g (λ e. owed e + count e (d ∷ [])) extra c
      → IsLinked g owed extra (bump d c)
  unfolding count
  bump-IsLinked d owed c h = record {
    fits = λ e l. ground (arith, h.fits e l);
    queued = h.queued;
    linked = λ e l. ground (arith, h.linked e l);
  }

  -- a released target that its prerequisite takes down joins the work list
  pub drop_target-IsLinked :
      (d : ℕ) (rq : List ℕ) (rest : ℕ → ℕ) (c : Core)
      → d < g.n_svc
      → c.released d ≡ true
      → IsLinked g (λ e. owing g rq e + rest e) extra c
      → IsLinked g
          (λ e. owing g (rq ++ d ∷ []) e + rest e)
          extra
          (record c { released = update c.released d false })
  drop_target-IsLinked d rq rest c l r h = record {
    fits = h.fits;
    queued = h.queued;
    linked = λ e m.
        let more = owing-append g e rq (d ∷ []) in
        let one = owing-one g e d in
        let lower = unreleased-lower g e c.released d l r in
        let before = h.linked e m in omega arith;
  }

  pub set_up-IsLinked :
      (d : ℕ) (v : Bool) (owed : ℕ → ℕ) (c : Core)
      → IsLinked g owed extra c
      → IsLinked g owed extra (set_up d v c)
  unfolding set_up
  set_up-IsLinked d true owed c h =
      if_keeps (IsLinked g owed extra) (c.up d) _ _ (λ _. h)
        (λ _. record { fits = h.fits; queued = h.queued; linked = h.linked })
  set_up-IsLinked d false owed c h =
      if_keeps (IsLinked g owed extra) (c.up d) _ _
        (λ _. record { fits = h.fits; queued = h.queued; linked = h.linked }) (λ _. h)

  pub take_down-IsReady :
      (d : ℕ) (c : Core) → IsReady g c → IsReady g (set_up d false (set_released d false c))
  unfolding set_up
  take_down-IsReady d c h = elim (Bool-cases (c.up d)) [
    | inl e ↦ rw e (record {
      up_released = λ i. ground (arith, h.up_released i);
      released_up = λ i. ground (arith, h.released_up i);
    })
    | inr e ↦ rw e (record {
      up_released = λ i. ground (arith, h.up_released i);
      released_up = λ i. ground (arith, h.released_up i);
    })
  ]

  -- One dependent leaves what is still to be read.
  reclaim_edge-IsReclaiming :
      (d : ℕ) (rest : List ℕ) (w : Reclaiming)
      → d < g.n_svc
      → IsReclaiming (d ∷ rest) w
      → IsReclaiming rest (reclaim_edge g d w)
  unfolding reclaim_edge count
  reclaim_edge-IsReclaiming d rest w l h =
      let c = bump d w.core in
      let ups : IsUpCounted g c = record { ups = h.ups.ups } in
      let ready : IsReady g c = record {
        up_released = h.ready.up_released;
        released_up = h.ready.released_up;
      } in
      let linked : IsLinked g (λ e. owing g w.rqueue e + count e rest) extra c =
        bump-IsLinked d (λ e. owing g w.rqueue e + count e rest) w.core
          (record {
            fits = h.linked.fits;
            queued = h.linked.queued;
            linked = λ e m. let before = h.linked.linked e m in ground arith;
          }) in
      if_keeps (IsReclaiming rest) (targets g d && c.released d && not (order_only g d)) _ _
        (λ e.
          let dropped : IsUpCounted g (set_released d false c) = record { ups = ups.ups } in
          record {
            ups = set_up-IsUpCounted g small (set_released d false c) d l dropped false;
            ready = take_down-IsReady d c ready;
            linked =
                set_up-IsLinked d false _ _
                  (drop_target-IsLinked d w.rqueue _ c l (ground arith) linked);
            below = All-append (λ j. j < g.n_svc) w.rqueue (d ∷ []) h.below (l, tt);
          })
        (λ _. record { ups = ups; ready = ready; linked = linked; below = h.below })

  reclaim_edges-IsReclaiming :
      (ds : List ℕ) (w : Reclaiming)
      → All (λ d. d < g.n_svc) ds
      → IsReclaiming ds w
      → IsReclaiming [] (reclaim_edges g ds w)
  unfolding reclaim_edges
  reclaim_edges-IsReclaiming [] w l h = h
  reclaim_edges-IsReclaiming (d ∷ ds) w l h =
      reclaim_edges-IsReclaiming ds (reclaim_edge g d w) l.1
        (reclaim_edge-IsReclaiming d ds w l.0 h)

  -- the released services and the entries of the work list: what bounds the rounds
  abbrev pub work : Reclaiming → ℕ
  work w = tally (λ b. b) g.n_svc w.core.released + length w.rqueue

  reclaim_edge-work : (d : ℕ) (w : Reclaiming) → d < g.n_svc → work (reclaim_edge g d w) ≡ work w
  unfolding reclaim_edge set_up
  reclaim_edge-work d w l = ground (
    arith,
    tally-update (λ (b : Bool). b) g.n_svc w.core.released d false l,
    length-append w.rqueue (d ∷ []),
  )

  reclaim_edges-work :
      (ds : List ℕ) (w : Reclaiming)
      → All (λ d. d < g.n_svc) ds
      → work (reclaim_edges g ds w) ≡ work w
  unfolding reclaim_edges
  reclaim_edges-work [] w l = refl
  reclaim_edges-work (d ∷ ds) w l =
      reclaim_edges-work ds (reclaim_edge g d w) l.1 ∙ reclaim_edge-work d w l.0

  All-below :
      (j : ℕ) (ds : List ℕ) → All (λ d. (j < d) × (d < g.n_svc)) ds → All (λ d. d < g.n_svc) ds
  All-below j [] h = tt
  All-below j (d ∷ ds) h = (h.0.1, All-below j ds h.1)

  pub dependents-below : (j : ℕ) → j < g.n_svc → All (λ d. d < g.n_svc) (dependents g j)
  dependents-below j l = All-below j (dependents g j) (forward j l)

  opened-IsReclaiming :
      (j : ℕ) (rest : List ℕ) (w : Reclaiming)
      → w.rqueue ≡ j ∷ rest
      → IsReclaiming [] w
      → IsReclaiming (dependents g j) (record w { rqueue = rest })
  unfolding count
  opened-IsReclaiming j rest w e h = record {
    ups = h.ups;
    ready = h.ready;
    linked = record {
      fits = h.linked.fits;
      queued = h.linked.queued;
      linked = λ d l.
          let before = h.linked.linked d l in
          let head = ap (λ q. owing g q d) e in let split = owing-cons g d j rest in omega arith;
    };
    below = (subst (All (λ i. i < g.n_svc)) e h.below).1;
  }

  -- With enough rounds the loop empties its work list and nothing more is owed.
  pub reclaim_loop-IsReclaiming :
      (fuel : ℕ) (w : Reclaiming)
      → work w ≤ fuel
      → IsReclaiming [] w
      → IsReclaiming [] (reclaim_loop g fuel w) × ((reclaim_loop g fuel w).rqueue ≡ [])
  unfolding reclaim_loop
  reclaim_loop-IsReclaiming zero w k h = (h, nil_of_length w.rqueue (omega arith))
  reclaim_loop-IsReclaiming (suc fuel) w k h = elim (List-cases w.rqueue) [
    | inl e ↦ rw (e, reclaim_loop) (h, e)
    | inr (j, rest, e) ↦
        let head = subst (All (λ i. i < g.n_svc)) e h.below in
        let below = dependents-below j head.0 in
        let opened = opened-IsReclaiming j rest w e h in
        let w' = record w { rqueue = rest } in
        let shorter = reclaim_edges-work (dependents g j) w' below in
        rw (e, reclaim_loop)
          (reclaim_loop-IsReclaiming fuel (reclaim_edges g (dependents g j) w')
            (omega (arith, ap length e))
            (reclaim_edges-IsReclaiming (dependents g j) w' below opened))
  ]
