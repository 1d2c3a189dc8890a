-- ===== src/Supervisor/Invariant/GoDown.antt =====
-- go_down with the whole of svc_reclaim (src/state.c).
use ninit.Prelude.{
  ℕ, ◌+◌, ◌<◌, ◌≡◌, Bool, true, false, not, ◌&&◌, ◌||◌, [], ◌∷◌, arith, if_keeps, Bool-cases, count,
  ap, tally-update, tally-le, inl, inr,
}
use ninit.Graph.{Graph, IsWellFormed, order_only}
use ninit.Supervisor.Core.{Core, set_up, set_released, Reclaiming, reclaim, reclaim_loop, go_down}
use ninit.Supervisor.Invariant.Defs.{owing, IsUpCounted, IsReady, IsLinked, IsFlagged}
use ninit.Supervisor.Invariant.Owing.{owing-nil}
use ninit.Supervisor.Invariant.Marks.{set_up-IsUpCounted}
use ninit.Supervisor.Invariant.Reclaim.{
  IsReclaiming, reclaim_loop-IsReclaiming, set_up-IsLinked, drop_target-IsLinked,
}

module _ (g : Graph) (wf : IsWellFormed g) (extra : ℕ → ℕ) where
  from_nothing :
      {c : Core} → IsLinked g (λ _. 0) extra c → IsLinked g (λ e. owing g [] e + 0) extra c
  from_nothing h = record {
    fits = h.fits;
    queued = h.queued;
    linked = λ d l. let none_left = owing-nil g d in let before = h.linked d l in omega arith;
  }

  to_nothing :
      (w : Reclaiming)
      → w.rqueue ≡ []
      → IsLinked g (λ d. owing g w.rqueue d + count d []) extra w.core
      → IsLinked g (λ _. 0) extra w.core
  unfolding count
  to_nothing w e h = record {
    fits = h.fits;
    queued = h.queued;
    linked = λ d l.
        let none_left = owing-nil g d in
        let empty = ap (λ q. owing g q d) e in let before = h.linked d l in omega arith;
  }

  released-set_up : (i : ℕ) (c : Core) → (set_up i false c).released ≡ c.released
  unfolding set_up
  released-set_up i c = elim (Bool-cases (c.up i)) [ inl e ↦ rw e | inr e ↦ rw e ]

  down-IsReady :
      (i : ℕ) (c : Core) → IsReady g c → IsReady g (set_released i false (set_up i false c))
  unfolding set_up
  down-IsReady i c h = elim (Bool-cases (c.up i)) [
    | inl e ↦ rw e (record {
      up_released = λ j. ground (arith, h.up_released j);
      released_up = λ j. ground (arith, h.released_up j);
    })
    | inr e ↦ rw e (record {
      up_released = λ j. ground (arith, h.up_released j);
      released_up = λ j. ground (arith, h.released_up j);
    })
  ]

  -- An order-only service that goes down stays released.
  order_only-IsReady :
      (i : ℕ) (c : Core) → order_only g i ≡ true → IsReady g c → IsReady g (set_up i false c)
  unfolding set_up
  order_only-IsReady i c o h =
      if_keeps (IsReady g) (c.up i) _ _
        (λ _. record {
          up_released = λ j. ground (arith, h.up_released j);
          released_up = λ j. ground (arith, h.released_up j);
        })
        (λ _. h)

  -- the loop of svc_reclaim, from the state that its first lines leave
  reclaim_start :
      (i : ℕ) (c : Core)
      → i < g.n_svc
      → c.released i ≡ true
      → IsUpCounted g c
      → IsReady g (set_released i false c)
      → IsLinked g (λ _. 0) extra c
      → IsFlagged g extra
          (reclaim_loop g g.n_svc (record { core = set_released i false c; rqueue = i ∷ [] })).core
  unfolding count
  reclaim_start i c l r ups ready linked =
      let w : Reclaiming = record { core = set_released i false c; rqueue = i ∷ [] } in
      let start : IsReclaiming g wf extra [] w = record {
        ups = record { ups = ups.ups };
        ready = ready;
        linked = drop_target-IsLinked g wf extra i [] (λ _. 0) c l r (from_nothing linked);
        below = (l, tt);
      } in
      let flips = tally-update (λ (b : Bool). b) g.n_svc c.released i false l in
      let most = tally-le (λ (b : Bool). b) g.n_svc c.released in
      let (end, empty) = reclaim_loop-IsReclaiming g wf extra g.n_svc w (ground arith) start in
      record { ups = end.ups; ready = end.ready; linked = to_nothing _ empty end.linked }

  pub go_down-IsFlagged :
      (i : ℕ) (c : Core) → i < g.n_svc → IsFlagged g extra c → IsFlagged g extra (go_down g i c)
  unfolding go_down reclaim
  go_down-IsFlagged i c l h =
      let c' = set_up i false c in
      let ups = set_up-IsUpCounted g wf.small c i l h.ups false in
      let linked = set_up-IsLinked g wf extra i false (λ _. 0) c h.linked in
      let same = ap (λ r. r i) (released-set_up i c) in
      if_keeps (IsFlagged g extra) (not (c.up i) && not (c.released i)) _ _ (λ _. h)
        (λ some.
          if_keeps (IsFlagged g extra) (not (c'.released i) || order_only g i) _ _
            (λ e. record {
              ups = ups;
              ready = order_only-IsReady i c (ground (arith, h.ready.up_released i)) h.ready;
              linked = linked;
            })
            (λ e. reclaim_start i c' l (ground arith) ups (down-IsReady i c h.ready) linked))
