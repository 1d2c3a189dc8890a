-- ===== src/Supervisor/Invariant/Raise.antt =====
-- The flags of a service that comes up, and one dependent that has a prerequisite less to wait for
-- (complete and svc_release of src/state.c).
use ninit.Prelude.{
  ℕ, ◌+◌, ◌<◌, ◌≡◌, refl, ap, subst, ◌∙◌, All, All-append, true, false, List, [], ◌∷◌, arith, inl,
  inr, Bool-cases, if_keeps, count,
}
use ninit.Graph.{Graph, IsWellFormed, dependents}
use ninit.Supervisor.Core.{Core, mark_done, set_up}
use ninit.Supervisor.Release.{enqueue, meet}
use ninit.Supervisor.Invariant.Defs.{owing, IsReady, IsLinked, IsFlagged, IsSound}
use ninit.Supervisor.Invariant.Owing.{owing-cons, owing-append, owing-one, unreleased-raise}
use ninit.Supervisor.Invariant.Marks.{set_up-IsUpCounted, mark_done-IsCounted}
use ninit.Supervisor.Invariant.Reclaim.{set_up-IsLinked}
use ninit.Supervisor.Invariant.Sound.{
  flags, set_up-marks, IsCounted-of_marks, IsFlagged-of_flags, mark_done-flags,
}

module _ (g : Graph) (wf : IsWellFormed g) where
  module _ (extra : ℕ → ℕ) (i : ℕ) (l : i < g.n_svc) where
    enqueue-IsLinked :
        (c : Core)
        → c.released i ≡ false
        → IsLinked g (λ _. 0) extra c
        → IsLinked g (λ _. 0) extra (enqueue i c)
    enqueue-IsLinked c r h = record {
      fits = h.fits;
      queued = All-append (λ j. j < g.n_svc) c.queue (i ∷ []) h.queued (l, tt);
      linked = λ d m.
          let more = owing-append g d c.queue (i ∷ []) in
          let one = owing-one g d i in
          let raise = unreleased-raise g d c.released i l r in
          let before = h.linked d m in omega arith;
    }

    pub released-set_up-true : (c : Core) → (set_up i true c).released ≡ c.released
    unfolding set_up
    released-set_up-true c = elim (Bool-cases (c.up i)) [ inl e ↦ rw e | inr e ↦ rw e ]

    enqueue-IsReady : (c : Core) → IsReady g c → IsReady g (enqueue i (set_up i true c))
    unfolding set_up
    enqueue-IsReady c h = elim (Bool-cases (c.up i)) [
      | inl e ↦ rw e (record {
        up_released = λ j. ground (arith, h.up_released j);
        released_up = λ j. ground (arith, h.released_up j);
      })
      | inr e ↦ rw e (record {
        up_released = λ j. ground (arith, h.up_released j);
        released_up = λ j. ground (arith, h.released_up j);
      })
    ]

    enqueue-IsFlagged :
        (c : Core)
        → c.released i ≡ false
        → IsFlagged g extra c
        → IsFlagged g extra (enqueue i (set_up i true c))
    enqueue-IsFlagged c r h = record {
      ups = record { ups = (set_up-IsUpCounted g wf.small c i l h.ups true).ups };
      ready = enqueue-IsReady c h.ready;
      linked =
          enqueue-IsLinked (set_up i true c)
            (ground (arith, ap (λ f. f i) (released-set_up-true c)))
            (set_up-IsLinked g wf extra i true (λ _. 0) c h.linked);
    }

    -- a target that comes up in the release loop
    pub raise_target-IsSound :
        (c : Core)
        → c.released i ≡ false
        → IsSound g extra c
        → IsSound g extra (enqueue i (mark_done i (set_up i true c)))
    raise_target-IsSound c r h =
        let up = IsCounted-of_marks g c (set_up i true c) (set_up-marks g i true c) h.counted in
        let done = mark_done-IsCounted g wf.small (set_up i true c) i l up in
        record {
          counted = record { active = done.active; pending = done.pending; done = done.done };
          flagged =
              IsFlagged-of_flags g extra (enqueue i (set_up i true c)) _ (same c)
                (enqueue-IsFlagged c r h.flagged);
        }
      where
        same :
            (k : Core)
            → flags (enqueue i (mark_done i (set_up i true k)))
              ≡ flags (enqueue i (set_up i true k))
        same k = unfold mark_done in refl

    -- complete(), up to the release loop
    pub raise_service-IsSound :
        (c : Core)
        → c.released i ≡ false
        → IsSound g extra c
        → IsSound g extra (enqueue i (set_up i true (mark_done i c)))
    raise_service-IsSound c r h =
        let done = mark_done-IsCounted g wf.small c i l h.counted in
        let up =
          IsCounted-of_marks g (mark_done i c) (set_up i true (mark_done i c))
            (set_up-marks g i true (mark_done i c)) done in
        record {
          counted = record { active = up.active; pending = up.pending; done = up.done };
          flagged =
              enqueue-IsFlagged (mark_done i c)
                (ap (λ m. m.released i) (mark_done-flags g wf extra i c) ∙ r)
                (IsFlagged-of_flags g extra c _ (mark_done-flags g wf extra i c) h.flagged);
        }

    up_again-IsReady : (c : Core) → c.released i ≡ true → IsReady g c → IsReady g (set_up i true c)
    unfolding set_up
    up_again-IsReady c r h =
        if_keeps (IsReady g) (c.up i) _ _ (λ _. h)
          (λ _. record {
            up_released = λ j. ground (arith, h.up_released j);
            released_up = λ j. ground (arith, h.released_up j);
          })

    -- complete() of a service that is still released
    pub raise_again-IsSound :
        (c : Core)
        → c.released i ≡ true
        → IsSound g extra c
        → IsSound g extra (set_up i true (mark_done i c))
    raise_again-IsSound c r h =
        let done = mark_done-IsCounted g wf.small c i l h.counted in
        let c' = mark_done i c in
        let flagged = IsFlagged-of_flags g extra c c' (mark_done-flags g wf extra i c) h.flagged in
        record {
          counted = IsCounted-of_marks g c' (set_up i true c') (set_up-marks g i true c') done;
          flagged = record {
            ups = set_up-IsUpCounted g wf.small c' i l flagged.ups true;
            ready =
                up_again-IsReady c' (ap (λ m. m.released i) (mark_done-flags g wf extra i c) ∙ r)
                  flagged.ready;
            linked = set_up-IsLinked g wf extra i true (λ _. 0) c' flagged.linked;
          };
        }

  -- --unmet[d] takes one edge off what the release loop has still to do.
  pub meet-IsSound :
      (extra : ℕ → ℕ) (d : ℕ) (ds : List ℕ) (c : Core)
      → IsSound g (λ e. count e (d ∷ ds) + extra e) c
      → IsSound g (λ e. count e ds + extra e) (meet d c)
  unfolding count
  meet-IsSound extra d ds c h = record {
    counted = record {
      active = h.counted.active;
      pending = h.counted.pending;
      done = h.counted.done;
    };
    flagged = record {
      ups = record { ups = h.flagged.ups.ups };
      ready = record {
        up_released = h.flagged.ready.up_released;
        released_up = h.flagged.ready.released_up;
      };
      linked = record {
        fits = λ e m. ground (arith, h.flagged.linked.fits e m);
        queued = h.flagged.linked.queued;
        linked = λ e m. ground (arith, h.flagged.linked.linked e m);
      };
    };
  }

  -- A service taken off the queue is accounted for by its dependents.
  pub pop-IsSound :
      (extra : ℕ → ℕ) (j : ℕ) (rest : List ℕ) (c : Core)
      → c.queue ≡ j ∷ rest
      → IsSound g extra c
      → IsSound g (λ e. count e (dependents g j) + extra e) (record c { queue = rest })
  pop-IsSound extra j rest c q h = record {
    counted = record {
      active = h.counted.active;
      pending = h.counted.pending;
      done = h.counted.done;
    };
    flagged = record {
      ups = record { ups = h.flagged.ups.ups };
      ready = record {
        up_released = h.flagged.ready.up_released;
        released_up = h.flagged.ready.released_up;
      };
      linked = record {
        fits = h.flagged.linked.fits;
        queued = (subst (All (λ i. i < g.n_svc)) q h.flagged.linked.queued).1;
        linked = λ e m.
            let before = h.flagged.linked.linked e m in
            let head = ap (λ x. owing g x e) q in let split = owing-cons g e j rest in omega arith;
      };
    };
  }
