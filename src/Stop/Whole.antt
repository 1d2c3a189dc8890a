-- ===== src/Stop/Whole.antt =====
-- What the ordered stop of a shutdown guarantees (src/stop.c).
use ninit.Prelude.{
  ℕ, refl, ◌+◌, ◌<◌, ◌≡◌, ◌≢◌, true, false, not, List, Option, none, some, ◌==◌, if_keeps, range,
  subst, count, tally,
}
use ninit.Graph.{Graph, IsWellFormed, dependents}
use ninit.Supervisor.Sys.{Sys, World, asked}
use ninit.Stop.{
  Prereqs, is_settled, is_waiting, count_live, stop_total_ms, stop_start, Stopping, Round,
  build_prereqs, stop_in_rounds, stop_ordered, stop_rounds,
}
use ninit.Stop.Order.{IsTranspose, InOrder}
use ninit.Stop.Rounds.{stop_start-InOrder, stop_rounds-InOrder, begun-settled}
use ninit.Stop.Transpose.{build_prereqs-IsTranspose}

module _ (g : Graph) (wf : IsWellFormed g) (w : World) (rs : List Round) (s : Sys) where
  abbrev Orderly : Option Stopping → Type 0
  Orderly none = Unit
  Orderly (some t) = InOrder g t

  stop_in_rounds-Orderly : (p : Prereqs) → IsTranspose g p → Orderly (stop_in_rounds g w p rs s)
  unfolding stop_in_rounds
  stop_in_rounds-Orderly p tr =
      let (live, s') = count_live w (range 0 g.n_svc) s in
      let begun = asked s' in
      let deadline = w.now s'.tick + stop_total_ms in
      if_keeps Orderly (live == 0) none (some (stop_rounds g w p deadline rs (stop_start g begun)))
        (λ _. tt)
        (λ _.
          stop_rounds-InOrder g wf w p tr deadline rs (stop_start g begun)
            (stop_start-InOrder g wf begun))

  stop_ordered-Orderly : Orderly (stop_ordered g w rs s)
  unfolding stop_ordered
  stop_ordered-Orderly =
      if_keeps Orderly (g.n_svc == 0) none
        (elim (build_prereqs g) [ none ↦ none | some p ↦ stop_in_rounds g w p rs s ]) (λ _. tt)
        (λ _. behind (build_prereqs g) (build_prereqs-IsTranspose g wf))
    where
      behind :
          (o : Option Prereqs)
          → ((p : Prereqs) → o ≡ some p → IsTranspose g p)
          → Orderly (elim o [ none ↦ none | some p ↦ stop_in_rounds g w p rs s ])
      behind none tr = tt
      behind (some p) tr = stop_in_rounds-Orderly p (tr p refl)

-- Whatever happens in the rounds of an ordered stop of a well-formed graph, a service that has
-- been asked to stop or has settled has no dependent that has not settled: services stop in the
-- reverse of the order in which they start.
pub stop_ordered-settled :
    (g : Graph) (w : World) (rs : List Round) (s : Sys) (t : Stopping) (i d : ℕ)
    → IsWellFormed g
    → stop_ordered g w rs s ≡ some t
    → i < g.n_svc
    → d < g.n_svc
    → count d (dependents g i) ≢ 0
    → is_waiting (t.st i) ≡ false
    → is_settled (t.st d) ≡ true
stop_ordered-settled g w rs s t i d wf e l m ne b =
    begun-settled g t i d l m ne b
      (subst (Orderly g wf w rs s) e (stop_ordered-Orderly g wf w rs s))

-- On a well-formed graph, the counter by which an ordered stop ends is the number of services that have not settled.
pub stop_ordered-left :
    (g : Graph) (w : World) (rs : List Round) (s : Sys) (t : Stopping)
    → IsWellFormed g
    → stop_ordered g w rs s ≡ some t
    → t.left ≡ tally (λ x. not (is_settled x)) g.n_svc t.st
stop_ordered-left g w rs s t wf e =
    (subst (Orderly g wf w rs s) e (stop_ordered-Orderly g wf w rs s)).lefts
