-- ===== src/Schedule/Numbered.antt =====
-- link_graph and order_graph, one after the other (ctl/graph.c): the edges between the new numbers
-- of the services, or the death of a cycle.
use ninit.Prelude.{
  ℕ, ◌+◌, ◌<◌, ◌≡◌, refl, sym, ◌∙◌, List, [], ◌∷◌, All, Option, some, none, range, length, arith,
}
use ninit.Schedule.{Linked, schedule, places, Edge, renumber}
use ninit.Schedule.Steps.{IsLinked}
use ninit.Schedule.Whole.{IsRanked, schedule_succeeds}
use ninit.Schedule.Forward.{IsEdge, renumber-forward}
use ninit.Schedule.Visit.{Visit, goes_on, cycle, out_of_rounds, visit_all}
use ninit.Schedule.Visit.Ranks.{IsVerdict, rank_of, unvisited, visit_all-IsVerdict}
use ninit.Schedule.Link.{link_edges}
use ninit.Schedule.Link.Whole.{
  AreEdges, link_edges-IsLinked, link_edges-IsArray, link_edges-IsEdge, ranked_edge,
}

-- none where one of the two dies: of a cycle, or because schedule() does
unfoldable pub order_edges : ℕ → List Edge → Option (List Edge)
order_edges n es =
    let g = link_edges n es in
    elim (visit_all g (range 0 n) (record { color = λ i. 0; height = λ i. 0; stack = [] })) [
      | goes_on t ↦ elim (schedule (record g { height = t.height })) [
        | some order ↦ some (renumber (places order) es)
        | none ↦ none
      ]
      | cycle w t ↦ none
      | out_of_rounds ↦ none
    ]

-- the edges run forward, or no ranks rise along the edges: they have a cycle
abbrev pub IsNumbered : ℕ → List Edge → Option (List Edge) → Type 0
IsNumbered n es (some new) = All (λ e. (e.a < e.b) × (e.b < n)) new
IsNumbered n es none = (rank : ℕ → ℕ) → ¬ (All (λ e. rank e.a < rank e.b) es)

module _ (n : ℕ) (es : List Edge) (h : AreEdges n es) (few : length es + 1 < 4294967296) where
  abbrev g : Linked
  g = link_edges n es

  abbrev tall : (ℕ → ℕ) → Linked
  tall height = record g { height = height }

  tall-IsLinked : (height : ℕ → ℕ) → IsLinked (tall height)
  tall-IsLinked height =
      let l = link_edges-IsLinked n es h few in
      record { within = l.within; degrees = l.degrees; few = l.few }

  tall-IsRanked : (height rank : ℕ → ℕ) → IsRanked g rank → IsRanked (tall height) rank
  tall-IsRanked height rank r = record { rises = r.rises }

  tall_edges : (height : ℕ → ℕ) (ds : List Edge) → All (IsEdge g) ds → All (IsEdge (tall height)) ds
  tall_edges height [] k = tt
  tall_edges height (e ∷ ds) k =
      (record { from = k.0.from; to = k.0.to; listed = k.0.listed }, tall_edges height ds k.1)

  after_schedule :
      (height rank : ℕ → ℕ) (r : Option (List ℕ))
      → schedule (tall height) ≡ r
      → IsRanked g rank
      → IsNumbered n es (elim r [ some order ↦ some (renumber (places order) es) | none ↦ none ])
  unfolding link_edges
  after_schedule height rank (some order) e r =
      renumber-forward (tall height) order es (tall-IsLinked height) e
        (tall_edges height es (link_edges-IsEdge n es h few))
  after_schedule height rank none e r =
      let (order, q) =
        schedule_succeeds (tall height) rank (tall-IsLinked height) (tall-IsRanked height rank r) in
      absurd (grind (arith, sym q ∙ e))

  after_visit :
      (r : Visit)
      → IsVerdict g (link_edges-IsArray n es h few) r
      → IsNumbered n es (elim r [
        | goes_on t ↦ elim (schedule (tall t.height)) [
          | some order ↦ some (renumber (places order) es)
          | none ↦ none
        ]
        | cycle w t ↦ none
        | out_of_rounds ↦ none
      ])
  unfolding link_edges
  after_visit (goes_on t) v =
      after_schedule t.height (rank_of g (link_edges-IsArray n es h few) t.height)
        (schedule (tall t.height)) refl v.2
  after_visit (cycle w t) v =
      λ rank r. v rank (record { rises = λ i d l m ne. ranked_edge n es h few rank i d r l ne })
  after_visit out_of_rounds v = absurd v

  -- Where the edges are between the n services, and fewer than 2^32 - 1, link_graph and
  -- order_graph number the services so that every edge runs from a lower to a higher number below
  -- n, or they die, and then no ranks of the services rise along all edges: there is a cycle.
  pub order_edges-IsNumbered : IsNumbered n es (order_edges n es)
  unfolding order_edges link_edges
  order_edges-IsNumbered =
      after_visit (visit_all g (range 0 n) (unvisited g (link_edges-IsArray n es h few)))
        (visit_all-IsVerdict g (link_edges-IsArray n es h few))
