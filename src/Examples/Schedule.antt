-- ===== src/Examples/Schedule.antt =====
-- Three services, of which 2 waits for 0 and 1 for 2.
use ninit.Prelude.{
  ℕ, ◌<◌, ◌≡◌, ◌≢◌, refl, sym, subst, List, [], ◌∷◌, All, some, none, range, ◌==◌, ltb,
  if◌then◌else◌, arith, count, sum,
}
use native.Mathlib.Decide.{ℕ_discrete}
use ninit.Schedule.{
  Linked, successors, schedule, places, Edge, renumber, ready_before, sift_up, ready_push, first_of,
  sift_down, ready_pop, fill_ready, drop_edge, drop_edges, schedule_one, schedule_loop,
}
use ninit.Schedule.Steps.{IsLinked}
use ninit.Schedule.Whole.{IsRanked, IsOrder, schedule-IsOrder, schedule_succeeds}
use ninit.Schedule.Visit.{visit_all}
use ninit.Schedule.Visit.Ranks.{IsVerdict, unvisited, visit_all-IsVerdict}
use ninit.Schedule.Link.{link_edges}
use ninit.Schedule.Link.Whole.{AreEdges, link_edges-IsArray, successors-link_edges}
use ninit.Schedule.Link.Filled.{targets_of}
use ninit.Schedule.Numbered.{IsNumbered, order_edges, order_edges-IsNumbered}

abbrev chain : Linked
chain = record {
  n = 3;
  off = λ i. if i == 0 then 0 else if ltb i 3 then 1 else 2;
  idx = λ k. if k == 0 then 2 else 1;
  indeg = λ i. if i == 0 then 0 else 1;
  height = λ i. if i == 0 then 2 else if i == 1 then 0 else 1;
}

-- what holds of 0, 1 and 2 holds below 3
below_three : (P : ℕ → Type 0) → P 0 → P 1 → P 2 → (i : ℕ) → i < 3 → P i
below_three P a b c i l = elim (ℕ_discrete i 0) [
  | yes e ↦ subst P (sym e) a
  | no not_0 ↦ elim (ℕ_discrete i 1) [
    | yes e ↦ subst P (sym e) b
    | no not_1 ↦ let two : i ≡ 2 = grind (arith, not_0, not_1) in subst P (sym two) c
  ]
]

chain-IsLinked : IsLinked chain
unfolding count sum
chain-IsLinked = record {
  within =
      below_three (λ i. All (λ d. d < 3) (successors chain i)) (omega arith, tt) tt
        (omega arith, tt);
  degrees =
      below_three (λ d. chain.indeg d ≡ sum 3 (λ i. count d (successors chain i))) refl refl refl;
  few = below_three (λ d. chain.indeg d < 4294967296) (omega arith) (omega arith) (omega arith);
}

abbrev chain_rank : ℕ → ℕ
chain_rank i = if i == 0 then 0 else if i == 1 then 2 else 1

chain-IsRanked : IsRanked chain chain_rank
unfolding count
chain-IsRanked = record {
  rises = λ i d l m.
      below_three (λ i. count d (successors chain i) ≢ 0 → chain_rank i < chain_rank d)
        (below_three (λ d. count d (successors chain 0) ≢ 0 → chain_rank 0 < chain_rank d)
          (λ ne. absurd (ne refl)) (λ ne. omega arith) (λ ne. omega arith) d m)
        (λ ne. absurd (ne refl))
        (below_three (λ d. count d (successors chain 2) ≢ 0 → chain_rank 2 < chain_rank d)
          (λ ne. absurd (ne refl)) (λ ne. omega arith) (λ ne. absurd (ne refl)) d m)
        i l;
}

chain_scheduled : schedule chain ≡ some (1 ∷ 2 ∷ 0 ∷ [])
unfolding schedule ready_before sift_up ready_push first_of sift_down ready_pop fill_ready drop_edge
    drop_edges schedule_one schedule_loop
chain_scheduled = refl

schedule-IsOrder_example : IsOrder chain (1 ∷ 2 ∷ 0 ∷ [])
schedule-IsOrder_example = schedule-IsOrder chain (1 ∷ 2 ∷ 0 ∷ []) chain-IsLinked chain_scheduled

schedule_succeeds_example : (order : List ℕ) × (schedule chain ≡ some order)
schedule_succeeds_example = schedule_succeeds chain chain_rank chain-IsLinked chain-IsRanked

abbrev chain_edges : List Edge
chain_edges = record { a = 0; b = 2 } ∷ record { a = 2; b = 1 } ∷ []

chain_AreEdges : AreEdges 3 chain_edges
chain_AreEdges = ((omega arith, omega arith), ((omega arith, omega arith), tt))

order_edges-IsNumbered_example : IsNumbered 3 chain_edges (order_edges 3 chain_edges)
order_edges-IsNumbered_example = order_edges-IsNumbered 3 chain_edges chain_AreEdges (omega arith)

visit_all-IsVerdict_example :
    IsVerdict
      (link_edges 3 chain_edges)
      (link_edges-IsArray 3 chain_edges chain_AreEdges (omega arith))
      (visit_all (link_edges 3 chain_edges) (range 0 (link_edges 3 chain_edges).n) (
        unvisited
          (link_edges 3 chain_edges)
          (link_edges-IsArray 3 chain_edges chain_AreEdges (omega arith))))
visit_all-IsVerdict_example =
    visit_all-IsVerdict (link_edges 3 chain_edges)
      (link_edges-IsArray 3 chain_edges chain_AreEdges (omega arith))

successors-link_edges_example : successors (link_edges 3 chain_edges) 0 ≡ targets_of 0 chain_edges
successors-link_edges_example =
    successors-link_edges 3 chain_edges chain_AreEdges (omega arith) 0 (omega arith)

-- two services that wait for each other
abbrev knot : List Edge
knot = record { a = 0; b = 1 } ∷ record { a = 1; b = 0 } ∷ []

knot_dies : order_edges 2 knot ≡ none
unfolding order_edges link_edges ninit.Schedule.Link.count_edges ninit.Schedule.Link.add_offsets
    ninit.Schedule.Link.fill_lists visit_all ninit.Schedule.Visit.visit
    ninit.Schedule.Visit.visit_loop ninit.Schedule.Visit.visit_top ninit.Schedule.Visit.push_frame
knot_dies = refl

chain_ordered :
    order_edges 3 chain_edges ≡ some (record { a = 0; b = 1 } ∷ record { a = 1; b = 2 } ∷ [])
unfolding order_edges link_edges ninit.Schedule.Link.count_edges ninit.Schedule.Link.add_offsets
    ninit.Schedule.Link.fill_lists visit_all ninit.Schedule.Visit.visit
    ninit.Schedule.Visit.visit_loop ninit.Schedule.Visit.visit_top ninit.Schedule.Visit.push_frame
    ninit.Schedule.Visit.tallest schedule ready_before sift_up ready_push first_of sift_down
    ready_pop fill_ready drop_edge drop_edges schedule_one schedule_loop places renumber
chain_ordered = refl
