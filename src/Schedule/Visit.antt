-- ===== src/Schedule/Visit.antt =====
-- The search of link_graph for a cycle, which gives each service its height (ctl/graph.c).
pub mod Stack
pub mod Rounds
pub mod Verdict
pub mod Ranks
use ninit.Prelude.{
  ℕ, zero, suc, ◌+◌, Bool, List, [], ◌∷◌, ◌==◌, not, ltb, if◌then◌else◌, range, update, sum,
}
use ninit.Schedule.{Linked, successors}

-- path[i] and iter[i] of struct graph
pub record Frame : Type 0 where
  pub v : ℕ
  pub iter : ℕ

-- color and height, and the frames below depth, the top one first
pub record Visiting : Type 0 where
  pub color : ℕ → ℕ
  pub height : ℕ → ℕ
  pub stack : List Frame

-- whether visit() comes to its end, or finds a cycle through a service; or does neither in the
-- rounds that the model allows it
pub data Visit : Type 0 where
  goes_on : Visiting → Visit
  cycle : ℕ → Visiting → Visit
  out_of_rounds : Visit

-- one past the tallest
unfoldable pub tallest : (ℕ → ℕ) → List ℕ → ℕ → ℕ
tallest height [] h = h
tallest height (d ∷ ds) h = tallest height ds (if ltb h (height d + 1) then height d + 1 else h)

unfoldable pub push_frame : Linked → ℕ → Visiting → Visiting
push_frame g w s = record s {
  color = update s.color w 1;
  stack = record { v = w; iter = g.off w } ∷ s.stack;
}

-- one round of the `while` loop, with its top frame
unfoldable pub visit_top : Linked → Frame → List Frame → Visiting → Visit
visit_top g f rest s =
    let w = g.idx f.iter in
    let t = record s { stack = record f { iter = f.iter + 1 } ∷ rest } in
    if ltb f.iter (g.off (f.v + 1))
    then if s.color w == 1
      then cycle w t
      else if s.color w == 2
      then goes_on t
      else goes_on (push_frame g w t)
    else goes_on (record {
      color = update s.color f.v 2;
      height = update s.height f.v (tallest s.height (successors g f.v) 0);
      stack = rest;
    })

-- the `while` loop; a round is also its last look at the empty stack
unfoldable pub visit_loop : Linked → ℕ → Visiting → Visit
visit_loop g zero s = out_of_rounds
visit_loop g (suc fuel) s = elim s.stack [
  | [] ↦ goes_on s
  | f ∷ rest ↦ elim (visit_top g f rest s) [
    | goes_on t ↦ visit_loop g fuel t
    | cycle w t ↦ cycle w t
    | out_of_rounds ↦ out_of_rounds
  ]
]

unfoldable pub visit : Linked → ℕ → Visiting → Visit
visit g root s =
    if not (s.color root == 0)
    then goes_on s
    else visit_loop g (g.off g.n + g.n + 1) (push_frame g root s)

-- the loop of link_graph over the services
unfoldable pub visit_all : Linked → List ℕ → Visiting → Visit
visit_all g [] s = goes_on s
visit_all g (i ∷ is) s = elim (visit g i s) [
  | goes_on t ↦ visit_all g is t
  | cycle w t ↦ cycle w t
  | out_of_rounds ↦ out_of_rounds
]
