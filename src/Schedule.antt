-- ===== src/Schedule.antt =====
-- The order in which ninitctl numbers the services of an image (ctl/graph.c): the heap of ready
-- services, and schedule().
pub mod Heap
pub mod Steps
pub mod Whole
pub mod Forward
pub mod Visit
pub mod Link
pub mod Numbered
use ninit.Prelude.{
  ℕ, zero, suc, ◌+◌, ◌-◌, ◌*◌, ◌/◌, Bool, true, false, not, ◌&&◌, List, [], ◌∷◌, ◌++◌, map, Option,
  none, some, ◌==◌, ltb, length, if◌then◌else◌, range, update, sub32,
}

-- struct graph, as far as schedule() reads it
pub record Linked : Type 0 where
  pub n : ℕ
  pub off : ℕ → ℕ
  pub idx : ℕ → ℕ
  pub indeg : ℕ → ℕ
  pub height : ℕ → ℕ

-- idx[i] for i = off[v]; i < off[v + 1]
abbrev pub successors : Linked → ℕ → List ℕ
successors g v = map g.idx (range (g.off v) (g.off (v + 1) - g.off v))

-- struct ready
pub record Ready : Type 0 where
  pub v : ℕ → ℕ
  pub n : ℕ

abbrev pub swap : (ℕ → ℕ) → ℕ → ℕ → ℕ → ℕ
swap v i j = update (update v i (v j)) j (v i)

module _ (g : Linked) where
  unfoldable pub ready_before : ℕ → ℕ → Bool
  ready_before a b =
      let ra = g.indeg a == 0 in
      let rb = g.indeg b == 0 in
      if ra && not rb
      then true
      else if rb && not ra
      then false
      else if not (g.height a == g.height b)
      then ltb (g.height b) (g.height a)
      else ltb a b

  -- the loop of ready_push
  unfoldable pub sift_up : ℕ → ℕ → (ℕ → ℕ) → ℕ → ℕ
  sift_up zero i v = v
  sift_up (suc fuel) i v =
      let p = (i - 1) / 2 in
      let rest = sift_up fuel p (swap v i p) in
      if i == 0 then v else if not (ready_before (v i) (v p)) then v else rest

  unfoldable pub ready_push : Ready → ℕ → Ready
  ready_push q x = record { v = sift_up (q.n + 1) q.n (update q.v q.n x); n = q.n + 1 }

  -- the child, or i itself, that comes before the others
  unfoldable pub first_of : ℕ → ℕ → (ℕ → ℕ) → ℕ
  first_of n i v =
      let l = 2 * i + 1 in
      let b = if ltb l n && ready_before (v l) (v i) then l else i in
      if ltb (l + 1) n && ready_before (v (l + 1)) (v b) then l + 1 else b

  -- the loop of ready_pop
  unfoldable pub sift_down : ℕ → ℕ → ℕ → (ℕ → ℕ) → ℕ → ℕ
  sift_down zero n i v = v
  sift_down (suc fuel) n i v =
      let b = first_of n i v in
      let rest = sift_down fuel n b (swap v i b) in if b == i then v else rest

  unfoldable pub ready_pop : Ready → ℕ × Ready
  ready_pop q =
      let n = q.n - 1 in (q.v 0, record { v = sift_down q.n n 0 (update q.v 0 (q.v n)); n = n })

  -- the loop that fills the heap with the services without prerequisites
  unfoldable pub fill_ready : List ℕ → Ready → Ready
  fill_ready [] q = q
  fill_ready (i ∷ is) q = fill_ready is (if g.indeg i == 0 then ready_push q i else q)

-- the variables of schedule(); `order` has the last one scheduled first
pub record Scheduling : Type 0 where
  pub left : ℕ → ℕ
  pub q : Ready
  pub order : List ℕ

module _ (g : Linked) where
  -- one successor of the service that is scheduled
  unfoldable pub drop_edge : ℕ → Scheduling → Scheduling
  drop_edge d s =
      let k = sub32 (s.left d) 1 in
      record s { left = update s.left d k; q = if k == 0 then ready_push g s.q d else s.q }

  unfoldable pub drop_edges : List ℕ → Scheduling → Scheduling
  drop_edges [] s = s
  drop_edges (d ∷ ds) s = drop_edges ds (drop_edge d s)

  -- one round of the `while` loop
  unfoldable pub schedule_one : Scheduling → Scheduling
  schedule_one s =
      let (best, q) = ready_pop g s.q in
      drop_edges (successors g best) (record s { q = q; order = best ∷ s.order })

  unfoldable pub schedule_loop : ℕ → Scheduling → Scheduling
  schedule_loop zero s = s
  schedule_loop (suc fuel) s =
      let rest = schedule_loop fuel (schedule_one s) in if s.q.n == 0 then s else rest

  -- schedule(), or the internal error; the order is from the last to the first
  unfoldable pub schedule : Option (List ℕ)
  schedule =
      let empty : Ready = record { v = λ i. 0; n = 0 } in
      let s =
        schedule_loop g.n
          (record { left = g.indeg; q = fill_ready g (range 0 g.n) empty; order = [] }) in
      if length s.order == g.n then some s.order else none

-- inv of order_graph: the place of each service in the order
unfoldable pub places : List ℕ → ℕ → ℕ
places [] = λ d. 0
places (b ∷ rest) = update (places rest) b (length rest)

-- struct edge
pub record Edge : Type 0 where
  pub a : ℕ
  pub b : ℕ

-- the loop of order_graph over the edges
unfoldable pub renumber : (ℕ → ℕ) → List Edge → List Edge
renumber inv [] = []
renumber inv (e ∷ es) = record { a = inv e.a; b = inv e.b } ∷ renumber inv es
