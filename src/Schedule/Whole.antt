-- ===== src/Schedule/Whole.antt =====
-- schedule() orders the services by their edges, and does so whenever that is possible
-- (ctl/graph.c).
use ninit.Prelude.{
  ℕ, zero, suc, ◌+◌, ◌*◌, ◌<◌, ◌≡◌, ◌≢◌, ◌⊎◌, refl, sym, ap, subst, ◌∙◌, inl, inr, List, [], ◌∷◌,
  All, Option, none, some, ◌==◌, ==_iff, if◌then◌else◌, if_keeps, arith, bit, range, sum, sum-ext,
  sum_none, sum-full, sum_ones, count, counts, count-range_in, count-range_beyond, length,
}
use native.Mathlib.Decide.{ℕ_discrete}
use ninit.Schedule.{
  Linked, successors, Ready, ready_push, fill_ready, Scheduling, schedule_one, schedule_loop,
  schedule,
}
use ninit.Schedule.Heap.{occurs}
use ninit.Schedule.Steps.{
  IsLinked, IsPartial, IsTopological, schedule_one-IsPartial, schedule_one-IsTopological,
  schedule_one-length, once, pushed_if,
}

-- a rank that rises along every edge: the graph has no cycle
pub record IsRanked (g : Linked) (rank : ℕ → ℕ) : Type 0 where
  pub rises : (i d : ℕ) → i < g.n → d < g.n → count d (successors g i) ≢ 0 → rank i < rank d

module _ (g : Linked) (wf : IsLinked g) where
  fill_ready-occurs :
      (is : List ℕ) (q : Ready) (d : ℕ)
      → occurs d (fill_ready g is q).n (fill_ready g is q).v
        ≡ occurs d q.n q.v + bit (g.indeg d == 0) * count d is
  unfolding fill_ready count
  fill_ready-occurs [] q d = omega arith
  fill_ready-occurs (i ∷ is) q d =
      let rest = fill_ready-occurs is (if g.indeg i == 0 then ready_push g q i else q) d in
      omega (arith, rest, pushed i q d, split (bit (g.indeg d == 0)) (bit (i == d)) (count d is))
    where
      split : (a b c : ℕ) → a * (b + c) ≡ a * b + a * c
      split a b c = omega arith

      -- i is pushed where it has no prerequisites
      pushed :
          (i : ℕ) (q : Ready) (d : ℕ)
          → (let q' = if g.indeg i == 0 then ready_push g q i else q in occurs d q'.n q'.v)
            ≡ occurs d q.n q.v + bit (g.indeg d == 0) * bit (i == d)
      pushed i q d = elim (ℕ_discrete i d) [
        | yes e ↦
            let same = ap (λ x. bit (g.indeg x == 0) * bit (i == d)) e in
            omega (arith, pushed_if g wf (g.indeg i == 0) q i d, same)
        | no other ↦
            let z : bit (i == d) ≡ 0 = ground (arith, other) in
            omega (
              arith,
              pushed_if g wf (g.indeg i == 0) q i d,
              ap (λ x. bit (g.indeg i == 0) * x) z,
              ap (λ x. bit (g.indeg d == 0) * x) z,
            )
      ]

  abbrev start : Scheduling
  start = record {
    left = g.indeg;
    q = fill_ready g (range 0 g.n) (record { v = λ i. 0; n = 0 });
    order = [];
  }

  start-IsPartial : IsPartial g [] start
  unfolding count sum
  start-IsPartial = record {
    placed = λ d l.
        let one = count-range_in d 0 g.n (omega arith) (omega arith) in
        omega (
          arith,
          fill_ready-occurs (range 0 g.n) (record { v = λ i. 0; n = 0 }) d,
          ap (λ x. bit (g.indeg d == 0) * x) one,
        );
    lefts = λ d l. omega (
      arith,
      sum-ext g.n (λ i. 0 * count d (successors g i)) (λ i. 0) (λ j m. omega arith),
      sum_none g.n,
    );
    bounded = λ d l. omega arith;
    strays = λ d l.
        let z = count-range_beyond d 0 g.n (omega (arith, l)) in
        omega (
          arith,
          fill_ready-occurs (range 0 g.n) (record { v = λ i. 0; n = 0 }) d,
          ap (λ x. bit (g.indeg d == 0) * x) z,
        );
  }

  -- the state in which the loop ends
  record IsEnd (fuel : ℕ) (s : Scheduling) : Type 0 where
    partial : IsPartial g [] s
    sorted : IsTopological g s.order
    ends : (s.q.n ≡ 0) ⊎ (length s.order ≡ fuel)

  schedule_loop-IsEnd :
      (fuel : ℕ) (s : Scheduling)
      → IsPartial g [] s
      → IsTopological g s.order
      → IsEnd (fuel + length s.order) (schedule_loop g fuel s)
  unfolding schedule_loop
  schedule_loop-IsEnd zero s h t = record { partial = h; sorted = t; ends = inr (omega arith) }
  schedule_loop-IsEnd (suc fuel) s h t =
      if_keeps (IsEnd (suc fuel + length s.order)) (s.q.n == 0) _ _
        (λ z. record { partial = h; sorted = t; ends = inl ((==_iff _ _).0 z) })
        (λ f.
          let more : s.q.n ≢ 0 = λ e. absurd (ground (arith, e, f)) in
          let rest =
            schedule_loop-IsEnd fuel (schedule_one g s) (schedule_one-IsPartial g wf s h more)
              (schedule_one-IsTopological g wf s h more t) in
          record {
            partial = rest.partial;
            sorted = rest.sorted;
            ends = elim rest.ends [
              | inl e ↦ inl e
              | inr e ↦ inr (omega (arith, e, schedule_one-length g wf s h more))
            ];
          })

  pub sorted-below : (order : List ℕ) → IsTopological g order → All (λ d. d < g.n) order
  sorted-below [] t = tt
  sorted-below (b ∷ rest) t = (t.0.0, sorted-below rest t.1)

  abbrev result : Scheduling
  result = schedule_loop g g.n start

  result-IsEnd : IsEnd (g.n + 0) result
  result-IsEnd = schedule_loop-IsEnd g.n start start-IsPartial tt

  -- all are scheduled, where as many are as there are services
  complete-once : length result.order ≡ g.n → (d : ℕ) → d < g.n → count d result.order ≡ 1
  complete-once long =
      let below = sorted-below result.order result-IsEnd.sorted in
      sum-full g.n (λ d. count d result.order) (once g wf [] result result-IsEnd.partial)
        (counts g.n result.order below ∙ long)

  -- and with an empty heap all are scheduled, if the graph has no cycle: by the rank of each
  module _ (rank : ℕ → ℕ) (acyclic : IsRanked g rank) (empty : result.q.n ≡ 0) where
    scheduled : (k d : ℕ) → d < g.n → rank d < k → count d result.order ≡ 1
    unfolding count sum
    scheduled zero d l m = absurd (omega arith)
    scheduled (suc k) d l m =
        let h = result-IsEnd.partial in
        let same =
          sum-ext g.n (λ i. count i result.order * count d (successors g i))
            (λ i. count d (successors g i))
            (λ i li. elim (ℕ_discrete (count d (successors g i)) 0) [
              | yes z ↦ omega (arith, z, ap (λ x. count i result.order * x) z)
              | no ne ↦
                  let lower = acyclic.rises i d li l ne in
                  let one = scheduled k i li (omega (arith, lower)) in
                  omega (arith, ap (λ x. x * count d (successors g i)) one)
            ]) in
        let none_left : result.left d ≡ 0 = omega (arith, h.lefts d l, same, wf.degrees d l) in
        let unheaped : occurs d result.q.n result.q.v ≡ 0 = ap (λ n. occurs d n result.q.v) empty in
        let done : bit (result.left d == 0) ≡ 1 = ground (arith, none_left) in
        omega (arith, h.placed d l, unheaped, done)

    complete-length : length result.order ≡ g.n
    complete-length =
        let below = sorted-below result.order result-IsEnd.sorted in
        sym (counts g.n result.order below)
        ∙ sum-ext g.n (λ d. count d result.order) (λ d. 1)
            (λ d l. scheduled (suc (rank d)) d l (omega arith))
        ∙ sum_ones g.n

-- an order of the services: each stands in it once, behind all that have edges to it
pub record IsOrder (g : Linked) (order : List ℕ) : Type 0 where
  pub sorted : IsTopological g order
  pub complete : (d : ℕ) → d < g.n → count d order ≡ 1

abbrev Orders : Linked → Option (List ℕ) → Type 0
Orders g none = Unit
Orders g (some order) = IsOrder g order

-- Where schedule() gives an order of a linked graph, each service stands in it once, and behind
-- all those that have edges to it.
pub schedule-IsOrder :
    (g : Linked) (order : List ℕ) → IsLinked g → schedule g ≡ some order → IsOrder g order
unfolding schedule
schedule-IsOrder g order wf e = subst (Orders g) e (
    if_keeps (Orders g) (length (result g wf).order == g.n) (some (result g wf).order) none
      (λ long. record {
        sorted = (result-IsEnd g wf).sorted;
        complete = complete-once g wf ((==_iff _ _).0 long);
      })
      (λ _. tt))

-- Where the linked graph has no cycle, schedule() gives an order: its internal error does not
-- occur, and as many rounds as there are services are enough.
pub schedule_succeeds :
    (g : Linked) (rank : ℕ → ℕ)
    → IsLinked g
    → IsRanked g rank
    → (order : List ℕ) × (schedule g ≡ some order)
unfolding schedule
schedule_succeeds g rank wf acyclic =
    let all : length (result g wf).order ≡ g.n = elim (result-IsEnd g wf).ends [
      | inl z ↦ complete-length g wf rank acyclic z
      | inr full ↦ omega (arith, full)
    ] in
    ((result g wf).order, rw ((==_iff _ _).1 all) refl)
