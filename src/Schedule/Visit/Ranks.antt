-- ===== src/Schedule/Visit/Ranks.antt =====
-- link_graph finds a cycle where there is one, and else a height for each service above those of
-- its successors (ctl/graph.c).
use ninit.Prelude.{
  ℕ, zero, suc, ◌+◌, ◌-◌, ◌<◌, ◌≤◌, ◌≡◌, ◌≢◌, refl, sym, ap, subst, ◌∙◌, List, [], ◌∷◌, All, map,
  ◌==◌, not, if_keeps, range, range-below, update, update_self, update_ne, bit, count, sum,
  sum-change, arith,
}
use native.Mathlib.Decide.{ℕ_discrete}
use ninit.Schedule.{Linked}
use ninit.Schedule.Whole.{IsRanked}
use ninit.Schedule.Visit.{
  Frame, Visiting, Visit, goes_on, cycle, out_of_rounds, push_frame, visit_top, visit_loop, visit,
  visit_all,
}
use ninit.Schedule.Visit.Stack.{IsArray, Below, vertices, IsVisiting, push-IsVisiting}
use ninit.Schedule.Visit.Verdict.{
  white, left, potential, Verdict, visit_top-Verdict, white-push, colored,
}

at_range : (P : ℕ → Type 0) (a n i : ℕ) → All P (range a n) → a ≤ i → i < a + n → P i
at_range P a zero i h l m = absurd (omega arith)
at_range P a (suc n) i h l m = elim (ℕ_discrete i a) [
  | yes e ↦ subst P (sym e) h.0
  | no other ↦ at_range P (a + 1) n i h.1 (grind (arith, other)) (omega arith)
]

place_of :
    (idx : ℕ → ℕ) (d from n : ℕ)
    → count d (map idx (range from n)) ≢ 0
    → (j : ℕ) × (from ≤ j) × (j < from + n) × (idx j ≡ d)
unfolding count
place_of idx d from zero ne = absurd (ne refl)
place_of idx d from (suc n) ne = elim (ℕ_discrete (idx from) d) [
  | yes e ↦ (from, omega arith, omega arith, e)
  | no other ↦
      let z : bit (idx from == d) ≡ 0 = ground (arith, other) in
      let (j, l, m, e) = place_of idx d (from + 1) n (λ q. ne (omega (arith, z, q))) in
      (j, omega (arith, l), omega (arith, m), e)
]

module _ (g : Linked) (wf : IsArray g) where
  height-le : (height : ℕ → ℕ) (i : ℕ) → i < g.n → height i ≤ sum g.n height
  height-le height i l =
      let change =
        sum-change g.n i (update height i 0) height l (λ j ne. update_ne height i 0 ne) in
      omega (arith, change, update_self height i 0)

  -- the loop ends with the stack empty
  abbrev Ended : Visiting → Visit → Type 0
  Ended s (goes_on t) = IsVisiting g t × (t.stack ≡ []) × ((x : ℕ) → s.color x ≢ 0 → t.color x ≢ 0)
  Ended s (cycle w t) = (rank : ℕ → ℕ) → ¬ IsRanked g rank
  Ended s out_of_rounds = ⊥

  -- what is white at the end was at the start
  earlier :
      (s t : Visiting) (r : Visit)
      → ((x : ℕ) → s.color x ≢ 0 → t.color x ≢ 0)
      → Ended t r
      → Ended s r
  earlier s t (goes_on u) kept h = (h.0, h.1, λ x ne. h.2 x (kept x ne))
  earlier s t (cycle w u) kept h = h
  earlier s t out_of_rounds kept h = h

  after_top :
      (fuel : ℕ) (s : Visiting) (r : Visit)
      → Verdict g s r
      → potential g s < suc fuel
      → ((t : Visiting) → IsVisiting g t → potential g t < fuel → Ended t (visit_loop g fuel t))
      → Ended s (elim r [
        | goes_on t ↦ visit_loop g fuel t
        | cycle w t ↦ cycle w t
        | out_of_rounds ↦ out_of_rounds
      ])
  after_top fuel s (goes_on t) h l ih = earlier s t _ h.2 (ih t h.0 (omega (arith, h.1, l)))
  after_top fuel s (cycle w t) h l ih = h
  after_top fuel s out_of_rounds h l ih = h

  on_stack :
      (fuel : ℕ) (s : Visiting) (fs : List Frame)
      → s.stack ≡ fs
      → IsVisiting g s
      → potential g s < suc fuel
      → ((t : Visiting) → IsVisiting g t → potential g t < fuel → Ended t (visit_loop g fuel t))
      → Ended s (elim fs [
        | [] ↦ goes_on s
        | f ∷ rest ↦ elim (visit_top g f rest s) [
          | goes_on t ↦ visit_loop g fuel t
          | cycle w t ↦ cycle w t
          | out_of_rounds ↦ out_of_rounds
        ]
      ])
  on_stack fuel s [] e h l ih = (h, e, λ x ne. ne)
  on_stack fuel s (f ∷ rest) e h l ih =
      after_top fuel s (visit_top g f rest s) (visit_top-Verdict g wf f rest s e h) l ih

  visit_loop-Ended :
      (fuel : ℕ) (s : Visiting)
      → IsVisiting g s
      → potential g s < fuel
      → Ended s (visit_loop g fuel s)
  unfolding visit_loop
  visit_loop-Ended zero s h l = absurd (omega (arith, l))
  visit_loop-Ended (suc fuel) s h l =
      on_stack fuel s s.stack refl h l (λ t k m. visit_loop-Ended fuel t k m)

  -- The rounds are enough: one for each service and one for each edge.
  sum-white : (color : ℕ → ℕ) (k : ℕ) → k ≤ g.n → sum k (white g color) ≤ g.off k + k
  unfolding sum
  sum-white color zero l = omega arith
  sum-white color (suc k) l =
      let up = wf.off_le k (omega arith) in
      let one : white g color k ≤ g.off (k + 1) - g.off k + 1 =
        if_keeps (λ n. n ≤ g.off (k + 1) - g.off k + 1) (color k == 0) _ 0 (λ _. omega arith)
          (λ _. omega arith) in
      let next : g.off (suc k) ≡ g.off (k + 1) = ap g.off (omega arith) in
      omega (arith, up, one, next, sum-white color k (omega arith))

  -- visit() of a root ends, and the root is black then
  abbrev Visited : ℕ → Visiting → Visit → Type 0
  Visited root s (goes_on t) =
      IsVisiting g t
      × (t.stack ≡ [])
      × ((x : ℕ) → s.color x ≢ 0 → t.color x ≢ 0)
      × (t.color root ≢ 0)
  Visited root s (cycle w t) = (rank : ℕ → ℕ) → ¬ IsRanked g rank
  Visited root s out_of_rounds = ⊥

  from_root :
      (root : ℕ) (s t : Visiting) (r : Visit)
      → ((x : ℕ) → s.color x ≢ 0 → t.color x ≢ 0)
      → t.color root ≢ 0
      → Ended t r
      → Visited root s r
  from_root root s t (goes_on u) kept ne h = (h.0, h.1, (λ x n. h.2 x (kept x n)), h.2 root ne)
  from_root root s t (cycle w u) kept ne h = h
  from_root root s t out_of_rounds kept ne h = h

  visit-Visited :
      (root : ℕ) (s : Visiting)
      → root < g.n
      → IsVisiting g s
      → s.stack ≡ []
      → Visited root s (visit g root s)
  unfolding visit push_frame
  visit-Visited root s l h e =
      if_keeps (Visited root s) (not (s.color root == 0)) (goes_on s) _
        (λ q. (h, e, (λ x ne. ne), λ z. absurd (grind (arith, q, z))))
        (λ q.
          let is_white : s.color root ≡ 0 = grind (arith, q) in
          let grey : update s.color root 1 root ≢ 0 =
            λ z. absurd (omega (arith, z, update_self s.color root 1)) in
          from_root root s (push_frame g root s) _
            (colored g wf s.color root 1 (λ z. absurd (omega (arith, z)))) grey
            (visit_loop-Ended (g.off g.n + g.n + 1) (push_frame g root s)
              (push-IsVisiting g wf root s l (λ z. absurd (omega (arith, z, is_white)))
                (λ z. absurd (omega (arith, z, is_white))) h.closed
                (subst (Below g s.color root) (sym e) tt) h.marks h.small)
              (omega (
                arith,
                white-push g wf s.color root l is_white,
                ap (left g) e,
                sum-white s.color g.n (omega arith),
              ))))

  -- all of a list are visited, or a cycle is found
  abbrev AllVisited : List ℕ → Visiting → Visit → Type 0
  AllVisited is s (goes_on t) =
      IsVisiting g t
      × (t.stack ≡ [])
      × ((x : ℕ) → s.color x ≢ 0 → t.color x ≢ 0)
      × All (λ i. t.color i ≢ 0) is
  AllVisited is s (cycle w t) = (rank : ℕ → ℕ) → ¬ IsRanked g rank
  AllVisited is s out_of_rounds = ⊥

  one_more :
      (i : ℕ) (is : List ℕ) (s t : Visiting) (r : Visit)
      → ((x : ℕ) → s.color x ≢ 0 → t.color x ≢ 0)
      → t.color i ≢ 0
      → AllVisited is t r
      → AllVisited (i ∷ is) s r
  one_more i is s t (goes_on u) kept ne h = (h.0, h.1, (λ x n. h.2 x (kept x n)), (h.2 i ne, h.3))
  one_more i is s t (cycle w u) kept ne h = h
  one_more i is s t out_of_rounds kept ne h = h

  after_visit :
      (i : ℕ) (is : List ℕ) (s : Visiting) (r : Visit)
      → Visited i s r
      → ((t : Visiting) → IsVisiting g t → t.stack ≡ [] → AllVisited is t (visit_all g is t))
      → AllVisited (i ∷ is) s (elim r [
        | goes_on t ↦ visit_all g is t
        | cycle w t ↦ cycle w t
        | out_of_rounds ↦ out_of_rounds
      ])
  after_visit i is s (goes_on t) h ih = one_more i is s t _ h.2 h.3 (ih t h.0 h.1)
  after_visit i is s (cycle w t) h ih = h
  after_visit i is s out_of_rounds h ih = h

  visit_all-AllVisited :
      (is : List ℕ) (s : Visiting)
      → All (λ i. i < g.n) is
      → IsVisiting g s
      → s.stack ≡ []
      → AllVisited is s (visit_all g is s)
  unfolding visit_all
  visit_all-AllVisited [] s a h e = (h, e, (λ x ne. ne), tt)
  visit_all-AllVisited (i ∷ is) s a h e =
      after_visit i is s (visit g i s) (visit-Visited i s a.0 h e)
        (λ t k q. visit_all-AllVisited is t a.1 k q)

  -- A rank along the edges, from the heights.
  abbrev pub rank_of : (ℕ → ℕ) → ℕ → ℕ
  rank_of height i = sum g.n height - height i

  -- What link_graph finds: no open frame, every service black, and heights that fall along every
  -- edge; or a cycle. It never runs out of rounds.
  abbrev pub IsVerdict : Visit → Type 0
  IsVerdict (goes_on t) =
      (t.stack ≡ []) × ((i : ℕ) → i < g.n → t.color i ≡ 2) × IsRanked g (rank_of t.height)
  IsVerdict (cycle w t) = (rank : ℕ → ℕ) → ¬ IsRanked g rank
  IsVerdict out_of_rounds = ⊥

  abbrev pub unvisited : Visiting
  unvisited = record { color = λ i. 0; height = λ i. 0; stack = [] }

  black_of : (k : ℕ) → k ≢ 0 → 0 ≡ bit (k == 1) → k ≤ 2 → k ≡ 2
  black_of k ne e l = ground (arith, ne, e)

  all_black :
      (t : Visiting)
      → AllVisited (range 0 g.n) unvisited (goes_on t)
      → (i : ℕ) → i < g.n
      → t.color i ≡ 2
  unfolding count
  all_black t h i l =
      black_of (t.color i)
        (at_range (λ k. t.color k ≢ 0) 0 g.n i h.3 (omega arith) (omega (arith, l)))
        (ap (λ fs. count i (vertices fs)) (sym h.1) ∙ h.0.marks i l) (h.0.small i)

  found-IsVerdict : (r : Visit) → AllVisited (range 0 g.n) unvisited r → IsVerdict r
  unfolding count
  found-IsVerdict (goes_on t) h = (
    h.1,
    all_black t h,
    record {
      rises = λ i d l m ne.
          let (j, from, to, leads) = place_of g.idx d (g.off i) (g.off (i + 1) - g.off i) ne in
          let falls = h.0.closed i j l (all_black t h i l) from (omega (arith, from, to)) in
          omega (arith, falls.1, ap t.height leads, height-le t.height i l);
    },
  )
  found-IsVerdict (cycle w t) h = h
  found-IsVerdict out_of_rounds h = h

  -- Where the arrays of the graph are in bounds, the search of link_graph from every service ends
  -- within one round for each service, one for each edge, and one more. It dies of a cycle only
  -- where no ranks rise along the edges, and otherwise leaves no frame open and every service
  -- black, with heights that fall along every edge.
  pub visit_all-IsVerdict : IsVerdict (visit_all g (range 0 g.n) unvisited)
  unfolding count
  visit_all-IsVerdict = found-IsVerdict (visit_all g (range 0 g.n) unvisited) (
      visit_all-AllVisited (range 0 g.n) unvisited (range-below g.n 0 g.n (omega arith))
        (record {
          closed = λ x j l e. absurd (omega (arith, e));
          frames = tt;
          marks = λ x l. refl;
          small = λ x. omega arith;
        })
        refl)
