-- ===== src/Schedule/Visit/Rounds.antt =====
-- One round of visit() (ctl/graph.c): what holds of the stack is kept, a round less is left, and a
-- cycle that is found is one.
use ninit.Prelude.{
  bit-le, ℕ, zero, suc, ◌+◌, ◌-◌, ◌<◌, ◌≤◌, ◌≡◌, ◌≢◌, refl, sym, ap, subst, ◌∙◌, List, [], ◌∷◌, map,
  ◌==◌, ltb, if◌then◌else◌, if_keeps, range, update, update_self, update_ne, bit, count, arith,
}
use native.Mathlib.Decide.{ℕ_discrete}
use ninit.Schedule.{Linked, successors}
use ninit.Schedule.Visit.{Frame, Visiting, tallest}
use ninit.Schedule.Visit.Stack.{
  IsArray, Frames, vertices, IsVisiting, Keeps, Below-Frames, bit-update,
}

tallest-above : (height : ℕ → ℕ) (ds : List ℕ) (h : ℕ) → h ≤ tallest height ds h
unfolding tallest
tallest-above height [] h = omega arith
tallest-above height (d ∷ ds) h =
    let more : h ≤ (if ltb h (height d + 1) then height d + 1 else h) =
      if_keeps (λ k. h ≤ k) (ltb h (height d + 1)) _ _ (λ e. grind (arith, e)) (λ _. omega arith) in
    omega (arith, more, tallest-above height ds (if ltb h (height d + 1) then height d + 1 else h))

-- The new height is above that of each successor.
tallest_over :
    (height idx : ℕ → ℕ) (from n h j : ℕ)
    → from ≤ j
    → j < from + n
    → height (idx j) < tallest height (map idx (range from n)) h
unfolding tallest
tallest_over height idx from zero h j l m = absurd (omega arith)
tallest_over height idx from (suc n) h j l m = elim (ℕ_discrete j from) [
  | yes e ↦
      let next = if ltb h (height (idx from) + 1) then height (idx from) + 1 else h in
      let enough : height (idx from) + 1 ≤ next =
        if_keeps (λ k. height (idx from) + 1 ≤ k) (ltb h (height (idx from) + 1)) _ h
          (λ _. omega arith) (λ q. grind (arith, q)) in
      let all = tallest-above height (map idx (range (from + 1) n)) next in
      omega (arith, enough, all, ap (λ i. height (idx i)) e)
  | no other ↦ tallest_over height idx (from + 1) n _ j (grind (arith, other)) (omega arith)
]

-- a place in the list of successors is a successor
pub successors-at :
    (g : Linked) (v j : ℕ) → g.off v ≤ j → j < g.off (v + 1) → count (g.idx j) (successors g v) ≢ 0
unfolding count
successors-at g v j l m = there (g.off v) (g.off (v + 1) - g.off v) l (omega (arith, l, m))
  where
    there : (from n : ℕ) → from ≤ j → j < from + n → count (g.idx j) (map g.idx (range from n)) ≢ 0
    there from zero l m = absurd (omega arith)
    there from (suc n) l m = elim (ℕ_discrete j from) [
      | yes e ↦
          let here : bit (g.idx from == g.idx j) ≡ 1 = ground (arith, ap g.idx e) in
          λ z. absurd (omega (arith, here, z))
      | no other ↦
          let rest = there (from + 1) n (grind (arith, other)) (omega arith) in
          λ z. rest (omega (arith, z))
    ]

pub grey_of : (k n : ℕ) → 1 + n ≡ bit (k == 1) → k ≡ 1
grey_of k n e = ground (arith, e)

module _ (g : Linked) (wf : IsArray g) where
  -- the top service is done
  pub pop-IsVisiting :
      (f : Frame) (rest : List Frame) (s : Visiting)
      → s.stack ≡ f ∷ rest
      → g.off (f.v + 1) ≤ f.iter
      → IsVisiting g s
      → IsVisiting g (record {
        color = update s.color f.v 2;
        height = update s.height f.v (tallest s.height (successors g f.v) 0);
        stack = rest;
      })
  unfolding count
  pop-IsVisiting f rest s e full h = record {
    closed = λ x j m black from to. elim (ℕ_discrete x f.v) [
      | yes same ↦
          let there =
            frames.0.taken j (subst (λ y. g.off y ≤ j) same from)
              (omega (arith, full, subst (λ y. j < g.off (y + 1)) same to)) in
          let apart = not_top (g.idx j) there in
          let taller =
            tallest_over s.height g.idx (g.off f.v) (g.off (f.v + 1) - g.off f.v) 0 j
              (subst (λ y. g.off y ≤ j) same from)
              (omega (
                arith,
                subst (λ y. g.off y ≤ j) same from,
                subst (λ y. j < g.off (y + 1)) same to,
              )) in
          (
            keeps (g.idx j) there,
            omega (
              arith,
              taller,
              update_ne s.height f.v top_height apart,
              ap (update s.height f.v top_height) same,
              update_self s.height f.v top_height,
            ),
          )
      | no other ↦
          let there = h.closed x j m (sym (update_ne s.color f.v 2 other) ∙ black) from to in
          let apart = not_top (g.idx j) there.0 in
          (
            keeps (g.idx j) there.0,
            omega (
              arith,
              there.1,
              update_ne s.height f.v top_height apart,
              update_ne s.height f.v top_height other,
            ),
          )
    ];
    frames =
        Below-Frames g s.color (update s.color f.v 2) f.v rest keeps (update_self s.color f.v 2)
          frames.1;
    marks = λ x m. elim (ℕ_discrete x f.v) [
      | yes same ↦
          let done : bit (update s.color f.v 2 x == 1) ≡ 0 =
            rw same (rw (update_self s.color f.v 2) refl) in
          let top : bit (f.v == x) ≡ 1 = ground (arith, same) in
          omega (arith, done, top, marks x m, bit-le (s.color x == 1))
      | no other ↦
          let z : bit (f.v == x) ≡ 0 = ground (arith, other) in
          omega (arith, z, marks x m, bit-update s.color f.v 2 x other)
    ];
    small = λ x. if_keeps (λ k. k ≤ 2) (x == f.v) 2 (s.color x) (λ _. omega arith) (λ _. h.small x);
  }
    where
      frames : Frames g s.color (f ∷ rest)
      frames = subst (Frames g s.color) e h.frames

      marks : (x : ℕ) → x < g.n → count x (f.v ∷ vertices rest) ≡ bit (s.color x == 1)
      marks x m = ap (λ fs. count x (vertices fs)) (sym e) ∙ h.marks x m

      keeps : Keeps s.color (update s.color f.v 2)
      keeps x black = elim (ℕ_discrete x f.v) [
        | yes same ↦ ap (update s.color f.v 2) same ∙ update_self s.color f.v 2
        | no other ↦ update_ne s.color f.v 2 other ∙ black
      ]

      grey : s.color f.v ≡ 1
      grey =
          let top : bit (f.v == f.v) ≡ 1 = ground arith in
          grey_of (s.color f.v) (count f.v (vertices rest))
            (omega (arith, marks f.v frames.0.in_graph, top))

      not_top : (y : ℕ) → s.color y ≡ 2 → y ≢ f.v
      not_top y black q = absurd (omega (arith, black, grey, ap s.color q))

      top_height : ℕ
      top_height = tallest s.height (successors g f.v) 0
