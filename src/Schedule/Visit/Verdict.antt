-- ===== src/Schedule/Visit/Verdict.antt =====
-- What a round of visit() makes of its state: another with less to do, or a cycle that is one
-- (ctl/graph.c).
use ninit.Prelude.{
  ℕ, ◌+◌, ◌-◌, ◌<◌, ◌≤◌, ◌≡◌, ◌≢◌, refl, sym, ap, subst, ◌∙◌, List, [], ◌∷◌, ◌==◌, ==_iff, ltb,
  if◌then◌else◌, if_keeps, update, update_self, update_ne, bit, count, sum, sum-change, sum-ext,
  arith, false,
}
use native.Mathlib.Decide.{ℕ_discrete}
use ninit.Schedule.{Linked, successors}
use ninit.Schedule.Whole.{IsRanked}
use ninit.Schedule.Visit.{
  Frame, Visiting, Visit, goes_on, cycle, out_of_rounds, push_frame, visit_top,
}
use ninit.Schedule.Visit.Stack.{
  IsArray, IsAbove, Below, Frames, vertices, IsVisiting, push-IsVisiting,
}
use ninit.Schedule.Visit.Rounds.{pop-IsVisiting, successors-at, grey_of}

-- the rounds that are left: those for the white services, and for the frames
abbrev pub white : Linked → (ℕ → ℕ) → ℕ → ℕ
white g color v = if color v == 0 then g.off (v + 1) - g.off v + 1 else 0

abbrev pub left : Linked → List Frame → ℕ
left g [] = 0
left g (f ∷ rest) = g.off (f.v + 1) - f.iter + 1 + left g rest

abbrev pub potential : Linked → Visiting → ℕ
potential g s = sum g.n (white g s.color) + left g s.stack

-- what a round, or several, make of s
abbrev pub Verdict : Linked → Visiting → Visit → Type 0
Verdict g s (goes_on t) =
    IsVisiting g t × (potential g t < potential g s) × ((x : ℕ) → s.color x ≢ 0 → t.color x ≢ 0)
Verdict g s (cycle w t) = (rank : ℕ → ℕ) → ¬ IsRanked g rank
Verdict g s out_of_rounds = ⊥

module _ (g : Linked) (wf : IsArray g) where
  Below-rank :
      (rank color : ℕ → ℕ) (w : ℕ) (fs : List Frame)
      → IsRanked g rank
      → w < g.n
      → Below g color w fs
      → (x : ℕ) → count x (vertices fs) ≢ 0
      → rank x < rank w
  unfolding count
  Below-rank rank color w [] r l b x ne = absurd (ne refl)
  Below-rank rank color w (f ∷ rest) r l b x ne =
      let edge =
        subst (λ d. count d (successors g f.v) ≢ 0) b.0.leads
          (successors-at g f.v b.0.last b.0.from b.0.to) in
      let here = r.rises f.v w b.0.in_graph l edge in
      elim (ℕ_discrete x f.v) [
        | yes e ↦ omega (arith, here, ap rank e)
        | no other ↦
            let z : bit (f.v == x) ≡ 0 = ground (arith, other) in
            let deeper =
              Below-rank rank color f.v rest r b.0.in_graph b.1 x (λ q. ne (omega (arith, z, q))) in
            omega (arith, here, deeper)
      ]

  -- a grey successor of the top closes a cycle
  cycle_found :
      (f : Frame) (rest : List Frame) (s : Visiting)
      → s.stack ≡ f ∷ rest
      → IsVisiting g s
      → f.iter < g.off (f.v + 1)
      → s.color (g.idx f.iter) ≡ 1
      → (rank : ℕ → ℕ) → ¬ IsRanked g rank
  unfolding count
  cycle_found f rest s e h more grey rank r =
      let frames = subst (Frames g s.color) e h.frames in
      let w = g.idx f.iter in
      let l = wf.idx_lt f.v f.iter frames.0.in_graph frames.0.from more in
      let up = r.rises f.v w frames.0.in_graph l (successors-at g f.v f.iter frames.0.from more) in
      let on_stack : count w (f.v ∷ vertices rest) ≡ 1 =
        ap (λ fs. count w (vertices fs)) (sym e) ∙ h.marks w l ∙ ap (λ k. bit (k == 1)) grey in
      elim (ℕ_discrete w f.v) [
        | yes q ↦ absurd (omega (arith, up, ap rank q))
        | no other ↦
            let z : bit (f.v == w) ≡ 0 = ground (arith, other) in
            let down =
              Below-rank rank s.color f.v rest r frames.0.in_graph frames.1 w
                (λ q. absurd (omega (arith, z, on_stack, q))) in
            absurd (omega (arith, up, down))
      ]

  pub white-push :
      (color : ℕ → ℕ) (w : ℕ)
      → w < g.n
      → color w ≡ 0
      → sum g.n (white g (update color w 1)) + (g.off (w + 1) - g.off w + 1)
        ≡ sum g.n (white g color)
  white-push color w l e =
      let change = sum-change g.n w (white g (update color w 1)) (white g color) l (λ j ne.
        ap (λ k. if k == 0 then g.off (j + 1) - g.off j + 1 else 0) (update_ne color w 1 ne)) in
      let old : white g color w ≡ g.off (w + 1) - g.off w + 1 = rw e refl in
      let new : white g (update color w 1) w ≡ 0 = rw (update_self color w 1) refl in
      omega (arith, change, old, new)

  white-pop :
      (color : ℕ → ℕ) (v : ℕ)
      → color v ≡ 1
      → sum g.n (white g (update color v 2)) ≡ sum g.n (white g color)
  white-pop color v e = sum-ext g.n _ _ (λ j l. elim (ℕ_discrete j v) [
    | yes same ↦ rw same (rw (update_self color v 2, e) refl)
    | no other ↦
        ap (λ k. if k == 0 then g.off (j + 1) - g.off j + 1 else 0) (update_ne color v 2 other)
  ])

  pub colored : (color : ℕ → ℕ) (v k : ℕ) → k ≢ 0 → (x : ℕ) → color x ≢ 0 → update color v k x ≢ 0
  colored color v k ne x h = if_keeps (λ c. c ≢ 0) (x == v) k (color x) (λ _. ne) (λ _. h)

  module _ (f : Frame) (rest : List Frame) (s : Visiting) (e : s.stack ≡ f ∷ rest)
      (h : IsVisiting g s) where
    frames : Frames g s.color (f ∷ rest)
    frames = subst (Frames g s.color) e h.frames

    marks : (x : ℕ) → x < g.n → count x (f.v ∷ vertices rest) ≡ bit (s.color x == 1)
    marks x m = ap (λ fs. count x (vertices fs)) (sym e) ∙ h.marks x m

    -- the top frame after one more successor
    abbrev moved : Visiting
    moved = record s { stack = record f { iter = f.iter + 1 } ∷ rest }

    potential-moved : f.iter < g.off (f.v + 1) → potential g moved < potential g s
    potential-moved more = omega (arith, ap (left g) e, more)

    black-Verdict :
        f.iter < g.off (f.v + 1) → s.color (g.idx f.iter) ≡ 2 → Verdict g s (goes_on moved)
    black-Verdict more black = (
      record {
        closed = h.closed;
        frames = (
          record {
            in_graph = frames.0.in_graph;
            from = omega (arith, frames.0.from);
            to = omega (arith, more);
            taken = λ j l m. elim (ℕ_discrete j f.iter) [
              | yes q ↦ ap (λ i. s.color (g.idx i)) q ∙ black
              | no other ↦ frames.0.taken j l (grind (arith, other, m))
            ];
          },
          frames.1,
        );
        marks = marks;
        small = h.small;
      },
      potential-moved more,
      λ x ne. ne,
    )

    white-Verdict :
        f.iter < g.off (f.v + 1)
        → s.color (g.idx f.iter) ≡ 0
        → Verdict g s (goes_on (push_frame g (g.idx f.iter) moved))
    unfolding push_frame
    white-Verdict more is_white =
        let w = g.idx f.iter in
        let l = wf.idx_lt f.v f.iter frames.0.in_graph frames.0.from more in
        let above : IsAbove g s.color w (record f { iter = f.iter + 1 }) = record {
          in_graph = frames.0.in_graph;
          last = f.iter;
          is_last = refl;
          from = frames.0.from;
          to = more;
          leads = refl;
          taken = frames.0.taken;
        } in
        (
          push-IsVisiting g wf w moved l (λ q. absurd (omega (arith, q, is_white)))
              (λ q. absurd (omega (arith, q, is_white))) h.closed (above, frames.1) marks h.small,
          omega (arith, potential-moved more, white-push s.color w l is_white),
          colored s.color w 1 (λ q. absurd (omega (arith, q))),
        )

    grey : s.color f.v ≡ 1
    unfolding count
    grey =
        let top : bit (f.v == f.v) ≡ 1 = ground arith in
        grey_of (s.color f.v) (count f.v (vertices rest))
          (omega (arith, marks f.v frames.0.in_graph, top))

    white_of : (k : ℕ) → k ≤ 2 → (k == 1) ≡ false → (k == 2) ≡ false → k ≡ 0
    white_of k l a b = grind (arith, a, b)

    pub visit_top-Verdict : Verdict g s (visit_top g f rest s)
    unfolding visit_top
    visit_top-Verdict =
        let w = g.idx f.iter in
        if_keeps (Verdict g s) (ltb f.iter (g.off (f.v + 1))) _ _
          (λ q.
            let more : f.iter < g.off (f.v + 1) = grind (arith, q) in
            if_keeps (Verdict g s) (s.color w == 1) _ _
              (λ grey. cycle_found f rest s e h more ((==_iff (s.color w) 1).0 grey))
              (λ not_grey.
                if_keeps (Verdict g s) (s.color w == 2) _ _
                  (λ black. black-Verdict more ((==_iff (s.color w) 2).0 black))
                  (λ not_black.
                    white-Verdict more (white_of (s.color w) (h.small w) not_grey not_black))))
          (λ q.
            let full : g.off (f.v + 1) ≤ f.iter = grind (arith, q) in
            (
              pop-IsVisiting g wf f rest s e full h,
              omega (arith, ap (left g) e, white-pop s.color f.v grey),
              colored s.color f.v 2 (λ r. absurd (omega (arith, r))),
            ))
