-- ===== src/Schedule/Visit/Stack.antt =====
-- What holds in the loop of visit() (ctl/graph.c): the services of the stack are those that are
-- grey, each is the last successor taken of the one below, and the black ones are closed.
use ninit.Prelude.{
  ℕ, ◌+◌, ◌<◌, ◌≤◌, ◌≡◌, ◌≢◌, refl, sym, ap, ◌∙◌, List, [], ◌∷◌, ◌==◌, if_keeps, update,
  update_self, update_ne, bit, count, arith,
}
use native.Mathlib.Decide.{ℕ_discrete}
use ninit.Schedule.{Linked}
use ninit.Schedule.Visit.{Frame, Visiting, push_frame}

-- the array off of link_graph, and that the edges stay within the services
pub record IsArray (g : Linked) : Type 0 where
  pub off_le : (i : ℕ) → i < g.n → g.off i ≤ g.off (i + 1)
  pub idx_lt : (i j : ℕ) → i < g.n → g.off i ≤ j → j < g.off (i + 1) → g.idx j < g.n

-- the successors of v before the place k are black
abbrev pub Taken : Linked → (ℕ → ℕ) → ℕ → ℕ → Type 0
Taken g color v k = (j : ℕ) → g.off v ≤ j → j < k → color (g.idx j) ≡ 2

-- a frame, and one whose last successor taken is w
pub record IsFrame (g : Linked) (color : ℕ → ℕ) (f : Frame) : Type 0 where
  pub in_graph : f.v < g.n
  pub from : g.off f.v ≤ f.iter
  pub to : f.iter ≤ g.off (f.v + 1)
  pub taken : Taken g color f.v f.iter

pub record IsAbove (g : Linked) (color : ℕ → ℕ) (w : ℕ) (f : Frame) : Type 0 where
  pub in_graph : f.v < g.n
  pub last : ℕ
  pub is_last : f.iter ≡ last + 1
  pub from : g.off f.v ≤ last
  pub to : last < g.off (f.v + 1)
  pub leads : g.idx last ≡ w
  pub taken : Taken g color f.v last

-- the frames below that of w
abbrev pub Below : Linked → (ℕ → ℕ) → ℕ → List Frame → Type 0
Below g color w [] = Unit
Below g color w (f ∷ rest) = IsAbove g color w f × Below g color f.v rest

abbrev pub Frames : Linked → (ℕ → ℕ) → List Frame → Type 0
Frames g color [] = Unit
Frames g color (f ∷ rest) = IsFrame g color f × Below g color f.v rest

abbrev pub vertices : List Frame → List ℕ
vertices [] = []
vertices (f ∷ rest) = f.v ∷ vertices rest

pub record IsVisiting (g : Linked) (s : Visiting) : Type 0 where
  pub closed :
      (x j : ℕ)
      → x < g.n
      → s.color x ≡ 2
      → g.off x ≤ j
      → j < g.off (x + 1)
      → (s.color (g.idx j) ≡ 2) × (s.height (g.idx j) < s.height x)
  pub frames : Frames g s.color s.stack
  pub marks : (x : ℕ) → x < g.n → count x (vertices s.stack) ≡ bit (s.color x == 1)
  pub small : (x : ℕ) → s.color x ≤ 2

-- what is black stays black
abbrev pub Keeps : (ℕ → ℕ) → (ℕ → ℕ) → Type 0
Keeps c d = (x : ℕ) → c x ≡ 2 → d x ≡ 2

pub Below-Keeps :
    (g : Linked) (c d : ℕ → ℕ) (w : ℕ) (fs : List Frame)
    → Keeps c d
    → Below g c w fs
    → Below g d w fs
Below-Keeps g c d w [] k h = tt
Below-Keeps g c d w (f ∷ rest) k h = (
  record {
    in_graph = h.0.in_graph;
    last = h.0.last;
    is_last = h.0.is_last;
    from = h.0.from;
    to = h.0.to;
    leads = h.0.leads;
    taken = λ j l m. k (g.idx j) (h.0.taken j l m);
  },
  Below-Keeps g c d f.v rest k h.1,
)

-- The frame below w when w is black: it goes on.
pub Below-Frames :
    (g : Linked) (c d : ℕ → ℕ) (w : ℕ) (fs : List Frame)
    → Keeps c d
    → d w ≡ 2
    → Below g c w fs
    → Frames g d fs
Below-Frames g c d w [] k black h = tt
Below-Frames g c d w (f ∷ rest) k black h = (
  record {
    in_graph = h.0.in_graph;
    from = omega (arith, h.0.is_last, h.0.from);
    to = omega (arith, h.0.is_last, h.0.to);
    taken = λ j l m. elim (ℕ_discrete j h.0.last) [
      | yes e ↦ ap (λ i. d (g.idx i)) e ∙ ap d h.0.leads ∙ black
      | no other ↦ k (g.idx j) (h.0.taken j l (grind (arith, other, m, h.0.is_last)))
    ];
  },
  Below-Keeps g c d f.v rest k h.1,
)

-- A service that is not black keeps the others black when it changes its color.
pub update-Keeps : (c : ℕ → ℕ) (w v : ℕ) → c w ≢ 2 → Keeps c (update c w v)
update-Keeps c w v ne x e = update_ne c w v (λ q. ne (ap c (sym q) ∙ e)) ∙ e

grey_bit : (k : ℕ) → k ≢ 1 → bit (k == 1) ≡ 0
grey_bit k ne = ground (arith, ne)

pub bit-update : (c : ℕ → ℕ) (w v x : ℕ) → x ≢ w → bit (update c w v x == 1) ≡ bit (c x == 1)
bit-update c w v x ne = ap (λ k. bit (k == 1)) (update_ne c w v ne)

module _ (g : Linked) (wf : IsArray g) where
  -- a white service is put on the stack
  pub push-IsVisiting :
      (w : ℕ) (s : Visiting)
      → w < g.n
      → s.color w ≢ 1
      → s.color w ≢ 2
      → ((x j : ℕ)
          → x < g.n
          → s.color x ≡ 2
          → g.off x ≤ j
          → j < g.off (x + 1)
          → (s.color (g.idx j) ≡ 2) × (s.height (g.idx j) < s.height x))
      → Below g s.color w s.stack
      → ((x : ℕ) → x < g.n → count x (vertices s.stack) ≡ bit (s.color x == 1))
      → ((x : ℕ) → s.color x ≤ 2)
      → IsVisiting g (push_frame g w s)
  unfolding push_frame count
  push-IsVisiting w s l not_grey not_black closed below marks small = record {
    closed = λ x j m e from to.
        let other : x ≢ w = λ q.
          absurd (omega (arith, sym (ap (update s.color w 1) q) ∙ e, update_self s.color w 1)) in
        let there = closed x j m (sym (update_ne s.color w 1 other) ∙ e) from to in
        (update-Keeps s.color w 1 not_black (g.idx j) there.0, there.1);
    frames = (
      record {
        in_graph = l;
        from = omega arith;
        to = wf.off_le w l;
        taken = λ j m k. absurd (omega (arith, m, k));
      },
      Below-Keeps g s.color (update s.color w 1) w s.stack (update-Keeps s.color w 1 not_black)
          below,
    );
    marks = λ x m. elim (ℕ_discrete x w) [
      | yes e ↦
          let grey : bit (update s.color w 1 x == 1) ≡ 1 =
            rw e (rw (update_self s.color w 1) refl) in
          let before : bit (s.color x == 1) ≡ 0 = rw e (grey_bit (s.color w) not_grey) in
          let here : bit (w == x) ≡ 1 = ground (arith, e) in
          omega (arith, grey, before, here, marks x m)
      | no other ↦
          let z : bit (w == x) ≡ 0 = ground (arith, other) in
          omega (arith, z, bit-update s.color w 1 x other, marks x m)
    ];
    small = λ x. if_keeps (λ k. k ≤ 2) (x == w) 1 (s.color x) (λ _. omega arith) (λ _. small x);
  }
