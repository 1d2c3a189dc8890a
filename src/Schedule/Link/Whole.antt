-- ===== src/Schedule/Link/Whole.antt =====
-- The graph that link_graph makes of the edges has them all, and is what schedule() relies on
-- (ctl/graph.c).
use ninit.Prelude.{
  Bool, true, false, ℕ, zero, suc, ◌+◌, ◌-◌, ◌<◌, ◌≤◌, ◌≡◌, ◌≢◌, refl, sym, ap, subst, ◌∙◌, List,
  [], ◌∷◌, map, All, ◌==◌, if◌then◌else◌, if_keeps, range, bit, bit-le, count, counts, sum, sum-ext,
  sum-change, sum_none, arith, length,
}
use native.Mathlib.Decide.{ℕ_discrete}
use ninit.Schedule.{Linked, successors, Edge}
use ninit.Schedule.Steps.{IsLinked}
use ninit.Schedule.Forward.{IsEdge}
use ninit.Schedule.Visit.Stack.{IsArray}
use ninit.Schedule.Link.{Degrees, count_edges, link_edges}
use ninit.Schedule.Link.Filled.{
  sources, all_targets, targets_of, count_edges-counts, add_offsets-sums, fill_lists-targets,
  starts_mono,
}

-- the edges are between the services
abbrev pub AreEdges : ℕ → List Edge → Type 0
AreEdges n es = All (λ e. (e.a < n) × (e.b < n)) es

sources-below : (n : ℕ) (es : List Edge) → AreEdges n es → All (λ e. e.a < n) es
sources-below n [] h = tt
sources-below n (e ∷ es) h = (h.0.0, sources-below n es h.1)

sources_below : (n : ℕ) (es : List Edge) → AreEdges n es → All (λ d. d < n) (sources es)
sources_below n [] h = tt
sources_below n (e ∷ es) h = (h.0.0, sources_below n es h.1)

length-sources : (es : List Edge) → length (sources es) ≡ length es
length-sources [] = refl
length-sources (e ∷ es) = omega (arith, length-sources es)

length-all_targets : (es : List Edge) → length (all_targets es) ≡ length es
length-all_targets [] = refl
length-all_targets (e ∷ es) = omega (arith, length-all_targets es)

all_at :
    (P : ℕ → Type 0) (f : ℕ → ℕ) (from n j : ℕ)
    → All P (map f (range from n))
    → from ≤ j
    → j < from + n
    → P (f j)
all_at P f from zero j h l m = absurd (omega arith)
all_at P f from (suc n) j h l m = elim (ℕ_discrete j from) [
  | yes e ↦ subst (λ k. P (f k)) (sym e) h.0
  | no other ↦ all_at P f (from + 1) n j h.1 (grind (arith, other)) (omega arith)
]

count-le : (d : ℕ) (xs : List ℕ) → count d xs ≤ length xs
unfolding count
count-le d [] = omega arith
count-le d (x ∷ xs) = omega (arith, count-le d xs, bit-le (x == d))

count-targets_of :
    (a d : ℕ) (e : Edge) (es : List Edge)
    → count d (targets_of a (e ∷ es))
      ≡ (if e.a == a then bit (e.b == d) else 0) + count d (targets_of a es)
unfolding count
count-targets_of a d e es = by_test (e.a == a)
  where
    by_test :
        (b : Bool)
        → count d (if b then e.b ∷ targets_of a es else targets_of a es)
          ≡ (if b then bit (e.b == d) else 0) + count d (targets_of a es)
    by_test true = refl
    by_test false = omega arith

-- the edges to d, counted at where they come from
sum-targets_of :
    (n : ℕ) (es : List Edge) (d : ℕ)
    → AreEdges n es
    → sum n (λ i. count d (targets_of i es)) ≡ count d (all_targets es)
unfolding count
sum-targets_of n [] d h = sum_none n
sum-targets_of n (e ∷ es) d h =
    let change =
      sum-change n e.a (λ i. count d (targets_of i (e ∷ es))) (λ i. count d (targets_of i es)) h.0.0
        (λ j other.
          let miss : (e.a == j) ≡ false = ground (arith, other) in
          count-targets_of j d e es
          ∙ ap (λ b. (if b then bit (e.b == d) else 0) + count d (targets_of j es)) miss
          ∙ omega arith) in
    let hit : (e.a == e.a) ≡ true = ground arith in
    omega (
      arith,
      change,
      sum-targets_of n es d h.1,
      count-targets_of e.a d e es,
      ap (λ b. if b then bit (e.b == d) else 0) hit,
    )

targets_of-below : (n a : ℕ) (es : List Edge) → AreEdges n es → All (λ d. d < n) (targets_of a es)
targets_of-below n a [] h = tt
targets_of-below n a (e ∷ es) h =
    if_keeps (All (λ d. d < n)) (e.a == a) _ (targets_of a es)
      (λ _. (h.0.1, targets_of-below n a es h.1)) (λ _. targets_of-below n a es h.1)

module _ (n : ℕ) (es : List Edge) (h : AreEdges n es) (few : length es + 1 < 4294967296) where
  abbrev g : Linked
  g = link_edges n es

  abbrev out : ℕ → ℕ
  out a = count a (sources es)

  abbrev zeros : Degrees
  zeros = record { off = λ i. 0; indeg = λ i. 0 }

  counted :
      (k : ℕ)
      → ((count_edges es zeros).off 0 ≡ 0)
        × ((count_edges es zeros).off (k + 1) ≡ 0 + out k)
        × ((count_edges es zeros).indeg k ≡ 0 + count k (all_targets es))
  counted k = count_edges-counts es zeros (λ j. omega (arith, few)) (λ j. omega (arith, few)) k

  sum-out : (i : ℕ) → i ≤ n → sum i out < 4294967296
  sum-out i l =
      let whole : i + (n - i) ≡ n = omega (arith, l) in
      omega (
        arith,
        starts_mono out (n - i) i,
        ap (λ k. sum k out) whole,
        counts n (sources es) (sources_below n es h),
        length-sources es,
        few,
      )

  off-sums : (i : ℕ) → i ≤ n → g.off i ≡ sum i out
  unfolding link_edges sum
  off-sums i l =
      add_offsets-sums out n 0 (count_edges es zeros).off
        (λ j m.
          let none : 0 ≡ j = omega (arith, m) in
          ap (count_edges es zeros).off (sym none) ∙ (counted 0).0 ∙ ap (λ k. sum k out) none)
        (λ j m. (counted j).1 ∙ omega arith) (λ j m. sum-out j (omega (arith, m))) i
        (omega (arith, l))

  off-next : (a : ℕ) → a < n → g.off (a + 1) ≡ g.off a + out a
  unfolding sum
  off-next a l =
      let s : sum (suc a) out ≡ out a + sum a out = refl in
      let next : suc a ≡ a + 1 = omega arith in
      omega (
        arith,
        off-sums (a + 1) (omega (arith, l)),
        off-sums a (omega (arith, l)),
        s,
        ap (λ k. sum k out) next,
      )

  -- The successors of a service are the targets of its edges, in their order.
  pub successors-link_edges : (a : ℕ) → a < n → successors g a ≡ targets_of a es
  unfolding link_edges
  successors-link_edges a l =
      let size : g.off (a + 1) - g.off a ≡ out a = omega (arith, off-next a l) in
      ap (λ k. map g.idx (range (g.off a) k)) size
      ∙ fill_lists-targets n out g.off
          (λ b m. omega (arith, few, count-le b (sources es), length-sources es))
          (λ b m. off-sums b (omega (arith, m))) es (λ i. 0) (λ i. 0) (sources-below n es h)
          (λ b m. omega arith) a l

  -- Where the edges are between the services, and fewer than 2^32 - 1, link_graph makes a linked
  -- graph of them.
  pub link_edges-IsLinked : IsLinked g
  unfolding link_edges
  link_edges-IsLinked = record {
    within = λ i l.
        subst (All (λ d. d < n)) (sym (successors-link_edges i l)) (targets_of-below n i es h);
    degrees = λ d l. omega (
      arith,
      (counted d).2,
      sum-targets_of n es d h,
      sum-ext n (λ i. count d (targets_of i es)) (λ i. count d (successors g i))
          (λ i m. ap (count d) (sym (successors-link_edges i m))),
    );
    few = λ d l.
        omega (arith, (counted d).2, count-le d (all_targets es), length-all_targets es, few);
  }

  pub link_edges-IsArray : IsArray g
  unfolding link_edges
  link_edges-IsArray = record {
    off_le = λ i l. omega (arith, off-next i l);
    idx_lt = λ i j l from to.
        all_at (λ d. d < n) g.idx (g.off i) (g.off (i + 1) - g.off i) j
          (link_edges-IsLinked.within i l) from (omega (arith, from, to));
  }

  each_listed :
      (ds : List Edge)
      → AreEdges n ds
      → ((a d : ℕ) → count d (targets_of a ds) ≤ count d (targets_of a es))
      → All (IsEdge g) ds
  unfolding link_edges count
  each_listed [] k more = tt
  each_listed (e ∷ ds) k more =
      let hit : (e.a == e.a) ≡ true = ground arith in
      let one : bit (e.b == e.b) ≡ 1 = ground arith in
      let some_times : 1 ≤ count e.b (targets_of e.a es) = omega (
        arith,
        one,
        count-targets_of e.a e.b e ds,
        ap (λ b. if b then bit (e.b == e.b) else 0) hit,
        more e.a e.b,
      ) in
      (
        record {
          from = k.0.0;
          to = k.0.1;
          listed = λ z. absurd (
              omega
                (arith, some_times, sym (ap (count e.b) (successors-link_edges e.a k.0.0)) ∙ z));
        },
        each_listed ds k.1 (λ a d. omega (arith, more a d, count-targets_of a d e ds)),
      )

  -- Each edge is in the lists.
  pub link_edges-IsEdge : All (IsEdge g) es
  link_edges-IsEdge = each_listed es h (λ a d. omega arith)

  -- and there are no others
  pub ranked_edge :
      (rank : ℕ → ℕ) (a d : ℕ)
      → All (λ e. rank e.a < rank e.b) es
      → a < n
      → count d (successors g a) ≢ 0
      → rank a < rank d
  unfolding count
  ranked_edge rank a d r l ne = among es r (λ z. ne (ap (count d) (successors-link_edges a l) ∙ z))
    where
      among :
          (ds : List Edge)
          → All (λ e. rank e.a < rank e.b) ds
          → count d (targets_of a ds) ≢ 0
          → rank a < rank d
      among [] r ne = absurd (ne refl)
      among (e ∷ ds) r ne =
          let split = count-targets_of a d e ds in
          elim (ℕ_discrete e.a a) [
            | yes q ↦
                let hit : (e.a == a) ≡ true = ground (arith, q) in
                let here = ap (λ b. if b then bit (e.b == d) else 0) hit in
                elim (ℕ_discrete e.b d) [
                  | yes t ↦ omega (arith, r.0, ap rank q, ap rank t)
                  | no other ↦
                      let z : bit (e.b == d) ≡ 0 = ground (arith, other) in
                      among ds r.1 (λ k. ne (omega (arith, z, k, split, here)))
                ]
            | no other ↦
                let miss : (e.a == a) ≡ false = ground (arith, other) in
                let here = ap (λ b. if b then bit (e.b == d) else 0) miss in
                among ds r.1 (λ k. ne (omega (arith, k, split, here)))
          ]
