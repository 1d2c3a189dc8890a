-- ===== src/Verify/Accepted.antt =====
-- An image that ng_verify accepts is a well-formed graph (src/ngraph.c).
use ninit.Prelude.{
  ℕ, zero, suc, ◌+◌, ◌-◌, ◌*◌, ◌/◌, ◌≤◌, ◌<◌, ◌≡◌, refl, ap, sym, subst, ◌∙◌, Bool, false, not,
  ◌&&◌, List, [], ◌∷◌, map, Option, none, some, ◌==◌, if◌then◌else◌, inl, inr, Bool-cases, if_keeps,
  arith, All, range, sum, count, update, inc32, length, ==_iff,
}
use native.Mathlib.Nat.{mul-le-mul}
use ninit.Graph.{IsWellFormed, dependents}
use ninit.Verify.{
  Problem, Image, reject, or_else, first, header_problem, section_problem, edge_problem,
  degree_problem, root_problem, svc_problem, in_degrees, table_problem, ng_verify, graph_of,
}

reject-none :
    (b : Bool) (p : Problem) (r : Option Problem) → reject b p r ≡ none → (b ≡ false) × (r ≡ none)
unfolding reject
reject-none b p r e = ground arith

or_else-none : (p q : Option Problem) → or_else p q ≡ none → (p ≡ none) × (q ≡ none)
unfolding or_else
or_else-none none q e = (refl, e)
or_else-none (some p) q e = absurd (ground arith)

first-none :
    (check : ℕ → Option Problem) (from k : ℕ)
    → first check (range from k) ≡ none
    → (i : ℕ) → from ≤ i
    → i < from + k
    → check i ≡ none
unfolding first
first-none check from zero e i l m = absurd (omega arith)
first-none check from (suc k) e i l m =
    let both = or_else-none _ _ e in
    elim (Bool-cases (from == i)) [
      | inl same ↦ subst (λ j. check j ≡ none) ((==_iff from i).0 same) both.0
      | inr other ↦ first-none check (from + 1) k both.1 i (ground arith) (omega arith)
    ]

-- A range counts as its two parts do.
pub count-range :
    (f : ℕ → ℕ) (d from a at b c : ℕ)
    → c ≡ a + b
    → at ≡ from + a
    → count d (map f (range from c)) ≡ count d (map f (range from a)) + count d (map f (range at b))
unfolding count
count-range f d from zero at b c e q =
    let same : c ≡ b = omega arith in
    let here : at ≡ from = omega arith in rw (same, here) (omega arith)
count-range f d from (suc a) at b zero e q = absurd (omega arith)
count-range f d from (suc a) at b (suc c) e q =
    omega (arith, count-range f d (from + 1) a at b c (omega arith) (omega arith))

length-range : (from k : ℕ) → length (range from k) ≡ k
length-range from zero = refl
length-range from (suc k) = omega (arith, length-range (from + 1) k)

few_edges : (n m : ℕ) → n ≤ 8192 → m ≤ n * (n - 1) / 2 → m < 4294967296
few_edges n m h k =
    let square : n * (n - 1) ≤ 8192 * 8192 = mul-le-mul {m₂ = 8192} h (omega arith) in omega arith

starts_at : (n a : ℕ) → (not (n == 0) && not (a == 0)) ≡ false → zero < n → a ≡ 0
starts_at n a e l = ground arith

ends : (a b : ℕ) → not (a == b) ≡ false → a ≡ b
ends a b e = ground arith

module _ (img : Image) where
  header-limits :
      header_problem img ≡ none
      → (img.n_svc ≤ 8192)
        × (img.n_roots ≤ img.n_svc)
        × (img.n_edges ≤ img.n_svc * (img.n_svc - 1) / 2)
  unfolding header_problem reject
  header-limits e = ground arith

  section-ends : section_problem img ≡ none → img.roff img.n_svc ≡ img.n_edges
  unfolding section_problem
  section-ends e =
      let skip = λ (b : Bool) (p : Problem) (r : Option Problem) (q : reject b p r ≡ none).
        (reject-none b p r q).1 in
      let last =
        (reject-none _ _ _ (
          skip _ _ _ (
            skip _ _ _ (
              skip _ _ _ (
                skip _ _ _
                  (skip _ _ _ (skip _ _ _ (skip _ _ _ (skip _ _ _ (skip _ _ _ e)))))))))).0 in
      ends _ _ last

  edge-forward :
      (i j : ℕ) → edge_problem img i j ≡ none → (i < img.ridx j) × (img.ridx j < img.n_svc)
  unfolding edge_problem reject
  edge-forward i j e = ground arith

  degree-small : (i : ℕ) → degree_problem img i ≡ none → (img.svcs i).unmet < img.n_svc
  unfolding degree_problem reject
  degree-small i e = ground arith

  root-free : (i : ℕ) → root_problem img i ≡ none → i < img.n_roots → (img.svcs i).unmet ≡ 0
  unfolding root_problem reject
  root-free i e l = ground arith

  monotonic : (i : ℕ) → svc_problem img i ≡ none → img.roff i ≤ img.roff (i + 1)
  unfolding svc_problem
  monotonic i e = let ordered = (reject-none _ _ _ e).0 in ground arith

  svc-parts :
      (i : ℕ)
      → svc_problem img i ≡ none
      → (first (edge_problem img i) (range (img.roff i) (img.roff (i + 1) - img.roff i)) ≡ none)
        × (degree_problem img i ≡ none)
        × (root_problem img i ≡ none)
  unfolding svc_problem
  svc-parts i e =
      let edges = or_else-none _ _ (reject-none _ _ _ e).1 in
      let degree = or_else-none _ _ edges.1 in
      let flags = or_else-none _ _ degree.1 in
      let root = or_else-none _ _ flags.1 in (edges.0, degree.0, root.0)

  -- what the loop over a service's dependents has looked at
  edges-forward :
      (i from k : ℕ)
      → first (edge_problem img i) (range from k) ≡ none
      → All (λ d. (i < d) × (d < img.n_svc)) (map img.ridx (range from k))
  unfolding first
  edges-forward i from zero e = tt
  edges-forward i from (suc k) e =
      let both = or_else-none _ _ e in
      (edge-forward i from both.0, edges-forward i (from + 1) k both.1)

  -- The scratch counts are the in-degrees.
  in_degrees-count :
      (ks : List ℕ) (scratch : ℕ → ℕ) (d : ℕ)
      → scratch d + length ks < 4294967296
      → ((j : ℕ) → scratch j + length ks < 4294967296)
      → in_degrees img ks scratch d ≡ scratch d + count d (map img.ridx ks)
  unfolding in_degrees count
  in_degrees-count [] scratch d l h = omega arith
  in_degrees-count (k ∷ ks) scratch d l h =
      let hit = img.ridx k in
      let small = λ (j : ℕ).
        if_keeps (λ x. x + length ks < 4294967296) (j == hit) (inc32 (scratch hit)) (scratch j)
          (λ _. let bound = h hit in ground arith) (λ _. let bound = h j in ground arith) in
      let rest = in_degrees-count ks (update scratch hit (inc32 (scratch hit))) d (small d) small in
      ground (arith, rest, h hit)

  module _ (accepted : ng_verify img ≡ none) where
    header-accepted : header_problem img ≡ none
    unfolding ng_verify
    header-accepted = (or_else-none _ _ accepted).0

    section-accepted : section_problem img ≡ none
    unfolding ng_verify
    section-accepted = (or_else-none _ _ (or_else-none _ _ accepted).1).0

    svc-accepted : (i : ℕ) → i < img.n_svc → svc_problem img i ≡ none
    unfolding ng_verify
    svc-accepted i l =
        let tables = (or_else-none _ _ (or_else-none _ _ accepted).1).1 in
        first-none (svc_problem img) 0 img.n_svc (or_else-none _ _ tables).0 i (omega arith)
          (omega arith)

    table-accepted : table_problem img ≡ none
    unfolding ng_verify
    table-accepted = (or_else-none _ _ (or_else-none _ _ (or_else-none _ _ accepted).1).1).1

    start-accepted : zero < img.n_svc → img.roff 0 ≡ 0
    unfolding section_problem
    start-accepted l =
        let skip = λ (b : Bool) (p : Problem) (r : Option Problem) (q : reject b p r ≡ none).
          (reject-none b p r q).1 in
        let starts =
          (reject-none _ _ _ (
            skip _ _ _ (
              skip _ _ _ (
                skip _ _ _ (
                  skip _ _ _
                    (skip _ _ _ (skip _ _ _ (skip _ _ _ (skip _ _ _ section-accepted))))))))).0 in
        starts_at _ _ starts l

    -- The edges up to a service's offset are those of the services before it.
    edges-count :
        (d : ℕ)
        → d < img.n_svc
        → (k : ℕ) → k ≤ img.n_svc
        → count d (map img.ridx (range 0 (img.roff k)))
          ≡ sum k (λ i. 1 * count d (dependents (graph_of img) i))
    unfolding sum graph_of
    edges-count d l zero m = rw (start-accepted (omega arith)) (unfold count in refl)
    edges-count d l (suc k) m =
        let next : img.roff (suc k) ≡ img.roff (k + 1) = ap img.roff (omega arith) in
        let up = monotonic k (svc-accepted k (omega arith)) in
        let split =
          count-range img.ridx d 0 (img.roff k) (img.roff k) (img.roff (k + 1) - img.roff k)
            (img.roff (suc k)) (omega arith) (omega arith) in
        omega (arith, split, edges-count d l k (omega arith))

    scratch-count :
        (d : ℕ)
        → in_degrees img (range 0 img.n_edges) (λ j. 0) d
          ≡ count d (map img.ridx (range 0 img.n_edges))
    scratch-count d =
        let limits = header-limits header-accepted in
        let small = few_edges img.n_svc img.n_edges limits.0 limits.2 in
        let long = length-range 0 img.n_edges in
        let counted =
          in_degrees-count (range 0 img.n_edges) (λ j. 0) d (omega arith) (λ j. omega arith) in
        omega arith

    unmet-accepted :
        (d : ℕ)
        → d < img.n_svc
        → (img.svcs d).unmet ≡ in_degrees img (range 0 img.n_edges) (λ j. 0) d
    unfolding table_problem
    unmet-accepted d l = elim (Bool-cases (img.n_svc == 0)) [
      | inl e ↦ let none_at_all = (==_iff img.n_svc 0).0 e in absurd (omega arith)
      | inr e ↦
          ends _ _
            (reject-none _ _ _ (
              first-none _ 0 img.n_svc (or_else-none _ _ (tables e table-accepted)).0 d
                (omega arith) (omega arith))).0
    ]
      where
        tables :
            {b : Bool} {q : Option Problem} → b ≡ false → (if b then none else q) ≡ none → q ≡ none
        tables {b} {q} e h = rw e at h

    -- An image that ng_verify accepts is a well-formed graph: its edges run forward within the
    -- services, every unmet count is the in-degree that the edges give, and the roots have no
    -- prerequisites.
    pub ng_verify-IsWellFormed : IsWellFormed (graph_of img)
    unfolding graph_of
    ng_verify-IsWellFormed =
        let limits = header-limits header-accepted in
        record {
          small = limits.0;
          forward = λ i l. edges-forward i (img.roff i) _ (svc-parts i (svc-accepted i l)).0;
          degrees = λ d l.
              let last = section-ends section-accepted in
              unmet-accepted d l
              ∙ scratch-count d
              ∙ ap (λ m. count d (map img.ridx (range 0 m))) (sym last)
              ∙ edges-count d l img.n_svc (omega arith);
          degree_small = λ d l. degree-small d (svc-parts d (svc-accepted d l)).1;
          roots = limits.1;
          root_free =
              λ i l. root-free i (svc-parts i (svc-accepted i (omega (arith, limits.1)))).2 l;
        }
