-- ===== src/Schedule/Link/Filled.antt =====
-- link_graph lists the edges of each service in their order (ctl/graph.c).
use ninit.Prelude.{
  append_nil, bit-le, true, false, ℕ, zero, suc, ◌+◌, ◌-◌, ◌%◌, ◌<◌, ◌≤◌, ◌≡◌, ◌≢◌, refl, sym, ap,
  ◌∙◌, inl, inr, List, [], ◌∷◌, ◌++◌, map, All, ◌==◌, if◌then◌else◌, range, update, update_self,
  update_ne, bit, count, sum, arith, ltb, Bool-cases, inc32, length,
}
use native.Mathlib.Decide.{ℕ_discrete}
use ninit.Schedule.{Edge}
use ninit.Schedule.Link.{Degrees, count_edges, add_offsets, fill_lists}

abbrev pub sources : List Edge → List ℕ
sources [] = []
sources (e ∷ es) = e.a ∷ sources es

abbrev pub all_targets : List Edge → List ℕ
all_targets [] = []
all_targets (e ∷ es) = e.b ∷ all_targets es

-- where the edges of a service go, in their order
abbrev pub targets_of : ℕ → List Edge → List ℕ
targets_of a [] = []
targets_of a (e ∷ es) = if e.a == a then e.b ∷ targets_of a es else targets_of a es

-- one more at i
counted_at :
    (f : ℕ → ℕ) (i k : ℕ) → f i + 1 < 4294967296 → update f i (inc32 (f i)) k ≡ f k + bit (i == k)
counted_at f i k few = elim (ℕ_discrete k i) [
  | yes e ↦
      let one : bit (i == k) ≡ 1 = ground (arith, e) in
      omega
        (arith, one, few, ap (update f i (inc32 (f i))) e, update_self f i (inc32 (f i)), ap f e)
  | no other ↦
      let z : bit (i == k) ≡ 0 = ground (arith, other) in
      omega (arith, z, update_ne f i (inc32 (f i)) other)
]

pub count_edges-counts :
    (es : List Edge) (c : Degrees)
    → ((k : ℕ) → c.off k + length es < 4294967296)
    → ((k : ℕ) → c.indeg k + length es < 4294967296)
    → (k : ℕ)
    → ((count_edges es c).off 0 ≡ c.off 0)
      × ((count_edges es c).off (k + 1) ≡ c.off (k + 1) + count k (sources es))
      × ((count_edges es c).indeg k ≡ c.indeg k + count k (all_targets es))
unfolding count_edges count
count_edges-counts [] c few low k = (refl, omega arith, omega arith)
count_edges-counts (e ∷ es) c few low k =
    let off = c.off in
    let one = counted_at off (e.a + 1) in
    let more = counted_at c.indeg e.b in
    let small = few (e.a + 1) in
    let tiny = low e.b in
    let next : Degrees = record {
      off = update c.off (e.a + 1) (inc32 (c.off (e.a + 1)));
      indeg = update c.indeg e.b (inc32 (c.indeg e.b));
    } in
    let rest =
      count_edges-counts es next
        (λ j.
          let s = one j (omega (arith, small)) in omega (arith, s, few j, bit-le (e.a + 1 == j)))
        (λ j. let s = more j (omega (arith, tiny)) in omega (arith, s, low j, bit-le (e.b == j)))
        k in
    let shift : bit (e.a + 1 == k + 1) ≡ bit (e.a == k) = ground arith in
    let first : bit (e.a + 1 == 0) ≡ 0 = ground arith in
    (
      omega (arith, rest.0, one 0 (omega (arith, small)), first),
      omega (arith, rest.1, one (k + 1) (omega (arith, small)), shift),
      omega (arith, rest.2, more k (omega (arith, tiny))),
    )

pub add_offsets-sums :
    (out : ℕ → ℕ) (m k : ℕ) (off : ℕ → ℕ)
    → ((i : ℕ) → i ≤ k → off i ≡ sum i out)
    → ((j : ℕ) → k ≤ j → off (j + 1) ≡ out j)
    → ((i : ℕ) → i ≤ k + m → sum i out < 4294967296)
    → (i : ℕ) → i ≤ k + m
    → add_offsets (range k m) off i ≡ sum i out
unfolding add_offsets sum
add_offsets-sums out zero k off before after few i l = before i (omega (arith, l))
add_offsets-sums out (suc m) k off before after few i l =
    let x = (off (k + 1) + off k) % 4294967296 in
    let here : x ≡ sum (suc k) out =
      omega (arith, before k (omega arith), after k (omega arith), few (suc k) (omega arith)) in
    add_offsets-sums out m (k + 1) (update off (k + 1) x)
      (λ j n. elim (ℕ_discrete j (k + 1)) [
        | yes e ↦
            let same : suc k ≡ j = omega (arith, e) in
            ap (update off (k + 1) x) e
            ∙ update_self off (k + 1) x
            ∙ here
            ∙ ap (λ q. sum q out) same
        | no other ↦ update_ne off (k + 1) x other ∙ before j (grind (arith, other, n))
      ])
      (λ j n.
        update_ne off (k + 1) x (λ e. absurd (omega (arith, e, n))) ∙ after j (omega (arith, n)))
      (λ j n. few j (omega (arith, n))) i (omega (arith, l))

-- starts of the stretches of idx, and one service's stretch lies apart from another's
module _ (out : ℕ → ℕ) where
  pub starts_mono : (m k : ℕ) → sum k out ≤ sum (k + m) out
  unfolding sum
  starts_mono zero k = let same : k + 0 ≡ k = omega arith in rw same (omega arith)
  starts_mono (suc m) k =
      let next : k + suc m ≡ suc (k + m) = omega arith in
      let rest = starts_mono m k in rw next (omega (arith, rest))

  apart : (a b i j : ℕ) → a ≢ b → i < out a → j < out b → sum a out + i ≢ sum b out + j
  unfolding sum
  apart a b i j ne l m e = elim (Bool-cases (ltb a b)) [
    | inl q ↦
        let up : a < b = grind (arith, q) in
        let whole : suc a + (b - suc a) ≡ b = omega (arith, up) in
        let far = starts_mono (b - suc a) (suc a) in
        absurd (omega (arith, far, ap (λ k. sum k out) whole, e, l))
    | inr q ↦
        let down : b < a = grind (arith, q, ne) in
        let whole : suc b + (a - suc b) ≡ a = omega (arith, down) in
        let far = starts_mono (a - suc b) (suc b) in
        absurd (omega (arith, far, ap (λ k. sum k out) whole, e, m))
  ]

map-kept :
    (idx : ℕ → ℕ) (at x from n : ℕ)
    → ((i : ℕ) → i < n → from + i ≢ at)
    → map (update idx at x) (range from n) ≡ map idx (range from n)
map-kept idx at x from zero h = refl
map-kept idx at x from (suc n) h =
    let here : from ≢ at = λ e. h 0 (omega arith) (omega (arith, e)) in
    rw (
      update_ne idx at x here,
      map-kept idx at x (from + 1) n (λ i l e. h (i + 1) (omega arith) (omega (arith, e))),
    )

map-more :
    (f : ℕ → ℕ) (from n : ℕ)
    → map f (range from (n + 1)) ≡ map f (range from n) ++ (f (from + n) ∷ [])
map-more f from zero = let same : from + 0 ≡ from = omega arith in rw same refl
map-more f from (suc n) =
    let next : suc n + 1 ≡ suc (n + 1) = omega arith in
    let at : from + suc n ≡ from + 1 + n = omega arith in
    rw (next, at) (rw (map-more f (from + 1) n) refl)

append_more : (xs : List ℕ) (x : ℕ) (ys : List ℕ) → (xs ++ (x ∷ [])) ++ ys ≡ xs ++ (x ∷ ys)
append_more [] x ys = refl
append_more (y ∷ xs) x ys = ap (λ t. y ∷ t) (append_more xs x ys)

-- What is filled in for a service is what was, and the targets of its edges that come.
module _ (n : ℕ) (out : ℕ → ℕ) (off : ℕ → ℕ) (few : (a : ℕ) → a < n → out a + 1 < 4294967296)
    (starts : (a : ℕ) → a < n → off a ≡ sum a out) where
  pub fill_lists-targets :
      (es : List Edge) (fill idx : ℕ → ℕ)
      → All (λ e. e.a < n) es
      → ((a : ℕ) → a < n → fill a + count a (sources es) ≡ out a)
      → (a : ℕ) → a < n
      → map (fill_lists off es fill idx) (range (off a) (out a))
        ≡ map idx (range (off a) (fill a)) ++ targets_of a es
  unfolding fill_lists count
  fill_lists-targets [] fill idx h left a l =
      ap (λ k. map idx (range (off a) k)) (sym (left a l) ∙ omega arith) ∙ sym (append_nil _)
  fill_lists-targets (e ∷ es) fill idx h left a l =
      let here : bit (e.a == e.a) ≡ 1 = ground arith in
      let room : fill e.a < out e.a = omega (arith, left e.a h.0, here) in
      let fill1 = update fill e.a (inc32 (fill e.a)) in
      let idx1 = update idx (off e.a + fill e.a) e.b in
      let step : (k : ℕ) → fill1 k ≡ fill k + bit (e.a == k) =
        λ k. counted_at fill e.a k (omega (arith, few e.a h.0, room)) in
      let rest =
        fill_lists-targets es fill1 idx1 h.1 (λ k m. omega (arith, step k, left k m)) a l in
      rest ∙ (elim (ℕ_discrete a e.a) [
        | yes q ↦
            let hit : (e.a == a) ≡ true = ground (arith, q) in
            let grown : fill1 a ≡ fill a + 1 = omega (arith, step a, ap bit hit) in
            let kept =
              map-kept idx (off e.a + fill e.a) e.b (off a) (fill a)
                (λ i m r. absurd (omega (arith, r, m, ap off q, ap fill q))) in
            let last : idx1 (off a + fill a) ≡ e.b =
              ap idx1 (omega (arith, ap off q, ap fill q))
              ∙ update_self idx (off e.a + fill e.a) e.b in
            rw (hit, grown, map-more idx1 (off a) (fill a), kept, last)
              (append_more (map idx (range (off a) (fill a))) e.b (targets_of a es))
        | no other ↦
            let miss : (e.a == a) ≡ false = ground (arith, other) in
            let same : fill1 a ≡ fill a = omega (arith, step a, ap bit miss) in
            let kept = map-kept idx (off e.a + fill e.a) e.b (off a) (fill a) (λ i m r.
              apart out a e.a i (fill e.a) other (omega (arith, m, left a l)) room
                (omega (arith, r, starts a l, starts e.a h.0))) in
            rw (miss, same, kept) refl
      ])
