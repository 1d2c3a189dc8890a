-- ===== src/Schedule/Link.antt =====
-- The arrays that link_graph makes of the edges (ctl/graph.c).
pub mod Filled
pub mod Whole
use ninit.Prelude.{ℕ, ◌+◌, ◌%◌, List, [], ◌∷◌, range, update, inc32}
use ninit.Schedule.{Linked, Edge}

-- off and indeg while the edges are counted
pub record Degrees : Type 0 where
  pub off : ℕ → ℕ
  pub indeg : ℕ → ℕ

unfoldable pub count_edges : List Edge → Degrees → Degrees
count_edges [] c = c
count_edges (e ∷ es) c = count_edges es (record {
  off = update c.off (e.a + 1) (inc32 (c.off (e.a + 1)));
  indeg = update c.indeg e.b (inc32 (c.indeg e.b));
})

-- g.off[i + 1] += g.off[i]
unfoldable pub add_offsets : List ℕ → (ℕ → ℕ) → ℕ → ℕ
add_offsets [] off = off
add_offsets (i ∷ is) off = add_offsets is (update off (i + 1) ((off (i + 1) + off i) % 4294967296))

-- the loop that fills idx, with its counters
unfoldable pub fill_lists : (ℕ → ℕ) → List Edge → (ℕ → ℕ) → (ℕ → ℕ) → ℕ → ℕ
fill_lists off [] fill idx = idx
fill_lists off (e ∷ es) fill idx =
    fill_lists off es (update fill e.a (inc32 (fill e.a))) (update idx (off e.a + fill e.a) e.b)

-- the graph that link_graph makes of n services and their edges, before the heights
unfoldable pub link_edges : ℕ → List Edge → Linked
link_edges n es =
    let counted = count_edges es (record { off = λ i. 0; indeg = λ i. 0 }) in
    let off = add_offsets (range 0 n) counted.off in
    record {
      n = n;
      off = off;
      idx = fill_lists off es (λ i. 0) (λ i. 0);
      indeg = counted.indeg;
      height = λ i. 0;
    }
