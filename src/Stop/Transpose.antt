-- ===== src/Stop/Transpose.antt =====
-- build_prereqs turns the dependency lists around (src/stop.c).
use ninit.Prelude.{
  ℕ, zero, suc, ◌+◌, ◌-◌, ◌*◌, ◌≤◌, ◌<◌, ◌≡◌, ◌≢◌, ◌⊎◌, refl, ap, subst, ◌∙◌, List, [], ◌∷◌, map,
  Option, none, some, ◌==◌, if_keeps, arith, inl, inr, All, range, range-below, bit, update,
  update_self, update_ne, sum, sum_none, sum-change, sum-ext, count,
}
use native.Mathlib.Decide.{ℕ_discrete}
use ninit.Graph.{Graph, IsWellFormed, dependents}
use ninit.Verify.Accepted.{count-range}
use ninit.Stop.{
  Prereqs, Filling, prereq_off, fill_edge, fill_edges, fill_all, build_prereqs, prereqs_of,
}
use ninit.Stop.Order.{IsTranspose}
use ninit.Stop.Rounds.{All-weaken}

unfoldable total : (ℕ → ℕ) → List ℕ → ℕ
total v [] = 0
total v (i ∷ is) = v i + total v is

total-range : (v : ℕ → ℕ) (a k : ℕ) → total v (range a k) + sum a v ≡ sum (a + k) v
unfolding total sum
total-range v a zero = let same : a ≡ a + 0 = omega arith in omega (arith, ap (λ n. sum n v) same)
total-range v a (suc k) =
    let one_more : a + 1 ≡ suc a = omega arith in
    let next : sum (a + 1) v ≡ v a + sum a v = ap (λ n. sum n v) one_more in
    let same : a + suc k ≡ a + 1 + k = omega arith in
    let end : sum (a + suc k) v ≡ sum (a + 1 + k) v = ap (λ n. sum n v) same in
    omega (arith, total-range v (a + 1) k, next, end)

-- A write outside of a slice leaves its counts.
count-update :
    (a : ℕ → ℕ) (at v i o k : ℕ)
    → (at < o) ⊎ (o + k ≤ at)
    → count i (map (update a at v) (range o k)) ≡ count i (map a (range o k))
unfolding count
count-update a at v i o zero out = refl
count-update a at v i o (suc k) out =
    let here : update a at v o ≡ a o =
      update_ne a at v
        (λ e. elim out [ inl l ↦ absurd (omega arith) | inr l ↦ absurd (omega arith) ]) in
    let there =
      count-update a at v i (o + 1) k
        (elim out [ inl l ↦ inl (omega arith) | inr l ↦ inr (omega arith) ]) in
    omega (arith, there, ap (λ x. bit (x == i)) here)

compare_ne : (d e : ℕ) → e ≢ d → (d < e) ⊎ (e < d)
compare_ne d e other = grind (arith, other)

*-distrib : (a b c : ℕ) → a * (b + c) ≡ a * b + a * c
*-distrib a b c = omega arith

module _ (g : Graph) where
  off_mono : (d k : ℕ) → prereq_off g (suc d) ≤ prereq_off g (suc d + k)
  unfolding prereq_off
  off_mono d zero =
      let same : suc d + 0 ≡ suc d = omega arith in omega (arith, ap (prereq_off g) same)
  off_mono d (suc k) =
      let same : suc d + suc k ≡ suc (suc d + k) = omega arith in
      let end : prereq_off g (suc d + suc k) ≡ prereq_off g (suc (suc d + k)) =
        ap (prereq_off g) same in
      omega (arith, off_mono d k, end)

  -- the slice of one service ends before that of the next begins
  apart : (d e : ℕ) → d < e → prereq_off g d + (g.svcs d).unmet ≤ prereq_off g e
  unfolding prereq_off
  apart d e l =
      let same : suc d + (e - suc d) ≡ e = omega arith in
      let end : prereq_off g (suc d + (e - suc d)) ≡ prereq_off g e = ap (prereq_off g) same in
      omega (arith, off_mono d (e - suc d), end)

  -- how often i stands in what is filled of d's slice
  abbrev filled : Filling → ℕ → ℕ → ℕ
  filled f i d = count i (map f.idx (range (prereq_off g d) (f.fill d)))

  -- there is room for the `rem d` edges to d that are still to come, and no more
  abbrev HasRoom : (ℕ → ℕ) → Filling → Type 0
  HasRoom rem f = (d : ℕ) → d < g.n_svc → f.fill d + rem d ≡ (g.svcs d).unmet

  -- an edge to d goes to the end of what is filled of d's slice
  fill_edge_self :
      (i d : ℕ) (f : Filling) (j : ℕ) → filled (fill_edge g i d f) j d ≡ filled f j d + bit (i == j)
  unfolding fill_edge count
  fill_edge_self i d f j =
      let at = prereq_off g d + f.fill d in
      let grown : update f.fill d (f.fill d + 1) d ≡ f.fill d + 1 =
        update_self f.fill d (f.fill d + 1) in
      let snoc =
        count-range (update f.idx at i) j (prereq_off g d) (f.fill d) at 1
          (update f.fill d (f.fill d + 1) d) grown refl in
      let old = count-update f.idx at i j (prereq_off g d) (f.fill d) (inr (omega arith)) in
      let new : update f.idx at i at ≡ i = update_self f.idx at i in
      omega (arith, snoc, old, ap (λ x. bit (x == j)) new)

  -- and to no other slice
  fill_edge_other :
      (i d : ℕ) (f : Filling) (j e : ℕ)
      → f.fill d < (g.svcs d).unmet
      → f.fill e ≤ (g.svcs e).unmet
      → e ≢ d
      → filled (fill_edge g i d f) j e ≡ filled f j e
  unfolding fill_edge
  fill_edge_other i d f j e more room other =
      let at = prereq_off g d + f.fill d in
      let kept : update f.fill d (f.fill d + 1) e ≡ f.fill e =
        update_ne f.fill d (f.fill d + 1) other in
      ap (λ k. count j (map (update f.idx at i) (range (prereq_off g e) k))) kept
      ∙ count-update f.idx at i j (prereq_off g e) (f.fill e) (elim (compare_ne d e other) [
        | inl l ↦ inl (let gap = apart d e l in omega arith)
        | inr l ↦ inr (let gap = apart e d l in omega arith)
      ])

  fill_edge-filled :
      (i d : ℕ) (rem : ℕ → ℕ) (f : Filling)
      → d < g.n_svc
      → HasRoom (λ e. bit (d == e) + rem e) f
      → (j e : ℕ) → e < g.n_svc
      → filled (fill_edge g i d f) j e ≡ filled f j e + bit (i == j) * bit (d == e)
  fill_edge-filled i d rem f l room j e m = elim (ℕ_discrete e d) [
    | yes same ↦
        let one : bit (d == e) ≡ 1 = ground (arith, same) in
        ap (filled (fill_edge g i d f) j) same
        ∙ fill_edge_self i d f j
        ∙ omega (arith, ap (filled f j) same, ap (λ x. bit (i == j) * x) one)
    | no other ↦
        let one : bit (d == d) ≡ 1 = ground arith in
        let zero : bit (d == e) ≡ 0 = ground (arith, other) in
        fill_edge_other i d f j e (omega (arith, room d l, one)) (omega (arith, room e m)) other
        ∙ omega (arith, ap (λ x. bit (i == j) * x) zero)
  ]

  fill_edge-room :
      (i d : ℕ) (rem : ℕ → ℕ) (f : Filling)
      → HasRoom (λ e. bit (d == e) + rem e) f
      → HasRoom rem (fill_edge g i d f)
  unfolding fill_edge
  fill_edge-room i d rem f room e m = ground (arith, room e m, ap f.fill)

  -- a row of edges
  fill_edges-filled :
      (i : ℕ) (ds : List ℕ) (rem : ℕ → ℕ) (f : Filling)
      → All (λ d. d < g.n_svc) ds
      → HasRoom (λ e. count e ds + rem e) f
      → HasRoom rem (fill_edges g i ds f)
        × ((j e : ℕ)
            → e < g.n_svc
            → filled (fill_edges g i ds f) j e ≡ filled f j e + bit (i == j) * count e ds)
  unfolding fill_edges count
  fill_edges-filled i [] rem f b room = (λ e m. omega (arith, room e m), λ j e m. omega arith)
  fill_edges-filled i (d ∷ ds) rem f b room =
      let room' : HasRoom (λ e. bit (d == e) + (count e ds + rem e)) f =
        λ e m. omega (arith, room e m) in
      let rest =
        fill_edges-filled i ds rem (fill_edge g i d f) b.1
          (fill_edge-room i d (λ e. count e ds + rem e) f room') in
      (
        rest.0,
        λ j e m.
            let one = fill_edge-filled i d (λ x. count x ds + rem x) f b.0 room' j e m in
            let two = rest.1 j e m in
            let split = *-distrib (bit (i == j)) (bit (d == e)) (count e ds) in
            omega (arith, one, two, split),
      )

  -- all rows
  fill_all-filled :
      (is : List ℕ) (f : Filling)
      → ((i : ℕ) → i < g.n_svc → All (λ d. d < g.n_svc) (dependents g i))
      → All (λ i. i < g.n_svc) is
      → HasRoom (λ e. total (λ i. count e (dependents g i)) is) f
      → HasRoom (λ e. 0) (fill_all g is f)
        × ((j e : ℕ)
            → e < g.n_svc
            → filled (fill_all g is f) j e
              ≡ filled f j e + total (λ i. bit (i == j) * count e (dependents g i)) is)
  unfolding fill_all total
  fill_all-filled [] f fwd b room = (room, λ j e m. omega arith)
  fill_all-filled (i ∷ is) f fwd b room =
      let row =
        fill_edges-filled i (dependents g i) (λ e. total (λ k. count e (dependents g k)) is) f
          (fwd i b.0) room in
      let rest = fill_all-filled is (fill_edges g i (dependents g i) f) fwd b.1 row.0 in
      (rest.0, λ j e m. omega (arith, row.1 j e m, rest.1 j e m))

  module _ (wf : IsWellFormed g) where
    below : (i : ℕ) → i < g.n_svc → All (λ d. d < g.n_svc) (dependents g i)
    below i l = All-weaken g i (dependents g i) (wf.forward i l)

    abbrev empty : Filling
    empty = record { idx = λ k. 0; fill = λ d. 0 }

    starts_with_room : HasRoom (λ e. total (λ i. count e (dependents g i)) (range 0 g.n_svc)) empty
    unfolding sum
    starts_with_room e m =
        let whole = total-range (λ i. count e (dependents g i)) 0 g.n_svc in
        let same =
          sum-ext g.n_svc (λ i. 1 * count e (dependents g i)) (λ i. count e (dependents g i))
            (λ i l. omega arith) in
        let end : sum (0 + g.n_svc) (λ i. count e (dependents g i))
            ≡ sum g.n_svc (λ i. count e (dependents g i)) =
          let n : 0 + g.n_svc ≡ g.n_svc = omega arith in
          ap (λ n. sum n (λ i. count e (dependents g i))) n in
        omega (arith, whole, same, end, wf.degrees e m)

    -- of all rows, only that of j counts
    one_row :
        (j e : ℕ)
        → j < g.n_svc
        → total (λ i. bit (i == j) * count e (dependents g i)) (range 0 g.n_svc)
          ≡ count e (dependents g j)
    unfolding sum
    one_row j e l =
        let v = λ (i : ℕ). bit (i == j) * count e (dependents g i) in
        let whole = total-range v 0 g.n_svc in
        let n : 0 + g.n_svc ≡ g.n_svc = omega arith in
        let end : sum (0 + g.n_svc) v ≡ sum g.n_svc v = ap (λ n. sum n v) n in
        let change =
          sum-change g.n_svc j v (λ i. 0) l
            (λ i other.
              let z : bit (i == j) ≡ 0 = ground (arith, other) in
              omega (arith, ap (λ x. x * count e (dependents g i)) z)) in
        let here : bit (j == j) ≡ 1 = ground arith in
        omega
          (arith, whole, end, change, sum_none g.n_svc, ap (λ x. x * count e (dependents g j)) here)

    abbrev full : Filling
    full = fill_all g (range 0 g.n_svc) empty

    full-IsTranspose : IsTranspose g (record { off = prereq_off g; idx = full.idx })
    unfolding prereqs_of prereq_off count
    full-IsTranspose = record {
      turned = λ j d l m.
          let all =
            fill_all-filled (range 0 g.n_svc) empty below
              (range-below g.n_svc 0 g.n_svc (omega arith)) starts_with_room in
          let long : prereq_off g d + (g.svcs d).unmet - prereq_off g d ≡ full.fill d =
            omega (arith, all.0 d m) in
          ap (λ k. count j (map full.idx (range (prereq_off g d) k))) long
          ∙ all.1 j d m
          ∙ omega (arith, one_row j d l);
    }

    abbrev Turned : Option Prereqs → Type 0
    Turned none = Unit
    Turned (some p) = IsTranspose g p

    -- On a well-formed graph, the lists that build_prereqs makes are the dependency lists turned
    -- around: i occurs in the list of d as often as d does among the dependents of i.
    pub build_prereqs-IsTranspose : (p : Prereqs) → build_prereqs g ≡ some p → IsTranspose g p
    unfolding build_prereqs
    build_prereqs-IsTranspose p e = subst Turned e (
        if_keeps Turned (prereq_off g g.n_svc == g.rdep_off g.n_svc) _ _ (λ _. full-IsTranspose)
          (λ _. tt))
