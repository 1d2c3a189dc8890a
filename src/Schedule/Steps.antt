-- ===== src/Schedule/Steps.antt =====
-- What holds in the loop of schedule() (ctl/graph.c).
use ninit.Prelude.{
  Bool, ℕ, suc, ◌+◌, ◌*◌, ◌≤◌, ◌<◌, ◌≡◌, ◌≢◌, refl, sym, ap, subst, ◌∙◌, true, false, Bool-cases,
  inl, inr, List, [], ◌∷◌, All, ltb, ◌==◌, if◌then◌else◌, arith, bit, update, update_self,
  update_ne, sum, sum_mono, sum-change, count, sub32, length,
}
use native.Mathlib.Decide.{ℕ_discrete}
use native.Mathlib.Nat.{mul-le-mul_right}
use ninit.Schedule.{
  Linked, successors, Ready, ready_push, ready_pop, Scheduling, drop_edge, drop_edges, schedule_one,
}
use ninit.Schedule.Heap.{occurs, push-occurs, pop-occurs}

-- What link_graph has made: the edges stay within the services, and each indeg is the number of
-- edges that come in.
pub record IsLinked (g : Linked) : Type 0 where
  pub within : (i : ℕ) → i < g.n → All (λ d. d < g.n) (successors g i)
  pub degrees : (d : ℕ) → d < g.n → g.indeg d ≡ sum g.n (λ i. count d (successors g i))
  pub few : (d : ℕ) → d < g.n → g.indeg d < 4294967296

-- the edges to d from the services of a list
abbrev pub from_done : Linked → List ℕ → ℕ → ℕ
from_done g order d = sum g.n (λ i. count i order * count d (successors g i))

-- The invariant, with `rem` for the edges of the last one scheduled that are still to come: a
-- service is in the heap or in the order once if nothing is left, and else not at all, and what is
-- left of its edges are those from services that are not in the order.
pub record IsPartial (g : Linked) (rem : List ℕ) (s : Scheduling) : Type 0 where
  pub placed : (d : ℕ) → d < g.n → occurs d s.q.n s.q.v + count d s.order ≡ bit (s.left d == 0)
  pub lefts : (d : ℕ) → d < g.n → s.left d + from_done g s.order d ≡ g.indeg d + count d rem
  pub bounded : (d : ℕ) → d < g.n → s.left d ≤ g.indeg d
  pub strays : (d : ℕ) → g.n ≤ d → occurs d s.q.n s.q.v ≡ 0

-- each is scheduled behind all that have edges to it; the last one comes first in the list
abbrev pub IsTopological : Linked → List ℕ → Type 0
IsTopological g [] = Unit
IsTopological g (b ∷ rest) =
    ((b < g.n) × ((i : ℕ) → i < g.n → count b (successors g i) ≢ 0 → count i rest ≢ 0))
    × IsTopological g rest

bit_small : (b : ℕ) → bit (b == 0) ≤ 1
bit_small b = ground arith

suc_times : (a b : ℕ) → (1 + a) * b ≡ b + a * b
suc_times a b = omega arith

free : (x a b : ℕ) → a ≢ 0 → a + b ≡ bit (x == 0) → x ≡ 0
free x a b ne e = ground (arith, ne, e)

module _ (g : Linked) (wf : IsLinked g) where
  pub once :
      (rem : List ℕ) (s : Scheduling) → IsPartial g rem s → (i : ℕ) → i < g.n → count i s.order ≤ 1
  once rem s h i l = omega (arith, h.placed i l, bit_small (s.left i))

  -- no more edges are taken than there are
  done_few :
      (rem : List ℕ) (s : Scheduling)
      → IsPartial g rem s
      → (d : ℕ) → d < g.n
      → from_done g s.order d ≤ g.indeg d
  done_few rem s h d l =
      let le =
        sum_mono g.n (λ i. count i s.order * count d (successors g i))
          (λ i. count d (successors g i))
          (λ i m. at_most (count i s.order) (count d (successors g i)) (once rem s h i m)) in
      omega (arith, le, wf.degrees d l)
    where
      at_most : (a b : ℕ) → a ≤ 1 → a * b ≤ b
      at_most a b l = omega (arith, mul-le-mul_right b l)

  -- a service is pushed where the test holds
  pub pushed_if :
      (b : Bool) (q : Ready) (d e : ℕ)
      → (let q' = if b then ready_push g q d else q in occurs e q'.n q'.v)
        ≡ occurs e q.n q.v + bit b * bit (d == e)
  pushed_if true q d e = omega (arith, push-occurs g e d q)
  pushed_if false q d e = omega arith

  -- an edge that is left is taken off without wrapping
  drop_edge-left :
      (d : ℕ) (rem : List ℕ) (s : Scheduling)
      → d < g.n
      → IsPartial g (d ∷ rem) s
      → sub32 (s.left d) 1 + 1 ≡ s.left d
  unfolding count
  drop_edge-left d rem s l h =
      let one : bit (d == d) ≡ 1 = ground arith in
      omega (arith, h.lefts d l, done_few (d ∷ rem) s h d l, one, h.bounded d l, wf.few d l)

  -- a service that is not scheduled has its edges to d outside of what is done
  pub unscheduled :
      (rem : List ℕ) (s : Scheduling)
      → IsPartial g rem s
      → (i d : ℕ) → i < g.n
      → d < g.n
      → count i s.order ≡ 0
      → from_done g s.order d + count d (successors g i) ≤ g.indeg d
  unscheduled rem s h i d l m z =
      let edges = λ (j : ℕ). count d (successors g j) in
      let change =
        sum-change g.n i (update edges i 0) edges l (λ j other. update_ne edges i 0 other) in
      let gone = update_self edges i 0 in
      let le =
        sum_mono g.n (λ j. count j s.order * edges j) (update edges i 0)
          (λ j k. elim (ℕ_discrete j i) [
            | yes e ↦
                let none_of = ap (λ x. x * edges j) (ap (λ x. count x s.order) e ∙ z) in
                omega (arith, none_of)
            | no other ↦
                let kept = update_ne edges i 0 other in
                let few = mul-le-mul_right (edges j) (once rem s h j k) in omega (arith, kept, few)
          ]) in
      omega (arith, change, gone, le, wf.degrees d m)

  drop_edge-IsPartial :
      (d : ℕ) (rem : List ℕ) (s : Scheduling)
      → d < g.n
      → IsPartial g (d ∷ rem) s
      → IsPartial g rem (drop_edge g d s)
  unfolding drop_edge count
  drop_edge-IsPartial d rem s l h =
      let k = sub32 (s.left d) 1 in
      let down = drop_edge-left d rem s l h in
      let one : bit (d == d) ≡ 1 = ground arith in
      record {
        placed = λ e m. elim (ℕ_discrete e d) [
          | yes same ↦
              let there : bit (update s.left d k d == 0) ≡ bit (k == 0) =
                ap (λ x. bit (x == 0)) (update_self s.left d k) in
              let before : bit (s.left d == 0) ≡ 0 = ground (arith, down) in
              subst
                (λ x.
                  occurs x (drop_edge g d s).q.n (drop_edge g d s).q.v + count x s.order
                  ≡ bit ((drop_edge g d s).left x == 0))
                (sym same)
                (omega (
                  arith,
                  pushed_if (k == 0) s.q d d,
                  h.placed d l,
                  there,
                  before,
                  ap (λ x. bit (k == 0) * x) one,
                ))
          | no other ↦
              let kept = update_ne s.left d k other in
              let none_new : bit (d == e) ≡ 0 = ground (arith, other) in
              omega (
                arith,
                pushed_if (k == 0) s.q d e,
                h.placed e m,
                ap (λ x. bit (x == 0)) kept,
                ap (λ x. bit (k == 0) * x) none_new,
              )
        ];
        lefts = λ e m. elim (ℕ_discrete e d) [
          | yes same ↦
              subst (λ x. update s.left d k x + from_done g s.order x ≡ g.indeg x + count x rem)
                (sym same) (omega (arith, h.lefts d l, down, update_self s.left d k, one))
          | no other ↦
              let kept = update_ne s.left d k other in
              let none_new : bit (d == e) ≡ 0 = ground (arith, other) in
              omega (arith, h.lefts e m, kept, none_new)
        ];
        bounded = λ e m. elim (ℕ_discrete e d) [
          | yes same ↦ omega (
            arith,
            ap (update s.left d k) same,
            update_self s.left d k,
            down,
            h.bounded d l,
            ap g.indeg same,
          )
          | no other ↦ omega (arith, update_ne s.left d k other, h.bounded e m)
        ];
        strays = λ e m.
            let none_new : bit (d == e) ≡ 0 = ground (arith, l, m) in
            omega (
              arith,
              pushed_if (k == 0) s.q d e,
              h.strays e m,
              ap (λ x. bit (k == 0) * x) none_new,
            );
      }

  drop_edges-IsPartial :
      (ds : List ℕ) (s : Scheduling)
      → All (λ d. d < g.n) ds
      → IsPartial g ds s
      → IsPartial g [] (drop_edges g ds s)
  unfolding drop_edges
  drop_edges-IsPartial [] s b h = h
  drop_edges-IsPartial (d ∷ ds) s b h =
      drop_edges-IsPartial ds (drop_edge g d s) b.1 (drop_edge-IsPartial d ds s b.0 h)

  drop_edges-order : (ds : List ℕ) (s : Scheduling) → (drop_edges g ds s).order ≡ s.order
  unfolding drop_edges drop_edge
  drop_edges-order [] s = refl
  drop_edges-order (d ∷ ds) s = drop_edges-order ds (drop_edge g d s)

  -- the service that is popped, before its edges are taken off
  abbrev popped : Scheduling → Scheduling
  popped s = record s { q = (ready_pop g s.q).1; order = (ready_pop g s.q).0 ∷ s.order }

  module _ (s : Scheduling) (h : IsPartial g [] s) (more : s.q.n ≢ 0) where
    abbrev best : ℕ
    best = (ready_pop g s.q).0

    best-occurs : occurs best s.q.n s.q.v ≢ 0
    best-occurs z =
        let one : bit (best == best) ≡ 1 = ground arith in
        absurd (omega (arith, pop-occurs g best s.q more, one, z))

    best_below : best < g.n
    best_below = elim (Bool-cases (ltb best g.n)) [
      | inl e ↦ ground (arith, e)
      | inr e ↦ absurd (best-occurs (h.strays best (ground (arith, e))))
    ]

    popped-IsPartial : IsPartial g (successors g best) (popped s)
    unfolding count
    popped-IsPartial = record {
      placed = λ d l. omega (arith, h.placed d l, pop-occurs g d s.q more);
      lefts = λ d l.
          let edges = λ (i : ℕ). count d (successors g i) in
          let change =
            sum-change g.n best (λ i. (bit (best == i) + count i s.order) * edges i)
              (λ i. count i s.order * edges i) best_below
              (λ i other.
                let z : bit (best == i) ≡ 0 = ground (arith, other) in
                ap (λ x. (x + count i s.order) * edges i) z
                ∙ ap (λ x. x * edges i) (omega arith)) in
          let one : bit (best == best) ≡ 1 = ground arith in
          let here = ap (λ x. (x + count best s.order) * edges best) one in
          let split = suc_times (count best s.order) (edges best) in
          omega (arith, h.lefts d l, change, here, split);
      bounded = h.bounded;
      strays = λ d l. omega (arith, h.strays d l, pop-occurs g d s.q more);
    }

    -- nothing is left of its edges, so all that have one are scheduled
    best-ready : (i : ℕ) → i < g.n → count best (successors g i) ≢ 0 → count i s.order ≢ 0
    best-ready i l ne z =
        let none_left : s.left best ≡ 0 =
          free (s.left best) _ _ best-occurs (h.placed best best_below) in
        let short = unscheduled [] s h i best l best_below z in
        absurd (ne (omega (arith, short, none_left, h.lefts best best_below)))

    pub schedule_one-IsPartial : IsPartial g [] (schedule_one g s)
    unfolding schedule_one
    schedule_one-IsPartial =
        drop_edges-IsPartial (successors g best) (popped s) (wf.within best best_below)
          popped-IsPartial

    pub schedule_one-IsTopological :
        IsTopological g s.order → IsTopological g (schedule_one g s).order
    unfolding schedule_one
    schedule_one-IsTopological t =
        subst (IsTopological g) (sym (drop_edges-order (successors g best) (popped s)))
          ((best_below, best-ready), t)

    pub schedule_one-length : length (schedule_one g s).order ≡ suc (length s.order)
    unfolding schedule_one
    schedule_one-length = ap length (drop_edges-order (successors g best) (popped s))
