-- ===== src/Stop/Rounds.antt =====
-- Whole rounds of the ordered stop keep its order (src/stop.c).
use ninit.Prelude.{
  ℕ, zero, suc, ◌+◌, ◌-◌, ◌*◌, ◌<◌, ◌≡◌, ◌≢◌, refl, ap, sym, ◌∙◌, true, false, not, List, [], ◌∷◌,
  map, ◌==◌, leb, length, if_keeps, arith, inl, inr, Bool-cases, All, range, range-below, bit, sum,
  sum-ext, sum-zero, counts, count, tally,
}
use ninit.Graph.{Graph, IsWellFormed, dependents}
use ninit.Supervisor.Sys.{Sys, World}
use ninit.Supervisor.Steps.{drain_budget, handle_all}
use ninit.Stop.{
  Prereqs, waiting, is_settled, is_waiting, Stopping, Round, signal_one, signal_all, settle_one,
  settle_all, stop_round, stop_rounds, stop_start,
}
use ninit.Stop.Order.{unsettled, IsTranspose, InOrder, signal_one-InOrder, settle_one-InOrder}

length-map-range : (f : ℕ → ℕ) (a k : ℕ) → length (map f (range a k)) ≡ k
length-map-range f a zero = refl
length-map-range f a (suc k) = omega (arith, length-map-range f (a + 1) k)

pub All-weaken :
    (g : Graph) (j : ℕ) (xs : List ℕ)
    → All (λ d. (j < d) × (d < g.n_svc)) xs
    → All (λ d. d < g.n_svc) xs
All-weaken g j [] h = tt
All-weaken g j (x ∷ xs) h = (h.0.1, All-weaken g j xs h.1)

tally_all : (n : ℕ) → tally (λ x. not (is_settled x)) n (λ i. waiting) ≡ n
unfolding sum
tally_all zero = refl
tally_all (suc n) = omega (arith, tally_all n)

module _ (g : Graph) (wf : IsWellFormed g) where
  pub stop_start-InOrder : (s : Sys) → InOrder g (stop_start g s)
  stop_start-InOrder s = record {
    waits = λ i l.
        let all =
          counts g.n_svc (dependents g i) (All-weaken g i (dependents g i) (wf.forward i l)) in
        let long = length-map-range g.rdep_idx (g.rdep_off i) (g.rdep_off (i + 1) - g.rdep_off i) in
        let each =
          sum-ext g.n_svc (λ d. bit (not (is_settled waiting)) * count d (dependents g i))
            (λ d. count d (dependents g i)) (λ d k. omega arith) in
        omega (arith, all, long, each);
    begun = λ i l e. absurd (ground (arith, e));
    lefts = sym (tally_all g.n_svc);
  }

  module _ (w : World) (p : Prereqs) (tr : IsTranspose g p) where
    signal_all-InOrder :
        (now : ℕ) (is : List ℕ) (t : Stopping)
        → All (λ d. d < g.n_svc) is
        → InOrder g t
        → InOrder g (signal_all g w p now is t)
    unfolding signal_all
    signal_all-InOrder now [] t b h = h
    signal_all-InOrder now (i ∷ is) t b h =
        signal_all-InOrder now is (signal_one g w p now i t) b.1
          (signal_one-InOrder g w p now i t b.0 h)

    settle_all-InOrder :
        (is : List ℕ) (t : Stopping)
        → All (λ d. d < g.n_svc) is
        → InOrder g t
        → InOrder g (settle_all g w p is t)
    unfolding settle_all
    settle_all-InOrder [] t b h = h
    settle_all-InOrder (i ∷ is) t b h =
        settle_all-InOrder is (settle_one g w p i t) b.1 (settle_one-InOrder g w p i t wf tr b.0 h)

    stop_round-InOrder :
        (deadline : ℕ) (r : Round) (t : Stopping)
        → InOrder g t
        → InOrder g (stop_round g w p deadline r t)
    unfolding stop_round
    stop_round-InOrder deadline r t h =
        let all = range-below g.n_svc 0 g.n_svc (omega arith) in
        let t1 = signal_all g w p r.now (range 0 g.n_svc) (record t { next = deadline }) in
        let budgeted = record t1.sys { drain_left = drain_budget } in
        let t2 = record t1 { sys = handle_all g w r.events budgeted } in
        settle_all-InOrder (range 0 g.n_svc) t2 all
          (signal_all-InOrder r.now (range 0 g.n_svc) (record t { next = deadline }) all h)

    pub stop_rounds-InOrder :
        (deadline : ℕ) (rs : List Round) (t : Stopping)
        → InOrder g t
        → InOrder g (stop_rounds g w p deadline rs t)
    unfolding stop_rounds
    stop_rounds-InOrder deadline [] t h = h
    stop_rounds-InOrder deadline (r ∷ rs) t h =
        let t' = stop_round g w p deadline r t in
        let next = stop_round-InOrder deadline r t h in
        if_keeps (InOrder g) (t'.left == 0) _ _ (λ _. next)
          (λ _.
            if_keeps (InOrder g) (leb deadline r.later) _ _ (λ _. next)
              (λ _. stop_rounds-InOrder deadline rs t' next))

-- A service that has been asked to stop has no dependent left that has not settled.
pub begun-settled :
    (g : Graph) (t : Stopping) (i d : ℕ)
    → i < g.n_svc
    → d < g.n_svc
    → count d (dependents g i) ≢ 0
    → is_waiting (t.st i) ≡ false
    → InOrder g t
    → is_settled (t.st d) ≡ true
begun-settled g t i d l m ne b h = elim (Bool-cases (is_settled (t.st d))) [
  | inl e ↦ e
  | inr e ↦
      let none_left : unsettled g t.st i ≡ 0 = sym (h.waits i l) ∙ h.begun i l b in
      let zero_d = sum-zero g.n_svc _ none_left d m in
      let whole = ap (λ x. bit (not x) * count d (dependents g i)) e in
      absurd (ne (omega (arith, zero_d, whole)))
]
