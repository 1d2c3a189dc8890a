-- ===== src/Schedule/Heap.antt =====
-- The heap of ready services loses and makes up nothing (ctl/graph.c).
use ninit.Prelude.{
  ℕ, zero, suc, ◌+◌, ◌-◌, ◌*◌, ◌/◌, ◌<◌, ◌≡◌, ◌≢◌, refl, ap, ◌∙◌, not, ◌&&◌, ◌==◌, ltb,
  if◌then◌else◌, if_keeps, arith, bit, update, update_self, update_ne, sum, sum-ext, tally,
  tally-update,
}
use native.Mathlib.Decide.{ℕ_discrete}
use ninit.Schedule.{
  Linked, Ready, swap, ready_before, sift_up, ready_push, first_of, sift_down, ready_pop,
}

-- how often a stands in the first n cells
abbrev pub occurs : ℕ → ℕ → (ℕ → ℕ) → ℕ
occurs a n v = tally (λ x. x == a) n v

occurs-swap : (a n i j : ℕ) (v : ℕ → ℕ) → i < n → j < n → occurs a n (swap v i j) ≡ occurs a n v
occurs-swap a n i j v l m =
    let first = tally-update (λ x. x == a) n v i (v j) l in
    let second = tally-update (λ x. x == a) n (update v i (v j)) j (v i) m in
    let kept : update v i (v j) j ≡ v j = elim (ℕ_discrete j i) [
      | yes e ↦ ap (update v i (v j)) e ∙ update_self v i (v j)
      | no other ↦ update_ne v i (v j) other
    ] in
    omega (arith, first, second, ap (λ x. bit (x == a)) kept)

module _ (g : Linked) where
  sift_up-occurs :
      (a n fuel i : ℕ) (v : ℕ → ℕ) → i < n → occurs a n (sift_up g fuel i v) ≡ occurs a n v
  unfolding sift_up
  sift_up-occurs a n zero i v l = refl
  sift_up-occurs a n (suc fuel) i v l =
      let p = (i - 1) / 2 in
      let less : p < n = omega arith in
      if_keeps (λ u. occurs a n u ≡ occurs a n v) (i == 0) _ _ (λ _. refl)
        (λ _.
          if_keeps (λ u. occurs a n u ≡ occurs a n v) (not (ready_before g (v i) (v p))) _ _
            (λ _. refl)
            (λ _. sift_up-occurs a n fuel p (swap v i p) less ∙ occurs-swap a n i p v l less))

  first_of-below : (n i : ℕ) (v : ℕ → ℕ) → i < n → first_of g n i v < n
  unfolding first_of
  first_of-below n i v l =
      let l' = 2 * i + 1 in
      let b = if ltb l' n && ready_before g (v l') (v i) then l' else i in
      let mid : b < n =
        if_keeps (λ x. x < n) (ltb l' n && ready_before g (v l') (v i)) _ _ (λ e. ground (arith, e))
          (λ _. l) in
      if_keeps (λ x. x < n) (ltb (l' + 1) n && ready_before g (v (l' + 1)) (v b)) _ _
        (λ e. ground (arith, e)) (λ _. mid)

  sift_down-occurs :
      (a fuel n i : ℕ) (v : ℕ → ℕ) → i < n → occurs a n (sift_down g fuel n i v) ≡ occurs a n v
  unfolding sift_down
  sift_down-occurs a zero n i v l = refl
  sift_down-occurs a (suc fuel) n i v l =
      let b = first_of g n i v in
      let less = first_of-below n i v l in
      if_keeps (λ u. occurs a n u ≡ occurs a n v) (b == i) _ _ (λ _. refl)
        (λ _. sift_down-occurs a fuel n b (swap v i b) less ∙ occurs-swap a n i b v l less)

  -- ready_push adds the service
  pub push-occurs :
      (a x : ℕ) (q : Ready)
      → occurs a (ready_push g q x).n (ready_push g q x).v ≡ occurs a q.n q.v + bit (x == a)
  unfolding ready_push sum
  push-occurs a x q =
      let top : q.n + 1 ≡ suc q.n = omega arith in
      let sifted = sift_up-occurs a (suc q.n) (q.n + 1) q.n (update q.v q.n x) (omega arith) in
      let old =
        sum-ext q.n (λ j. bit (update q.v q.n x j == a)) (λ j. bit (q.v j == a))
          (λ j l.
            ap (λ y. bit (y == a)) (update_ne q.v q.n x (λ e. absurd (omega (arith, l, e))))) in
      let new = ap (λ y. bit (y == a)) (update_self q.v q.n x) in
      ap (λ k. occurs a k (sift_up g (q.n + 1) q.n (update q.v q.n x))) top
      ∙ sifted
      ∙ omega (arith, old, new)

  -- and ready_pop takes away the one that it gives
  pub pop-occurs :
      (a : ℕ) (q : Ready)
      → q.n ≢ 0
      → occurs a (ready_pop g q).1.n (ready_pop g q).1.v + bit ((ready_pop g q).0 == a)
        ≡ occurs a q.n q.v
  unfolding ready_pop sum
  pop-occurs a q ne =
      let n = q.n - 1 in
      let size : q.n ≡ suc n = grind (arith, ne) in
      let all : occurs a q.n q.v ≡ bit (q.v n == a) + occurs a n q.v =
        ap (λ k. occurs a k q.v) size in
      elim (ℕ_discrete n 0) [
        | yes z ↦
            let none_left : occurs a n (sift_down g q.n n 0 (update q.v 0 (q.v n))) ≡ 0 =
              ap (λ k. occurs a k (sift_down g q.n n 0 (update q.v 0 (q.v n)))) z in
            let none_other : occurs a n q.v ≡ 0 = ap (λ k. occurs a k q.v) z in
            let same = ap (λ k. bit (q.v k == a)) z in
            omega (arith, none_left, none_other, same, all)
        | no more ↦
            let positive : 0 < n = grind (arith, more) in
            let sifted = sift_down-occurs a q.n n 0 (update q.v 0 (q.v n)) positive in
            let change = tally-update (λ x. x == a) n q.v 0 (q.v n) positive in
            omega (arith, sifted, change, all)
      ]
