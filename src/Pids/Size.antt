-- ===== src/Pids/Size.antt =====
-- The size of the pid table that start_graph allocates (src/ninit.c).
use ninit.Prelude.{
  ℕ, zero, suc, ◌+◌, ◌-◌, ◌*◌, ◌^◌, ◌≤◌, ◌≡◌, refl, sym, ap, ◌∙◌, false, ltb, if_keeps, arith,
}
use native.Mathlib.Nat.{pow-suc, one-le-pow, pow-le-pow_right}
use ninit.Pids.{slots, table_size, new_table}

-- a power of two that four times n fits
record IsSize (n size : ℕ) : Type 0 where
  ample : 4 * n ≤ size
  bounded : size ≤ 32768
  power : (k : ℕ) × (size ≡ 2 ^ k)

-- the loop stops at this size
stops_at : (n k size : ℕ) → k ≤ 15 → size ≡ 2 ^ k → ltb size (4 * n) ≡ false → IsSize n size
stops_at n k size few q b =
    let below : 2 ^ k ≤ 2 ^ 15 = pow-le-pow_right {n = 2} (omega arith) {i = k} {j = 15} few in
    record { ample = ground (arith, b); bounded = omega (arith, below, q); power = (k, q) }

table_size-IsSize :
    (fuel n k size : ℕ)
    → n ≤ 8192
    → k + fuel ≡ 15
    → size ≡ 2 ^ k
    → IsSize n (table_size (suc fuel) n size)
unfolding table_size
table_size-IsSize zero n k size small e q =
    let last : size ≡ 32768 = let same : k ≡ 15 = omega arith in q ∙ ap (λ j. 2 ^ j) same in
    if_keeps (IsSize n) (ltb size (4 * n)) _ _ (λ b. absurd (ground (arith, b, last, small)))
      (λ b. stops_at n k size (omega arith) q b)
table_size-IsSize (suc fuel) n k size small e q =
    if_keeps (IsSize n) (ltb size (4 * n)) _ _
      (λ b.
        table_size-IsSize fuel n (suc k) (size * 2) small (omega arith)
          (ap (λ x. x * 2) q ∙ sym (pow-suc 2 k)))
      (λ b. stops_at n k size (omega arith) q b)

-- The table that start_graph allocates has, for a graph of at most 8192 services, at least four
-- slots for each of them and no more than 32768, and their number is a power of two.
pub new_table-size :
    (n : ℕ)
    → n ≤ 8192
    → (4 * n ≤ slots (new_table n))
      × (slots (new_table n) ≤ 32768)
      × ((k : ℕ) × (slots (new_table n) ≡ 2 ^ k))
unfolding new_table
new_table-size n small =
    let size = table_size-IsSize 9 n 6 64 small refl refl in
    let (k, q) = size.power in
    let some_ = one-le-pow k 2 (omega arith) in
    let same : table_size 10 n 64 - 1 + 1 ≡ table_size 10 n 64 = omega (arith, q, some_) in
    (omega (arith, same, size.ample), omega (arith, same, size.bounded), (k, same ∙ q))
