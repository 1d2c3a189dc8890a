-- ===== src/Prelude/Sums.antt =====
-- Sums over array cells, and how one write changes them.
use Prim.Native.Nat.{ℕ, zero, suc, ◌+◌, ◌≤◌, ◌<◌}
use mathlib.Core.Path.{◌≡◌, refl, ap}
use mathlib.Core.Logic.{◌≢◌}
use mathlib.Core.Bool.{Bool}
use mathlib.Core.List.{List, [], ◌∷◌}
use native.Mathlib.Decide.{ℕ_discrete}
use native.Mathlib.Omega.{arith}
use ninit.Prelude.Lists.{All, length, range}
use ninit.Prelude.Tests.{bit, ◌==◌, update, update_self, update_ne}

-- w 0 + … + w (n - 1)
unfoldable pub sum : ℕ → (ℕ → ℕ) → ℕ
sum zero w = 0
sum (suc n) w = w n + sum n w

pub sum-ext : (n : ℕ) (v w : ℕ → ℕ) → ((j : ℕ) → j < n → v j ≡ w j) → sum n v ≡ sum n w
unfolding sum
sum-ext zero v w h = refl
sum-ext (suc n) v w h = omega (arith, h n (omega arith), sum-ext n v w (λ j l. h j (omega arith)))

-- Two arrays that agree but at `i` differ in sum as they differ at `i`.
pub sum-change :
    (n i : ℕ) (v w : ℕ → ℕ) → i < n → ((j : ℕ) → j ≢ i → v j ≡ w j) → sum n v + w i ≡ sum n w + v i
unfolding sum
sum-change zero i v w l h = absurd (omega arith)
sum-change (suc n) i v w l h = elim (ℕ_discrete n i) [
  | yes e ↦
      let same = sum-ext n v w (λ j m. h j (λ q. absurd (omega arith))) in
      omega (arith, same, ap v e, ap w e)
  | no other ↦ omega (arith, h n other, sum-change n i v w (omega arith) h)
]

pub sum-le : (n : ℕ) (w : ℕ → ℕ) → ((j : ℕ) → w j ≤ 1) → sum n w ≤ n
unfolding sum
sum-le zero w h = omega arith
sum-le (suc n) w h = omega (arith, h n, sum-le n w h)

pub sum_mono : (n : ℕ) (v w : ℕ → ℕ) → ((j : ℕ) → j < n → v j ≤ w j) → sum n v ≤ sum n w
unfolding sum
sum_mono zero v w h = omega arith
sum_mono (suc n) v w h = omega (arith, h n (omega arith), sum_mono n v w (λ j l. h j (omega arith)))

pub sum-zero : (n : ℕ) (w : ℕ → ℕ) → sum n w ≡ 0 → (j : ℕ) → j < n → w j ≡ 0
unfolding sum
sum-zero zero w e j l = absurd (omega arith)
sum-zero (suc n) w e j l = elim (ℕ_discrete j n) [
  | yes same ↦ rw same (omega arith)
  | no other ↦ sum-zero n w (omega arith) j (omega arith)
]

pub sum_none : (n : ℕ) → sum n (λ d. 0) ≡ 0
unfolding sum
sum_none zero = refl
sum_none (suc n) = omega (arith, sum_none n)

-- how often `a` occurs
unfoldable pub count : ℕ → List ℕ → ℕ
count a [] = 0
count a (x ∷ xs) = bit (x == a) + count a xs

-- how many of the first n cells pass the test
abbrev pub tally {ℓ} : {A : Type ℓ} → (A → Bool) → ℕ → (ℕ → A) → ℕ
tally f n a = sum n (λ j. bit (f (a j)))

pub bit-le : (b : Bool) → bit b ≤ 1
bit-le b = ground arith

module _ {ℓ} {A : Type ℓ} (f : A → Bool) (n : ℕ) where
  pub tally-le : (a : ℕ → A) → tally f n a ≤ n
  tally-le a = sum-le n (λ j. bit (f (a j))) (λ j. bit-le (f (a j)))

  pub tally-update :
      (a : ℕ → A) (i : ℕ) (v : A)
      → i < n
      → tally f n (update a i v) + bit (f (a i)) ≡ tally f n a + bit (f v)
  tally-update a i v l =
      let change =
        sum-change n i (λ j. bit (f (update a i v j))) (λ j. bit (f (a j))) l
          (λ j ne. ap (λ x. bit (f x)) (update_ne a i v ne)) in
      omega (arith, change, ap (λ x. bit (f x)) (update_self a i v))

-- Numbers below n are counted once each by the first n counters.
pub counts : (n : ℕ) (xs : List ℕ) → All (λ d. d < n) xs → sum n (λ d. count d xs) ≡ length xs
unfolding count
counts n [] h = sum_none n
counts n (x ∷ xs) h =
    let change =
      sum-change n x (λ d. bit (x == d) + count d xs) (λ d. count d xs) h.0
        (λ j other. ground (arith, other)) in
    let here : bit (x == x) ≡ 1 = ground arith in omega (arith, counts n xs h.1, change, here)

pub sum_ones : (n : ℕ) → sum n (λ j. 1) ≡ n
unfolding sum
sum_ones zero = refl
sum_ones (suc n) = omega (arith, sum_ones n)

-- Where n cells of at most 1 come to n, each is 1.
pub sum-full :
    (n : ℕ) (w : ℕ → ℕ) → ((j : ℕ) → j < n → w j ≤ 1) → sum n w ≡ n → (i : ℕ) → i < n → w i ≡ 1
sum-full n w h e i l =
    let change =
      sum-change n i (update (λ j. 1) i (w i)) (λ j. 1) l (λ j o. update_ne (λ j. 1) i (w i) o) in
    let le = sum_mono n w (update (λ j. 1) i (w i)) (λ j k. elim (ℕ_discrete j i) [
      | yes q ↦ omega (arith, ap w q, ap (update (λ j. 1) i (w i)) q, update_self (λ j. 1) i (w i))
      | no o ↦ omega (arith, update_ne (λ j. 1) i (w i) o, h j k)
    ]) in
    omega (arith, change, le, sum_ones n, update_self (λ j. 1) i (w i), h i l, e)

count-range_out : (d a k : ℕ) → d < a → count d (range a k) ≡ 0
unfolding count
count-range_out d a zero l = refl
count-range_out d a (suc k) l =
    let z : bit (a == d) ≡ 0 = ground arith in
    omega (arith, z, count-range_out d (a + 1) k (omega arith))

-- A range has each of its numbers once.
pub count-range_in : (d a k : ℕ) → a ≤ d → d < a + k → count d (range a k) ≡ 1
unfolding count
count-range_in d a zero l m = absurd (omega arith)
count-range_in d a (suc k) l m = elim (ℕ_discrete a d) [
  | yes e ↦
      let one : bit (a == d) ≡ 1 = ground (arith, e) in
      omega (arith, one, count-range_out d (a + 1) k (omega (arith, e)))
  | no other ↦
      let z : bit (a == d) ≡ 0 = ground (arith, other) in
      omega (arith, z, count-range_in d (a + 1) k (grind (arith, other)) (omega arith))
]

pub count-range_beyond : (d a k : ℕ) → a + k ≤ d → count d (range a k) ≡ 0
unfolding count
count-range_beyond d a zero l = refl
count-range_beyond d a (suc k) l =
    let z : bit (a == d) ≡ 0 = ground arith in
    omega (arith, z, count-range_beyond d (a + 1) k (omega arith))
