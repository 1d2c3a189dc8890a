-- ===== src/Pids/Distance.antt =====
-- Steps from one slot to another around the table (src/pidmap.c).
use ninit.Prelude.{
  ℕ, ◌*◌, ◌+◌, ◌-◌, ◌%◌, ◌≤◌, ◌<◌, ◌≡◌, ◌≢◌, ◌⊎◌, ap, ◌∙◌, inl, inr, true, false, Bool-cases, leb,
  if◌then◌else◌, arith,
}
use native.Mathlib.Nat.{mod_self, mod-eq_of_lt, mod-lt}
use ninit.Pids.{next, leaves_gap, pid_hash}

-- the steps from the slot a to the slot b, of mask + 1 slots
abbrev pub dist : ℕ → ℕ → ℕ → ℕ
dist mask a b = if leb a b then b - a else b + (mask + 1) - a

pub next-cases : (m i : ℕ) → i ≤ m → ((i < m) × (next m i ≡ i + 1)) ⊎ ((i ≡ m) × (next m i ≡ 0))
next-cases m i l = elim (Bool-cases (leb m i)) [
  | inl e ↦ inr (
      let same : i ≡ m = ground arith in
      (same, ap (λ k. (k + 1) % (m + 1)) same ∙ mod_self (m + 1)))
  | inr e ↦ inl (let less : i < m = ground arith in (less, mod-eq_of_lt (omega arith)))
]

module _ (m : ℕ) where
  pub next-below : (i : ℕ) → i ≤ m → next m i ≤ m
  next-below i l = elim (next-cases m i l) [ inl h ↦ omega (arith, h) | inr h ↦ omega (arith, h) ]

  pub dist-below : (a b : ℕ) → a ≤ m → b ≤ m → dist m a b ≤ m
  dist-below a b l k = ground arith

  pub dist_self : (a : ℕ) → dist m a a ≡ 0
  dist_self a = ground arith

  -- one step on
  pub dist-next : (h i : ℕ) → h ≤ m → i ≤ m → dist m h i < m → dist m h (next m i) ≡ dist m h i + 1
  dist-next h i k l few = elim (next-cases m i l) [
    | inl s ↦ ground (arith, s)
    | inr s ↦ ground (arith, s)
  ]

  pub dist_same : (h a b : ℕ) → a ≤ m → b ≤ m → h ≤ m → dist m h a ≡ dist m h b → a ≡ b
  dist_same h a b k l n e = ground (arith, e)

  -- what the test of pid_del finds
  pub leaves_gap-path :
      (i j k : ℕ)
      → i ≤ m
      → j ≤ m
      → k ≤ m
      → i ≢ j
      → leaves_gap i j k ≡ true
      → dist m k i < dist m k j
  leaves_gap-path i j k a b c ne e = ground (arith, ne, e)

  pub leaves_gap-no_path :
      (i j k : ℕ) → i ≤ m → j ≤ m → k ≤ m → leaves_gap i j k ≡ false → dist m k j ≤ dist m k i
  leaves_gap-no_path i j k a b c e = ground (arith, e)

pub pid_hash-below : (m p : ℕ) → pid_hash m p ≤ m
unfolding pid_hash
pid_hash-below m p =
    let below = mod-lt (p * 2654435761 % 4294967296) {m = m + 1} (omega arith) in
    omega (arith, below)
