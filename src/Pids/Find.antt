-- ===== src/Pids/Find.antt =====
-- The search of the pid table finds what is in it (src/pidmap.c).
use ninit.Prelude.{
  ℕ, zero, suc, ◌+◌, ◌≤◌, ◌<◌, ◌≡◌, ◌≢◌, ◌⊎◌, inl, inr, refl, sym, ap, subst, ◌∙◌, true, false, not,
  Bool-cases, ◌||◌, ◌==◌, ==_iff, if_keeps, arith, none, some, tally, bit, sum,
}
use native.Mathlib.Decide.{ℕ_discrete}
use ninit.Pids.{Table, slots, pid_hash, next, probe, slot_of, find}
use ninit.Pids.Distance.{dist, next-below, dist-below, dist-next, dist_same, pid_hash-below}

-- s is passed by the search for the key k before it comes to x
abbrev pub IsPassed : ℕ → ℕ → ℕ → ℕ → Type 0
IsPassed m k s x = dist m (pid_hash m k) s < dist m (pid_hash m k) x

abbrev pub used : Table → ℕ
used t = tally (λ k. not (k == 0)) (slots t) t.key

-- Every entry is found: no slot is free that its search passes. No pid has two entries, and a slot
-- is free.
pub record IsTable (t : Table) : Type 0 where
  pub probed :
      (x s : ℕ)
      → x ≤ t.mask
      → s ≤ t.mask
      → t.key x ≢ 0
      → IsPassed t.mask (t.key x) s x
      → t.key s ≢ 0
  pub unique : (x y : ℕ) → x ≤ t.mask → y ≤ t.mask → t.key x ≢ 0 → t.key x ≡ t.key y → x ≡ y
  pub room : used t ≤ t.mask

-- where the search for a pid ends
pub record IsSlot (t : Table) (pid r : ℕ) : Type 0 where
  pub below : r ≤ t.mask
  pub stops : (t.key r ≡ 0) ⊎ (t.key r ≡ pid)
  pub before : (s : ℕ) → s ≤ t.mask → IsPassed t.mask pid s r → (t.key s ≢ 0) × (t.key s ≢ pid)

-- where fewer cells than all pass a test, one does not
free_cell : (n : ℕ) (a : ℕ → ℕ) → tally (λ k. not (k == 0)) n a < n → (e : ℕ) × (e < n) × (a e ≡ 0)
unfolding sum
free_cell zero a l = absurd (omega arith)
free_cell (suc n) a l = elim (ℕ_discrete (a n) 0) [
  | yes z ↦ (n, omega arith, z)
  | no other ↦
      let one : bit (not (a n == 0)) ≡ 1 = ground (arith, other) in
      let (e, m, z) = free_cell n a (omega arith) in (e, omega arith, z)
]

between : (a b : ℕ) → (¬ (a < b)) → (¬ (b < a)) → a ≡ b
between a b f g = ground (arith, f, g)

module _ (t : Table) where
  pub free_slot : used t ≤ t.mask → (e : ℕ) × (e ≤ t.mask) × (t.key e ≡ 0)
  free_slot h = let (e, m, z) = free_cell (slots t) t.key (omega arith) in (e, omega arith, z)

  probe-IsSlot :
      (pid fuel i e : ℕ)
      → i ≤ t.mask
      → e ≤ t.mask
      → t.key e ≡ 0
      → t.mask < fuel + dist t.mask (pid_hash t.mask pid) i
      → ((s : ℕ) → s ≤ t.mask → IsPassed t.mask pid s i → (t.key s ≢ 0) × (t.key s ≢ pid))
      → IsSlot t pid (probe t pid fuel i)
  unfolding probe
  probe-IsSlot pid zero i e l le free more passed =
      absurd
        (omega (arith, dist-below t.mask (pid_hash t.mask pid) i (pid_hash-below t.mask pid) l))
  probe-IsSlot pid (suc fuel) i e l le free more passed =
      let h = pid_hash t.mask pid in
      let hb = pid_hash-below t.mask pid in
      if_keeps (IsSlot t pid) (t.key i == 0 || t.key i == pid) i (probe t pid fuel (next t.mask i))
        (λ b. record { below = l; stops = ground (arith, b); before = passed })
        (λ b.
          let here : (t.key i ≢ 0) × (t.key i ≢ pid) =
            (λ q. ground (arith, b, q), λ q. ground (arith, b, q)) in
          let after : (s : ℕ)
              → s ≤ t.mask
              → dist t.mask h s < dist t.mask h i + 1
              → (t.key s ≢ 0) × (t.key s ≢ pid) =
            λ s ls less. elim (ℕ_discrete s i) [
              | yes same ↦
                  (λ q. here.0 (ap t.key (sym same) ∙ q), λ q. here.1 (ap t.key (sym same) ∙ q))
              | no other ↦ passed s ls (elim (ℕ_discrete (dist t.mask h s) (dist t.mask h i)) [
                | yes q ↦ absurd (other (dist_same t.mask h s i ls l hb q))
                | no q ↦ omega (arith, q, less)
              ])
            ] in
          let few : dist t.mask h i < t.mask = elim (Bool-cases (dist t.mask h i == t.mask)) [
            | inl q ↦
                absurd (
                  (after e le (omega (arith, dist-below t.mask h e hb le, (==_iff _ _).0 q))).0
                    free)
            | inr q ↦ let b = dist-below t.mask h i hb l in ground (arith, q, b)
          ] in
          let one = dist-next t.mask h i hb l few in
          probe-IsSlot pid fuel (next t.mask i) e (next-below t.mask i l) le free
            (omega (arith, one)) (λ s ls less. after s ls (omega (arith, one, less))))

  pub slot_of-IsSlot : (pid : ℕ) → used t ≤ t.mask → IsSlot t pid (slot_of t pid)
  slot_of-IsSlot pid room =
      let (e, le, z) = free_slot room in
      probe-IsSlot pid (slots t) (pid_hash t.mask pid) e (pid_hash-below t.mask pid) le z
        (omega arith) (λ s ls less. absurd (ground arith))

  -- the search for a pid that is in the table ends at its entry
  pub slot_of-entry :
      IsTable t → (pid x : ℕ) → x ≤ t.mask → pid ≢ 0 → t.key x ≡ pid → slot_of t pid ≡ x
  slot_of-entry h pid x l ne e =
      let r = slot_of t pid in
      let at = slot_of-IsSlot pid h.room in
      let hb = pid_hash-below t.mask pid in
      let kx : t.key x ≢ 0 = λ q. ne (sym e ∙ q) in
      let early : ¬ (IsPassed t.mask pid x r) = λ p. (at.before x l p).1 e in
      elim at.stops [
        | inr q ↦ h.unique r x at.below l (λ z. ne (sym q ∙ z)) (q ∙ sym e)
        | inl z ↦
            let late : ¬ (IsPassed t.mask pid r x) =
              λ p. h.probed x r l at.below kx (subst (λ k. IsPassed t.mask k r x) (sym e) p) z in
            dist_same t.mask (pid_hash t.mask pid) r x at.below l hb (between _ _ late early)
      ]

-- the table has the pid, with the service v
pub record Has (t : Table) (pid v : ℕ) : Type 0 where
  pub slot : ℕ
  pub below : slot ≤ t.mask
  pub keyed : t.key slot ≡ pid
  pub valued : t.val slot ≡ v

-- the table does not have the pid
abbrev pub Lacks : Table → ℕ → Type 0
Lacks t pid = (x : ℕ) → x ≤ t.mask → t.key x ≢ pid

module _ (t : Table) (h : IsTable t) (pid : ℕ) (ne : pid ≢ 0) where
  pub find-Has : (v : ℕ) → Has t pid v → find t pid ≡ some v
  unfolding find
  find-Has v e =
      let at = slot_of-entry t h pid e.slot e.below ne e.keyed in
      let filled : (t.key (slot_of t pid) == 0) ≡ false =
        ground (arith, ap t.key at, e.keyed, ne) in
      rw filled (ap (λ x. some (t.val x)) at ∙ ap some e.valued)

  pub find-Lacks : Lacks t pid → find t pid ≡ none
  unfolding find
  find-Lacks lacks =
      let at = slot_of-IsSlot t pid h.room in
      let free : (t.key (slot_of t pid) == 0) ≡ true = elim at.stops [
        | inl z ↦ ground (arith, z)
        | inr q ↦ absurd (lacks _ at.below q)
      ] in
      rw free

  pub Has-or_Lacks : ((v : ℕ) × Has t pid v) ⊎ Lacks t pid
  Has-or_Lacks =
      let at = slot_of-IsSlot t pid h.room in
      elim at.stops [
        | inr q ↦ inl (
          t.val (slot_of t pid),
          record { slot = slot_of t pid; below = at.below; keyed = q; valued = refl },
        )
        | inl z ↦ inr (λ x l q. ne (sym q ∙ ap t.key (sym (slot_of-entry t h pid x l ne q)) ∙ z))
      ]

-- Tables that have the same services for a pid find the same.
pub find-same :
    (t t' : Table) (pid : ℕ)
    → IsTable t
    → IsTable t'
    → pid ≢ 0
    → ((v : ℕ) → Has t pid v → Has t' pid v)
    → ((v : ℕ) → Has t' pid v → Has t pid v)
    → find t' pid ≡ find t pid
find-same t t' pid h h' ne to from = elim (Has-or_Lacks t h pid ne) [
  | inl (v, e) ↦ find-Has t' h' pid ne v (to v e) ∙ sym (find-Has t h pid ne v e)
  | inr lacks ↦
      find-Lacks t' h' pid ne (λ x l q.
        let e = from (t'.val x) (record { slot = x; below = l; keyed = q; valued = refl }) in
        lacks e.slot e.below e.keyed)
      ∙ sym (find-Lacks t h pid ne lacks)
]
