-- ===== src/Supervisor/Lookup.antt =====
-- find_pid (src/pidmap.c): by the table of pids, or by a search of the live list where the table
-- could not be allocated.
use ninit.Prelude.{
  subst, zero, suc, ◌+◌, ℕ, ◌≤◌, ◌<◌, ◌≡◌, ◌≢◌, ◌⊎◌, inl, inr, refl, sym, ap, ◌∙◌, Bool, true,
  false, not, List, [], ◌∷◌, All, range-below, Option, none, some, ◌==◌, ==_iff, if◌then◌else◌,
  range, arith, Bool-cases,
}
use mathlib.Core.Option.{some-injective}
use native.Mathlib.Decide.{ℕ_discrete}
use ninit.Supervisor.Sys.{Sys}
use ninit.Pids.{Table, find}

-- the loop over the live list; true is for a stale pid
unfoldable pub find_live : Sys → ℕ → List ℕ → Option (ℕ × Bool)
find_live s pid [] = none
find_live s pid (k ∷ ks) =
    let j = s.live k in
    let rest = find_live s pid ks in
    if (s.runs j).pid == pid
    then some (j, false)
    else if (s.runs j).stale_pid == pid
    then some (j, true)
    else rest

-- find_pid, and whether the pid is a stale one
unfoldable pub find_pid : Option Table → Sys → ℕ → Option (ℕ × Bool)
find_pid none s pid = find_live s pid (range 0 s.n_live)
find_pid (some t) s pid = elim (find t pid) [
  | none ↦ none
  | some j ↦ some (j, not ((s.runs j).pid == pid))
]

abbrev pub IsOf : Sys → ℕ → ℕ → Type 0
IsOf s j pid = ((s.runs j).pid ≡ pid) ⊎ ((s.runs j).stale_pid ≡ pid)

-- The table has the pids of the live services, and no others.
pub record Tracks (t : Table) (s : Sys) : Type 0 where
  pub holds :
      (k pid : ℕ) → k < s.n_live → pid ≢ 0 → IsOf s (s.live k) pid → find t pid ≡ some (s.live k)
  pub only :
      (pid j : ℕ)
      → pid ≢ 0
      → find t pid ≡ some j
      → (k : ℕ) × (k < s.n_live) × (s.live k ≡ j) × IsOf s j pid

All-range {κ} : (P : ℕ → Type κ) (a n k : ℕ) → All P (range a n) → a ≤ k → k < a + n → P k
All-range P a zero k h l m = absurd (omega arith)
All-range P a (suc n) k h l m = elim (ℕ_discrete a k) [
  | yes e ↦ subst P e h.0
  | no other ↦ All-range P (a + 1) n k h.1 (grind (arith, other)) (omega arith)
]

pub some-none : {A : Type 0} {x : A} → Path (Option A) (some x) none → ⊥
some-none e = ground (arith, e)

module _ (t : Table) (s : Sys) (h : Tracks t s) (pid : ℕ) (ne : pid ≢ 0) where
  abbrev answer : ℕ → Option (ℕ × Bool)
  answer j = some (j, not ((s.runs j).pid == pid))

  -- a service of the pid is the one that the table has
  held : (j k : ℕ) → find t pid ≡ some j → k < s.n_live → IsOf s (s.live k) pid → s.live k ≡ j
  held j k e l m = some-injective (s.live k) j (sym (h.holds k pid l ne m) ∙ e)

  off : (x : ℕ) → x ≢ pid → (x == pid) ≡ false
  off x other = ground (arith, other)

  reported :
      (j a : ℕ) (v : Bool)
      → a ≡ j
      → ((s.runs a).pid == pid) ≡ v
      → Path (Option (ℕ × Bool)) (some (a, not v)) (answer j)
  reported j a v same e =
      ap (λ x. some (x, not v)) same
      ∙ ap (λ b. some (j, not b)) (sym (subst (λ x. ((s.runs x).pid == pid) ≡ v) same e))

  neither :
      {j : ℕ}
      → IsOf s j pid
      → ((s.runs j).pid == pid) ≡ false
      → ((s.runs j).stale_pid == pid) ≡ false
      → ⊥
  neither (inl e) p q = ground (arith, e, p)
  neither (inr e) p q = ground (arith, e, q)

  find_live-some :
      (j : ℕ) (ks : List ℕ)
      → find t pid ≡ some j
      → All (λ k. k < s.n_live) ks
      → (find_live s pid ks ≡ answer j) ⊎ All (λ k. ¬ (IsOf s (s.live k) pid)) ks
  unfolding find_live
  find_live-some j [] e b = inr tt
  find_live-some j (k ∷ ks) e b = elim (Bool-cases ((s.runs (s.live k)).pid == pid)) [
    | inl own ↦
        let same = held j k e b.0 (inl ((==_iff _ _).0 own)) in
        inl (rw own (reported j (s.live k) true same own))
    | inr not_own ↦ elim (Bool-cases ((s.runs (s.live k)).stale_pid == pid)) [
      | inl stale ↦
          let same = held j k e b.0 (inr ((==_iff _ _).0 stale)) in
          inl (rw (not_own, stale) (reported j (s.live k) false same not_own))
      | inr not_stale ↦ elim (find_live-some j ks e b.1) [
        | inl found ↦ inl (rw (not_own, not_stale) found)
        | inr none_of ↦ inr ((λ m. neither m not_own not_stale), none_of)
      ]
    ]
  ]

  find_live-none :
      (ks : List ℕ) → find t pid ≡ none → All (λ k. k < s.n_live) ks → find_live s pid ks ≡ none
  unfolding find_live
  find_live-none [] e b = refl
  find_live-none (k ∷ ks) e b =
      let out = λ (m : IsOf s (s.live k) pid). some-none (sym (h.holds k pid b.0 ne m) ∙ e) in
      let not_own : ((s.runs (s.live k)).pid == pid) ≡ false = off _ (λ q. out (inl q)) in
      let not_stale : ((s.runs (s.live k)).stale_pid == pid) ≡ false = off _ (λ q. out (inr q)) in
      rw (not_own, not_stale) (find_live-none ks e b.1)

  -- Where the table tracks the live services, find_pid has the same answer from the table and from
  -- the live list, also on whether the pid is a stale one.
  pub find_pid-agrees : find_pid (some t) s pid ≡ find_pid none s pid
  unfolding find_pid
  find_pid-agrees = go (find t pid) refl
    where
      below : All (λ k. k < s.n_live) (range 0 s.n_live)
      below = range-below s.n_live 0 s.n_live (omega arith)

      go :
          (o : Option ℕ)
          → find t pid ≡ o
          → elim o [ none ↦ none | some j ↦ answer j ] ≡ find_live s pid (range 0 s.n_live)
      go none e = sym (find_live-none (range 0 s.n_live) e below)
      go (some j) e = elim (find_live-some j (range 0 s.n_live) e below) [
        | inl found ↦ sym found
        | inr nobody ↦
            let (k, l, same, m) = h.only pid j ne e in
            absurd (
              All-range (λ k. ¬ (IsOf s (s.live k) pid)) 0 s.n_live k nobody (omega arith)
                (omega arith) (subst (λ x. IsOf s x pid) (sym same) m))
      ]
