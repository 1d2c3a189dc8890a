-- ===== src/Supervisor/Due.antt =====
-- How long the main loop may wait: ms_until and ms_sooner (help/time.h) and live_due
-- (src/ninit.c). No timeout is `none`, for a negative number.
use ninit.Prelude.{
  ℕ, ◌+◌, ◌-◌, ◌≤◌, ◌≡◌, refl, Bool, true, false, not, ◌&&◌, List, [], ◌∷◌, All, Option, none, some,
  ◌==◌, ltb, if◌then◌else◌, if_keeps, range, arith, inl, inr, ◌⊎◌,
}
use ninit.Graph.{Graph, start_ms}
use ninit.Supervisor.Sys.{is_no_op, Sys}

abbrev pub ms_until : ℕ → ℕ → ℕ
ms_until at now = if ltb now at then at - now else 0

unfoldable pub ms_sooner : Option ℕ → Option ℕ → Option ℕ
ms_sooner a none = a
ms_sooner none (some b) = some b
ms_sooner (some a) (some b) = if ltb b a then some b else some a

module _ (g : Graph) (s : Sys) (now : ℕ) where
  -- one of the three tests of live_due
  abbrev pub sooner_if : Bool → ℕ → Option ℕ → Option ℕ
  sooner_if b at best = if b then ms_sooner best (some (ms_until at now)) else best

  -- the body of the loop of live_due
  unfoldable pub due_of : ℕ → Option ℕ → Option ℕ
  due_of i best =
      let r = s.runs i in
      let b1 = sooner_if (not (r.restart_at == 0)) r.restart_at best in
      let b2 = sooner_if (r.starting && not r.timedout) (r.started + start_ms g i) b1 in
      sooner_if (not (is_no_op r.op)) r.op_at b2

  unfoldable pub due_loop : List ℕ → Option ℕ → Option ℕ
  due_loop [] best = best
  due_loop (k ∷ ks) best = due_loop ks (due_of (s.live k) best)

  unfoldable pub live_due : Option ℕ
  live_due = due_loop (range 0 s.n_live) none

  -- the waits that are asked for, of one service and of all
  abbrev waits_if : Bool → ℕ → List ℕ → List ℕ
  waits_if b at xs = if b then ms_until at now ∷ xs else xs

  unfoldable pub waits_of : ℕ → List ℕ → List ℕ
  waits_of i xs =
      let r = s.runs i in
      let x1 = waits_if (not (r.restart_at == 0)) r.restart_at xs in
      let x2 = waits_if (r.starting && not r.timedout) (r.started + start_ms g i) x1 in
      waits_if (not (is_no_op r.op)) r.op_at x2

  unfoldable pub waits : List ℕ → List ℕ → List ℕ
  waits [] xs = xs
  waits (k ∷ ks) xs = waits ks (waits_of (s.live k) xs)

-- a is in the list
abbrev pub Among : ℕ → List ℕ → Type 0
Among a [] = ⊥
Among a (x ∷ xs) = (x ≡ a) ⊎ Among a xs

-- the least of the list, or none of an empty one
abbrev pub IsLeast : List ℕ → Option ℕ → Type 0
IsLeast xs none = xs ≡ []
IsLeast xs (some b) = Among b xs × All (λ x. b ≤ x) xs

All-lower : (a b : ℕ) (xs : List ℕ) → a ≤ b → All (λ x. b ≤ x) xs → All (λ x. a ≤ x) xs
All-lower a b [] l h = tt
All-lower a b (x ∷ xs) l h = (omega (arith, l, h.0), All-lower a b xs l h.1)

ms_sooner-IsLeast :
    (xs : List ℕ) (best : Option ℕ) (x : ℕ)
    → IsLeast xs best
    → IsLeast (x ∷ xs) (ms_sooner best (some x))
unfolding ms_sooner
ms_sooner-IsLeast xs none x h = rw h ((inl refl), (omega arith, tt))
ms_sooner-IsLeast xs (some a) x h =
    if_keeps (IsLeast (x ∷ xs)) (ltb x a) (some x) (some a)
      (λ e. (inl refl, (omega arith, All-lower x a xs (ground (arith, e)) h.1)))
      (λ e. (inr h.0, (ground (arith, e), h.1)))

module _ (g : Graph) (s : Sys) (now : ℕ) where
  sooner_if-IsLeast :
      (b : Bool) (at : ℕ) (xs : List ℕ) (best : Option ℕ)
      → IsLeast xs best
      → IsLeast (waits_if g s now b at xs) (sooner_if g s now b at best)
  sooner_if-IsLeast true at xs best h = ms_sooner-IsLeast xs best (ms_until at now) h
  sooner_if-IsLeast false at xs best h = h

  due_loop-IsLeast :
      (ks xs : List ℕ) (best : Option ℕ)
      → IsLeast xs best
      → IsLeast (waits g s now ks xs) (due_loop g s now ks best)
  unfolding waits due_loop waits_of due_of
  due_loop-IsLeast [] xs best h = h
  due_loop-IsLeast (k ∷ ks) xs best h =
      let i = s.live k in
      let r = s.runs i in
      let restart = not (r.restart_at == 0) in
      let timing = r.starting && not r.timedout in
      let starts_by = r.started + start_ms g i in
      let x1 = waits_if g s now restart r.restart_at xs in
      let b1 = sooner_if g s now restart r.restart_at best in
      let x2 = waits_if g s now timing starts_by x1 in
      let b2 = sooner_if g s now timing starts_by b1 in
      let h1 : IsLeast x1 b1 = sooner_if-IsLeast restart r.restart_at xs best h in
      let h2 : IsLeast x2 b2 = sooner_if-IsLeast timing starts_by x1 b1 h1 in
      due_loop-IsLeast ks (waits_of g s now i xs) (due_of g s now i best)
        (sooner_if-IsLeast (not (is_no_op r.op)) r.op_at x2 b2 h2)

  -- live_due is the least of the waits until the restarts, start timeouts and client deadlines of
  -- the live services, and none where there are none.
  pub live_due-IsLeast : IsLeast (waits g s now (range 0 s.n_live) []) (live_due g s now)
  unfolding live_due
  live_due-IsLeast = due_loop-IsLeast (range 0 s.n_live) [] none refl
