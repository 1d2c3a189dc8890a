-- ===== src/Supervisor/Keeps/Boots.antt =====
-- start_graph establishes the invariant (src/ninit.c).
use ninit.Prelude.{
  ℕ, zero, suc, ◌+◌, ◌%◌, ◌≤◌, ◌<◌, ◌≡◌, refl, sym, ap, false, inl, arith, range, if_keeps, sum,
}
use ninit.Graph.{Graph, IsWellFormed, targets}
use ninit.Supervisor.Core.{is_done}
use ninit.Supervisor.Invariant.Defs.{IsSound, IsSettled, owing}
use ninit.Supervisor.Sys.{Sys, World}
use ninit.Supervisor.Boot.{boot_core, boot_sys, start_root, start_roots, start_graph}
use ninit.Supervisor.Keeps.Settled.{svc_try_start-IsSettled, complete-IsSettled}
use ninit.Supervisor.Keeps.Undone.{svc_try_start-Spare, complete-Spare}

sum-none : (n : ℕ) → sum n (λ j. 0) ≡ 0
unfolding sum
sum-none zero = refl
sum-none (suc n) = omega (arith, sum-none n)

sum-ones : (n : ℕ) → sum n (λ j. 1) ≡ n
unfolding sum
sum-ones zero = refl
sum-ones (suc n) = omega (arith, sum-ones n)

module _ (g : Graph) (wf : IsWellFormed g) where
  -- The zeroed memory satisfies the invariant: all is PENDING and nothing is released.
  pub boot_core-IsSound : IsSound g (λ _. 0) (boot_core g)
  unfolding boot_core owing
  boot_core-IsSound = record {
    counted = record {
      active = sym (sum-none g.n_svc);
      pending = sym (sum-ones g.n_svc);
      done = sym (sum-none g.n_svc);
    };
    flagged = record {
      ups = record { ups = sym (sum-none g.n_svc) };
      ready = record { up_released = λ i e. e; released_up = λ i e. inl e };
      linked = record {
        fits = λ d l. omega (arith, wf.degree_small d l, wf.small);
        queued = tt;
        linked = λ d l. ap (λ x. x % 65536) (omega (arith, wf.degrees d l));
      };
    };
  }

  pub boot_core-IsSettled : IsSettled g (boot_core g)
  unfolding boot_core
  boot_core-IsSettled = record { sound = boot_core-IsSound; resting = (refl, refl) }

  module _ (w : World) where
    -- the roots from k on are not DONE, and the invariant holds
    abbrev Begun : ℕ → Sys → Type 0
    Begun k s =
        IsSettled g s.core × ((j : ℕ) → k ≤ j → j < g.n_roots → is_done (s.core.state j) ≡ false)

    start_root-Begun :
        (k : ℕ) (s : Sys) → k < g.n_roots → Begun k s → Begun (k + 1) (start_root g w k s)
    unfolding start_root
    start_root-Begun k s l h =
        if_keeps (Begun (k + 1)) (targets g k) _ _
          (λ _. (
            complete-IsSettled g wf w k below s h.0,
            λ j m r.
                complete-Spare g wf w j (omega (arith, r, wf.roots)) (wf.root_free j r) k below
                  (λ e. absurd (omega arith)) s h.0.sound (h.1 j (omega arith) r),
          ))
          (λ _. (
            svc_try_start-IsSettled g wf w k below s (h.1 k (omega arith) l) h.0,
            λ j m r. svc_try_start-Spare g w j k s (h.1 j (omega arith) r),
          ))
      where
        below : k < g.n_svc
        below = omega (arith, l, wf.roots)

    start_roots-Begun :
        (n k : ℕ) (s : Sys)
        → k + n ≤ g.n_roots
        → Begun k s
        → Begun (k + n) (start_roots g w (range k n) s)
    unfolding start_roots
    start_roots-Begun zero k s l h = (h.0, λ j m r. h.1 j (omega arith) r)
    start_roots-Begun (suc n) k s l h =
        let rest =
          start_roots-Begun n (k + 1) _ (omega arith) (start_root-Begun k s (omega arith) h) in
        (rest.0, λ j m r. rest.1 j (omega arith) r)

    -- The boot ends in the invariant, whatever the kernel answers.
    pub start_graph-IsSettled : IsSettled g (start_graph g w).core
    unfolding start_graph boot_core
    start_graph-IsSettled =
        (start_roots-Begun g.n_roots 0 (boot_sys g) (omega arith)
          (boot_core-IsSettled, λ j m r. refl)).0
