-- ===== src/Supervisor/Invariant/Defs.antt =====
-- What holds of the states, flags and counts between any two operations (src/state.c, src/fail.c).
use ninit.Prelude.{
  ℕ, ◌+◌, ◌%◌, ◌<◌, ◌≡◌, ◌⊎◌, Bool, true, false, not, List, [], ◌∷◌, All, bit, count, tally,
}
use ninit.Graph.{Graph, dependents, order_only, prereqs}
use ninit.Supervisor.Core.{Core, is_pending, is_running, is_done}

-- how many of d's prerequisites are not released
abbrev pub unreleased : Graph → (ℕ → Bool) → ℕ → ℕ
unreleased g released d = prereqs g (λ i. bit (not (released i))) d

-- how often d depends on the services of a work list
unfoldable pub owing : Graph → List ℕ → ℕ → ℕ
owing g [] d = 0
owing g (j ∷ js) d = count d (dependents g j) + owing g js d

module _ (g : Graph) where
  -- The counters of the states are the numbers of services that they stand for.
  pub record IsCounted (c : Core) : Type 0 where
    pub active : c.n_active ≡ tally is_running g.n_svc c.state
    pub pending : c.n_pending ≡ tally is_pending g.n_svc c.state
    pub done : c.n_done ≡ tally is_done g.n_svc c.state

  -- n_up is the number of services that are up.
  pub record IsUpCounted (c : Core) : Type 0 where
    pub ups : c.n_up ≡ tally (λ b. b) g.n_svc c.up

  -- A service that is up is released, and a released one is up, unless its dependents are only
  -- ordered behind it.
  pub record IsReady (c : Core) : Type 0 where
    pub up_released : (i : ℕ) → c.up i ≡ true → c.released i ≡ true
    pub released_up : (i : ℕ) → c.released i ≡ true → (c.up i ≡ true) ⊎ (order_only g i ≡ true)

  -- unmet[d] is the number of d's unreleased prerequisites, up to what the loops have still to
  -- take off (`extra`) or to add (`owed`) for d.
  pub record IsLinked (owed extra : ℕ → ℕ) (c : Core) : Type 0 where
    pub fits : (d : ℕ) → d < g.n_svc → c.unmet d < 65536
    pub queued : All (λ j. j < g.n_svc) c.queue
    pub linked :
        (d : ℕ)
        → d < g.n_svc
        → (c.unmet d + owed d) % 65536
          ≡ (unreleased g c.released d + owing g c.queue d + extra d) % 65536

  -- what holds of the flags, of n_up and of the unmet counts
  pub record IsFlagged (extra : ℕ → ℕ) (c : Core) : Type 0 where
    pub ups : IsUpCounted c
    pub ready : IsReady c
    pub linked : IsLinked (λ _. 0) extra c

  -- The invariant between two operations, with the rest of a running release loop in `extra`.
  pub record IsSound (extra : ℕ → ℕ) (c : Core) : Type 0 where
    pub counted : IsCounted c
    pub flagged : IsFlagged extra c

-- The release queue between two operations: it is empty, and the loop is not running.
abbrev pub IsResting : Core → Type 0
IsResting c = (c.queue ≡ []) × (c.draining ≡ false)

-- The invariant between two operations of the main loop.
pub record IsSettled (g : Graph) (c : Core) : Type 0 where
  pub sound : IsSound g (λ _. 0) c
  pub resting : IsResting c
