-- ===== src/Supervisor/Promises.antt =====
-- What the invariant promises between two operations, and so after every run (src/state.c).
use ninit.Prelude.{
  ℕ, ◌*◌, ◌≤◌, ◌<◌, ◌≡◌, ◌≢◌, ◌⊎◌, refl, ap, sym, ◌∙◌, Bool, true, false, not, List, none, arith,
  All, bit, sum_mono, sum-zero, count,
}
use native.Mathlib.Nat.{mul-le-mul_right}
use ninit.Graph.{Graph, IsWellFormed, dependents, order_only}
use ninit.Supervisor.Core.{Core}
use ninit.Supervisor.Invariant.Defs.{unreleased, owing, IsSettled}
use ninit.Supervisor.Sys.{Sys, World}
use ninit.Supervisor.Start.{svc_can_start}
use ninit.Supervisor.Steps.{Event, IsFor, run}
use ninit.Supervisor.Keeps.Events.{run-IsSettled}

at_most_one : (b : Bool) → bit b ≤ 1
at_most_one b = ground arith

-- A start that is allowed has nothing left to wait for.
nothing_unmet : (i : ℕ) (s : Sys) → svc_can_start i s ≡ none → s.core.unmet i ≡ 0
unfolding svc_can_start
nothing_unmet i s e = ground arith

none_left : (b : Bool) (k : ℕ) → bit (not b) * k ≡ 0 → k ≢ 0 → b ≡ true
none_left true k e h = refl
none_left false k e h = absurd (h (omega arith))

module _ (g : Graph) (wf : IsWellFormed g) where
  module _ (c : Core) (h : IsSettled g c) (d : ℕ) (l : d < g.n_svc) where
    unreleased-le : unreleased g c.released d ≤ (g.svcs d).unmet
    unreleased-le = omega (
      arith,
      wf.degrees d l,
      sum_mono g.n_svc (λ i. bit (not (c.released i)) * count d (dependents g i))
          (λ i. 1 * count d (dependents g i))
          (λ i m. mul-le-mul_right (count d (dependents g i)) (at_most_one (not (c.released i)))),
    )

    nothing_owed : owing g c.queue d ≡ 0
    unfolding owing
    nothing_owed = ap (λ q. owing g q d) h.resting.0

    settled-unmet : c.unmet d ≡ unreleased g c.released d
    settled-unmet =
        let fits = h.sound.flagged.linked.fits d l in
        let linked = h.sound.flagged.linked.linked d l in
        let small = wf.degree_small d l in
        let large = wf.small in let le = unreleased-le in let owed = nothing_owed in omega arith

  module _ (w : World) (es : List Event) (below : All (IsFor g) es) where
    -- After any run, the unmet count of a service is the number of its prerequisites that are not
    -- released.
    pub run-unmet :
        (d : ℕ)
        → d < g.n_svc
        → (run g w es).core.unmet d ≡ unreleased g (run g w es).core.released d
    run-unmet d l = settled-unmet (run g w es).core (run-IsSettled g wf w es below) d l

    -- After any run, a service that svc_can_start lets start has only prerequisites that are
    -- released, and each of them is up, unless its dependents are only ordered behind it.
    pub run-prerequisites :
        (i d : ℕ)
        → i < g.n_svc
        → d < g.n_svc
        → count d (dependents g i) ≢ 0
        → svc_can_start d (run g w es) ≡ none
        → ((run g w es).core.released i ≡ true)
          × (((run g w es).core.up i ≡ true) ⊎ (order_only g i ≡ true))
    run-prerequisites i d li ld depends can =
        let s = run g w es in
        let settled = run-IsSettled g wf w es below in
        let waits =
          sum-zero g.n_svc (λ j. bit (not (s.core.released j)) * count d (dependents g j))
            (sym (run-unmet d ld) ∙ nothing_unmet d s can) i li in
        let released = none_left (s.core.released i) (count d (dependents g i)) waits depends in
        (released, settled.sound.flagged.ready.released_up i released)
