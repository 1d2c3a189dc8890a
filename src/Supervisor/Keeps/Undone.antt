-- ===== src/Supervisor/Keeps/Undone.antt =====
-- No start and no failure makes a service DONE, and complete() makes only its own service and
-- dependents of others DONE (src/state.c, src/spawn.c, src/reap.c).
use ninit.Prelude.{
  ℕ, zero, suc, ◌*◌, ◌<◌, ◌≡◌, ◌≢◌, refl, ap, sym, subst, ◌∙◌, Bool, true, false, not, ◌&&◌, ◌||◌,
  List, [], ◌∷◌, ◌==◌, inl, inr, List-cases, Bool-cases, if_keeps, arith, All, update, update_self,
  update_ne, count, sum-zero, ==_iff,
}
use ninit.Graph.{Graph, IsWellFormed, dependents, targets}
use ninit.Supervisor.Core.{
  Core, St, pending, running, done, failed, skipped, is_done, is_running, is_lost, mark_done,
  mark_running, set_up, Spread, poison_take, poison_edge, poison_edges, poison_spread, fresh_spread,
  note_counts, leave_counts, fail_poison, go_down, poison as poison_core,
}
use ninit.Supervisor.Invariant.Sound.{Marks, go_down-marks, set_up-marks}
use ninit.Supervisor.Sys.{Sys, World}
use ninit.Supervisor.Start.{spawn, svc_try_start}
use ninit.Supervisor.Release.{
  meet, svc_mark_done, release_target, release_service, release_edge, release_edges, release_loop,
  release_rounds, svc_release, complete,
}
use ninit.Supervisor.Keeps.Carried.{svc_try_start-Carries, spawn-Carries}
use ninit.Supervisor.Keeps.Starts.{Good}
use ninit.Supervisor.Keeps.Releases.{
  restart_now-core, release_round-Good, flag-IsSound, raised, raised-IsSound,
}

-- a test of states that RUNNING and the lost states fail
pub record Fails (f : St → Bool) : Type 0 where
  pub on_running : f running ≡ false
  pub on_failed : f failed ≡ false
  pub on_skipped : f skipped ≡ false

module _ (g : Graph) (f : St → Bool) (t : Fails f) (j : ℕ) where
  abbrev pub Undone : (ℕ → St) → Type 0
  Undone states = f (states j) ≡ false

  update-Undone :
      (states : ℕ → St) (i : ℕ) (v : St) → f v ≡ false → Undone states → Undone (update states i v)
  update-Undone states i v e h = if_keeps (λ x. f x ≡ false) (j == i) _ _ (λ _. e) (λ _. h)

  edge-Undone :
      (up idle : ℕ → Bool) (d : ℕ) (p : Spread)
      → Undone p.states
      → Undone (poison_edge g up idle d p).states
  unfolding poison_edge
  edge-Undone up idle d p h =
      if_keeps (λ (p : Spread). Undone p.states) (poison_take g up idle p.states d) _ _
        (λ _. update-Undone p.states d skipped t.on_skipped h) (λ _. h)

  edges-Undone :
      (up idle : ℕ → Bool) (ds : List ℕ) (p : Spread)
      → Undone p.states
      → Undone (poison_edges g up idle ds p).states
  unfolding poison_edges
  edges-Undone up idle [] p h = h
  edges-Undone up idle (d ∷ ds) p h = edges-Undone up idle ds _ (edge-Undone up idle d p h)

  spread-Undone :
      (up idle : ℕ → Bool) (js : List ℕ) (p : Spread)
      → Undone p.states
      → Undone (poison_spread g up idle js p).states
  unfolding poison_spread
  spread-Undone up idle [] p h = h
  spread-Undone up idle (k ∷ js) p h = spread-Undone up idle js _ (
      if_keeps (λ (p : Spread). Undone p.states) (is_lost (p.states k)) _ _
        (λ _. edges-Undone up idle (dependents g k) p h) (λ _. h))

  poison-Undone :
      (idle : ℕ → Bool) (i : ℕ) (c : Core) → Undone c.state → Undone (poison_core g idle i c).state
  unfolding poison_core note_counts fail_poison leave_counts
  poison-Undone idle i c h =
      let down = go_down g i (leave_counts i c) in
      let same : down.state ≡ c.state =
        ap (λ (m : Marks). m.states) (go_down-marks g i (leave_counts i c)) in
      spread-Undone down.up idle _ (fresh_spread (update down.state i failed))
        (update-Undone down.state i failed t.on_failed (ap (λ s. f (s j)) same ∙ h))

  marked-Undone : (i : ℕ) (c : Core) → Undone c.state → Undone (mark_running i c).state
  unfolding mark_running
  marked-Undone i c h =
      if_keeps (λ (c : Core). Undone c.state) (is_running (c.state i)) _ _ (λ _. h)
        (λ _. update-Undone c.state i running t.on_running h)

  -- A state that fails the test fails it after a start, whatever comes of the start.
  pub start-Undone :
      (w : World) (i : ℕ) (s : Sys)
      → Undone s.core.state
      → Undone (svc_try_start g w i s).0.core.state
  start-Undone w i s h =
      svc_try_start-Carries g w (λ c. Undone c.state) poison-Undone i s h (marked-Undone i s.core h)

  pub spawn-keeps-Undone :
      (w : World) (i : ℕ) (s : Sys) → Undone s.core.state → Undone (spawn g w i s).core.state
  spawn-keeps-Undone w i s h =
      spawn-Carries g w (λ c. Undone c.state) poison-Undone i s (marked-Undone i s.core h)

  -- A service that was started fails it.
  pub spawn-Undone : (w : World) (s : Sys) → Undone (spawn g w j s).core.state
  unfolding mark_running
  spawn-Undone w s = spawn-Carries g w (λ c. Undone c.state) poison-Undone j s (marked s.core)
    where
      was : (x : St) → is_running x ≡ true → f x ≡ false
      was running e = t.on_running
      was pending e = absurd (ground arith)
      was done e = absurd (ground arith)
      was failed e = absurd (ground arith)
      was skipped e = absurd (ground arith)

      marked : (c : Core) → Undone (mark_running j c).state
      marked c = elim (Bool-cases (is_running (c.state j))) [
        | inl e ↦ rw (e, mark_running) (was (c.state j) e)
        | inr e ↦ rw (e, mark_running) (ap f (update_self c.state j running) ∙ t.on_running)
      ]

module _ (g : Graph) (w : World) (j : ℕ) where
  -- on states of the supervisor
  abbrev pub Spare : Sys → Type 0
  Spare s = is_done (s.core.state j) ≡ false

  keep_core : {c c' : Core} → c' ≡ c → is_done (c.state j) ≡ false → is_done (c'.state j) ≡ false
  keep_core e h = ap (λ (c : Core). is_done (c.state j)) e ∙ h

  -- A start makes no service DONE.
  pub svc_try_start-Spare : (i : ℕ) (s : Sys) → Spare s → Spare (svc_try_start g w i s).0
  svc_try_start-Spare i s h =
      start-Undone g is_done (record { on_running = refl; on_failed = refl; on_skipped = refl }) j w
        i s h

-- A service without prerequisites is nobody's dependent.
none-All : (j : ℕ) (ds : List ℕ) → count j ds ≡ 0 → All (λ d. d ≢ j) ds
unfolding count
none-All j [] e = tt
none-All j (d ∷ ds) e = (
  λ same. let hit : (d == j) ≡ true = (==_iff d j).1 same in ground arith,
  none-All j ds (omega arith),
)

dependents-apart :
    (g : Graph) (wf : IsWellFormed g) (j : ℕ)
    → j < g.n_svc
    → (g.svcs j).unmet ≡ 0
    → (k : ℕ) → k < g.n_svc
    → All (λ d. d ≢ j) (dependents g k)
dependents-apart g wf j l e k m = none-All j (dependents g k) (
    omega
      (arith, sum-zero g.n_svc (λ i. 1 * count j (dependents g i)) (sym (wf.degrees j l) ∙ e) k m))

module _ (g : Graph) (wf : IsWellFormed g) (w : World) (j : ℕ) where
  abbrev Keeps : (Sys → Sys) → Type 0
  Keeps f = (s : Sys) → Spare g w j s → Spare g w j (f s)

  release_target-Spare : (d : ℕ) → d ≢ j → Keeps (release_target g w d)
  unfolding release_target svc_mark_done mark_done
  release_target-Spare d other s h =
      if_keeps (Spare g w j) (s.core.released d) _ _ (λ _. h)
        (λ _.
          let same = ap (λ (m : Marks). m.states) (set_up-marks g d true s.core) in
          ap is_done (update_ne (set_up d true s.core).state d done (λ q. other (sym q)))
          ∙ ap (λ f. is_done (f j)) same
          ∙ h)

  release_service-Spare : (d : ℕ) → Keeps (release_service g w d)
  unfolding release_service
  release_service-Spare d s h = go (s.core.state d) refl
    where
      go : (x : St) → s.core.state d ≡ x → Spare g w j (release_service g w d s)
      go pending e = rw (e, release_service) (svc_try_start-Spare g w j d s h)
      go done e =
          rw (e, release_service)
            (if_keeps (Spare g w j) (not (s.core.up d) && (g.svcs d).restart) _ _
              (λ _. keep_core g w j (restart_now-core g w d s) h) (λ _. h))
      go running e = rw (e, release_service) h
      go failed e = rw (e, release_service) h
      go skipped e = rw (e, release_service) h

  release_edges-Spare : (ds : List ℕ) → All (λ d. d ≢ j) ds → Keeps (release_edges g w ds)
  unfolding release_edges release_edge
  release_edges-Spare [] apart s h = h
  release_edges-Spare (d ∷ ds) apart s h =
      let s' : Sys = record s { core = meet d s.core } in
      release_edges-Spare ds apart.1 _ (
        if_keeps (Spare g w j) (not (s'.core.unmet d == 0) || s'.core.want d) _ _ (λ _. h)
          (λ _.
            if_keeps (Spare g w j) (targets g d) _ _ (λ _. release_target-Spare d apart.0 s' h)
              (λ _. release_service-Spare d s' h)))

  module _ (l : j < g.n_svc) (free : (g.svcs j).unmet ≡ 0) where
    abbrev Fine : Sys → Type 0
    Fine s = Good g wf w (λ _. 0) s

    release_loop-Spare :
        (fuel : ℕ) (s : Sys) → Fine s → Spare g w j s → Spare g w j (release_loop g w fuel s)
    unfolding release_loop
    release_loop-Spare zero s good h = h
    release_loop-Spare (suc fuel) s good h = elim (List-cases s.core.queue) [
      | inl e ↦ rw (e, release_loop) h
      | inr (k, rest, e) ↦
          let below = (subst (All (λ i. i < g.n_svc)) e good.flagged.linked.queued).0 in
          let s' : Sys = record s { core = record s.core { queue = rest } } in
          rw (e, release_loop)
            (release_loop-Spare fuel _ (release_round-Good g wf w (λ _. 0) k rest s e good)
              (release_edges-Spare (dependents g k) (dependents-apart g wf j l free k below) s' h))
    ]

    -- complete() of another service does not make a service without prerequisites DONE.
    pub complete-Spare :
        (i : ℕ)
        → i < g.n_svc
        → i ≢ j
        → (s : Sys) → Fine s
        → Spare g w j s
        → Spare g w j (complete g w i s)
    unfolding complete svc_release svc_mark_done mark_done
    complete-Spare i m other s good h =
        let up = raised g wf w (λ _. 0) i s.core in
        let marked : is_done (up.state j) ≡ false =
          ap (λ (m : Marks). is_done (m.states j)) (set_up-marks g i true (mark_done i s.core))
          ∙ ap is_done (update_ne s.core.state i done (λ q. other (sym q)))
          ∙ h in
        if_keeps (Spare g w j) (up.released i) _ _ (λ _. marked)
          (λ e.
            let queued = raised-IsSound g wf w (λ _. 0) i m s.core e good in
            if_keeps (Spare g w j) up.draining _ _ (λ _. marked)
              (λ _.
                release_loop-Spare (release_rounds g w) _
                  (flag-IsSound g wf w (λ _. 0) _ true queued) marked))
