-- ===== src/Supervisor/Keeps/Drains.antt =====
-- The release loop ends: its rounds, which the model bounds, always suffice (src/state.c).
use ninit.Prelude.{
  ℕ, zero, suc, ◌+◌, ◌*◌, ◌≤◌, ◌<◌, ◌≡◌, inl, inr, refl, ap, sym, subst, ◌∙◌, Bool, true, false,
  not, ◌&&◌, ◌||◌, Option, none, some, List, [], ◌∷◌, arith, length, length-append, List-cases,
  Bool-cases, if_keeps, bit, sum_mono, tally, tally-le, tally-update, update, update_ne,
}
use native.Mathlib.Nat.{mul-le-mul_right}
use native.Mathlib.Decide.{ℕ_discrete}
use ninit.Graph.{Graph, dependents, targets, order_only}
use ninit.Supervisor.Core.{
  St, pending, running, done, failed, skipped, Core, is_pending, is_running, set_up, Reclaiming,
  reclaim_edge, reclaim_edges, reclaim_loop, reclaim, go_down, mark_running, mark_done, note_counts,
  leave_counts, poison,
}
use ninit.Supervisor.Sys.{Sys, World}
use ninit.Supervisor.Start.{spawn, Why, svc_can_start, svc_try_start}
use ninit.Supervisor.Release.{enqueue, svc_mark_done, release_target, release_service}
use ninit.Supervisor.Keeps.Releases.{restart_now-core}
use ninit.Supervisor.Keeps.Carried.{spawn-Carries}
use ninit.Supervisor.Keeps.Undone.{Fails, spawn-keeps-Undone, spawn-Undone}

-- the release queue, and whether its loop is running
abbrev pub line : Core → List ℕ × Bool
line c = (c.queue, c.draining)

module _ (g : Graph) where
  set_up-line : (i : ℕ) (v : Bool) (c : Core) → line (set_up i v c) ≡ line c
  unfolding set_up
  set_up-line i true c =
      if_keeps (λ (k : Core). line k ≡ line c) (c.up i) _ _ (λ _. refl) (λ _. refl)
  set_up-line i false c =
      if_keeps (λ (k : Core). line k ≡ line c) (c.up i) _ _ (λ _. refl) (λ _. refl)

  edge-line : (d : ℕ) (w : Reclaiming) → line (reclaim_edge g d w).core ≡ line w.core
  unfolding reclaim_edge
  edge-line d w =
      if_keeps (λ (k : Reclaiming). line k.core ≡ line w.core)
        (targets g d && w.core.released d && not (order_only g d)) _ _ (λ _. set_up-line d false _)
        (λ _. refl)

  edges-line : (ds : List ℕ) (w : Reclaiming) → line (reclaim_edges g ds w).core ≡ line w.core
  unfolding reclaim_edges
  edges-line [] w = refl
  edges-line (d ∷ ds) w = edges-line ds (reclaim_edge g d w) ∙ edge-line d w

  loop-line : (fuel : ℕ) (w : Reclaiming) → line (reclaim_loop g fuel w).core ≡ line w.core
  unfolding reclaim_loop
  loop-line zero w = refl
  loop-line (suc fuel) w = elim (List-cases w.rqueue) [
    | inl e ↦ rw (e, reclaim_loop) refl
    | inr (j, rest, e) ↦
        let w' = record w { rqueue = rest } in
        rw (e, reclaim_loop)
          (loop-line fuel (reclaim_edges g (dependents g j) w') ∙ edges-line (dependents g j) w')
  ]

  -- go_down leaves the release queue alone.
  pub go_down-line : (i : ℕ) (c : Core) → line (go_down g i c) ≡ line c
  unfolding go_down reclaim
  go_down-line i c =
      if_keeps (λ (k : Core). line k ≡ line c) (not (c.up i) && not (c.released i)) _ _ (λ _. refl)
        (λ _.
          if_keeps (λ (k : Core). line k ≡ line c)
            (not ((set_up i false c).released i) || order_only g i) _ _ (λ _. set_up-line i false c)
            (λ _. loop-line g.n_svc _ ∙ set_up-line i false c))

  -- A start queues no service.
  spawn-queue : (w : World) (i : ℕ) (s : Sys) → (spawn g w i s).core.queue ≡ s.core.queue
  unfolding poison note_counts leave_counts mark_running
  spawn-queue w i s =
      spawn-Carries g w (λ c. c.queue ≡ s.core.queue)
        (λ idle d c h. ap (λ (k : List ℕ × Bool). k.0) (go_down-line d (leave_counts d c)) ∙ h) i s
        (if_keeps (λ (k : Core). k.queue ≡ s.core.queue) (is_running (s.core.state i)) _ _
          (λ _. refl) (λ _. refl))

  waiting : Fails is_pending
  waiting = record { on_running = refl; on_failed = refl; on_skipped = refl }

  -- the services that are PENDING, and those that are not released
  abbrev pub n_waiting : Core → ℕ
  n_waiting c = tally is_pending g.n_svc c.state

  abbrev pub n_held : Core → ℕ
  n_held c = tally not g.n_svc c.released

  -- the rounds that the release loop can still take
  abbrev pub rounds_left : Core → ℕ
  rounds_left c = n_waiting c * (g.n_svc + 1) + n_held c + length c.queue

  bit-le_of : (a b : Bool) → (b ≡ false → a ≡ false) → bit a ≤ bit b
  bit-le_of false b h = ground arith
  bit-le_of true true h = omega arith
  bit-le_of true false h = absurd (ground (arith, h refl))

  -- A service that was PENDING and is started is not PENDING any more, and no other becomes so.
  spawn-waiting :
      (w : World) (d : ℕ) (s : Sys)
      → d < g.n_svc
      → s.core.state d ≡ pending
      → n_waiting (spawn g w d s).core + 1 ≤ n_waiting s.core
  spawn-waiting w d s l e =
      let after = (spawn g w d s).core.state in
      let marked = update s.core.state d running in
      let fewer =
        sum_mono g.n_svc (λ j. bit (is_pending (after j))) (λ j. bit (is_pending (marked j)))
          (λ j m. bit-le_of _ _ (λ h. none_new j h)) in
      omega (
        arith,
        fewer,
        tally-update is_pending g.n_svc s.core.state d running l,
        ap (λ x. bit (is_pending x)) e,
      )
    where
      none_new :
          (j : ℕ)
          → is_pending (update s.core.state d running j) ≡ false
          → is_pending ((spawn g w d s).core.state j) ≡ false
      none_new j h = elim (ℕ_discrete j d) [
        | yes q ↦
            subst (λ k. is_pending ((spawn g w d s).core.state k) ≡ false) (sym q)
              (spawn-Undone g is_pending waiting d w s)
        | no other ↦
            spawn-keeps-Undone g is_pending waiting j w d s
              (ap is_pending (sym (update_ne s.core.state d running other)) ∙ h)
      ]

  -- one PENDING service less pays for all that a failure takes back
  spend : (n p' p h' h q : ℕ) → p' + 1 ≤ p → h' ≤ n → p' * (n + 1) + h' + q ≤ p * (n + 1) + h + q
  spend n p' p h' h q less few =
      let scaled : (p' + 1) * (n + 1) ≤ p * (n + 1) = mul-le-mul_right (n + 1) less in omega arith

  -- no step takes more rounds than are left
  abbrev pub Cheap : (Sys → Sys) → Type 0
  Cheap f = (s : Sys) → rounds_left (f s).core ≤ rounds_left s.core

  try-Cheap :
      (w : World) (d : ℕ) (s : Sys)
      → d < g.n_svc
      → s.core.state d ≡ pending
      → rounds_left (svc_try_start g w d s).0.core ≤ rounds_left s.core
  unfolding svc_try_start
  try-Cheap w d s l e = go (svc_can_start d s) refl
    where
      go :
          (o : Option Why)
          → svc_can_start d s ≡ o
          → rounds_left (svc_try_start g w d s).0.core ≤ rounds_left s.core
      go (some y) a = rw (a, svc_try_start) (omega arith)
      go none a =
          rw (a, svc_try_start)
            (omega (
              arith,
              spend g.n_svc _ _ _ (n_held s.core) (length s.core.queue) (spawn-waiting w d s l e)
                  (tally-le not g.n_svc (spawn g w d s).core.released),
              ap (λ q. length q) (spawn-queue w d s),
            ))

  pub service-Cheap : (w : World) (d : ℕ) → d < g.n_svc → Cheap (release_service g w d)
  unfolding release_service
  service-Cheap w d l s = go (s.core.state d) refl
    where
      go :
          (x : St)
          → s.core.state d ≡ x
          → rounds_left (release_service g w d s).core ≤ rounds_left s.core
      go pending e = rw (e, release_service) (try-Cheap w d s l e)
      go done e =
          rw (e, release_service)
            (if_keeps (λ (t : Sys). rounds_left t.core ≤ rounds_left s.core)
              (not (s.core.up d) && (g.svcs d).restart) _ _
              (λ _. omega (arith, ap rounds_left (restart_now-core g w d s))) (λ _. omega arith))
      go running e = rw (e, release_service) (omega arith)
      go failed e = rw (e, release_service) (omega arith)
      go skipped e = rw (e, release_service) (omega arith)

  raise-Cheap :
      (d : ℕ) (c : Core)
      → d < g.n_svc
      → c.released d ≡ false
      → rounds_left (enqueue d (mark_done d c)) ≤ rounds_left c
  unfolding mark_done
  raise-Cheap d c l e =
      let states = tally-update is_pending g.n_svc c.state d done l in
      let held = tally-update not g.n_svc c.released d true l in
      let was = ap (λ b. bit (not b)) e in
      let long = length-append c.queue (d ∷ []) in
      let fewer : n_waiting (mark_done d c) ≤ n_waiting c = omega arith in
      let scaled = mul-le-mul_right (g.n_svc + 1) fewer in omega arith

  pub target-Cheap : (w : World) (d : ℕ) → d < g.n_svc → Cheap (release_target g w d)
  unfolding release_target svc_mark_done set_up
  target-Cheap w d l s = elim (Bool-cases (s.core.released d)) [
    | inl e ↦ rw e (omega arith)
    | inr e ↦
        let up = set_up d true s.core in
        let same : rounds_left up ≡ rounds_left s.core =
          if_keeps (λ (k : Core). rounds_left k ≡ rounds_left s.core) (s.core.up d) _ _ (λ _. refl)
            (λ _. refl) in
        let held : up.released d ≡ false =
          if_keeps (λ (k : Core). k.released d ≡ false) (s.core.up d) _ _ (λ _. e) (λ _. e) in
        rw e (omega (arith, raise-Cheap d up l held, same))
  ]
