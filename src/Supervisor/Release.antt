-- ===== src/Supervisor/Release.antt =====
-- complete() with the release loop of src/state.c: a service that has come up lets its dependents
-- start, and a target whose prerequisites are all up comes up at once.
use ninit.Prelude.{
  ℕ, zero, suc, ◌+◌, ◌*◌, true, false, not, ◌&&◌, ◌||◌, List, [], ◌∷◌, ◌++◌, ◌==◌, if◌then◌else◌,
  update, dec16,
}
use ninit.Graph.{Graph, dependents, targets}
use ninit.Supervisor.Core.{pending, done, Core, mark_done, set_up}
use ninit.Supervisor.Sys.{Sys, World, set_run}
use ninit.Supervisor.Live.{live_add, live_has}
use ninit.Supervisor.Start.{svc_try_start}

-- released[i] = 1; queue[q_tail++] = i
abbrev pub enqueue : ℕ → Core → Core
enqueue i c = record c { released = update c.released i true; queue = c.queue ++ i ∷ [] }

-- --unmet[d]
abbrev pub meet : ℕ → Core → Core
meet d c = record c { unmet = update c.unmet d (dec16 (c.unmet d)) }

-- svc_mark_done
unfoldable pub svc_mark_done : ℕ → Sys → Sys
svc_mark_done i s =
    set_run i (record (s.runs i) { starting = false }) (record s { core = mark_done i s.core })

module _ (g : Graph) (w : World) where
  -- a target that was waited for comes up, and its own dependents are released in their turn
  unfoldable pub release_target : ℕ → Sys → Sys
  release_target d s =
      if s.core.released d
      then s
      else let s' = svc_mark_done d (record s { core = set_up d true s.core }) in
        record s' { core = enqueue d s'.core }

  -- a service that had been up is restarted now
  unfoldable pub restart_now : ℕ → Sys → Sys
  restart_now d s =
      let s' = if live_has d s then s else live_add d s in
      let r = s'.runs d in
      if r.restart_at == 0 then set_run d (record r { restart_at = w.now s'.tick }) s' else s'

  -- a service with no prerequisite left to wait for
  unfoldable pub release_service : ℕ → Sys → Sys
  release_service d s = elim (s.core.state d) [
    | pending ↦ (svc_try_start g w d s).0
    | done ↦ if not (s.core.up d) && (g.svcs d).restart then restart_now d s else s
    | _ ↦ s
  ]

  -- the body of the loop over the dependents of one service
  unfoldable pub release_edge : ℕ → Sys → Sys
  release_edge d s =
      let s' = record s { core = meet d s.core } in
      if not (s'.core.unmet d == 0) || s'.core.want d
      then s'
      else if targets g d
      then release_target d s'
      else release_service d s'

  unfoldable pub release_edges : List ℕ → Sys → Sys
  release_edges [] s = s
  release_edges (d ∷ ds) s = release_edges ds (release_edge d s)

  -- the `while` loop, which takes one service off the queue in each round
  unfoldable pub release_loop : ℕ → Sys → Sys
  release_loop zero s = s
  release_loop (suc fuel) s = elim s.core.queue [
    | [] ↦ s
    | j ∷ rest ↦
        release_loop fuel
          (release_edges (dependents g j) (record s { core = record s.core { queue = rest } }))
  ]

  -- enough rounds: every service is queued at most once between two of at most n_svc starts
  abbrev pub release_rounds : ℕ
  release_rounds = (g.n_svc + 2) * (g.n_svc + 2)

  -- svc_release
  unfoldable pub svc_release : ℕ → Sys → Sys
  svc_release i s =
      if s.core.released i
      then s
      else let c = enqueue i s.core in
        if c.draining
        then record s { core = c }
        else let s' =
            release_loop release_rounds (record s { core = record c { draining = true } }) in
          record s' { core = record s'.core { draining = false } }

  unfoldable pub complete : ℕ → Sys → Sys
  complete i s =
      let s' = svc_mark_done i s in svc_release i (record s' { core = set_up i true s'.core })
