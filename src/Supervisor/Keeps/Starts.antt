-- ===== src/Supervisor/Keeps/Starts.antt =====
-- Starts and failed starts keep the invariant (src/spawn.c, src/reap.c, src/state.c).
use ninit.Prelude.{
  ℕ, ◌<◌, ◌≡◌, refl, sym, subst, ap, ◌∙◌, false, Option, none, some, arith, if_keeps,
}
use ninit.Graph.{Graph, IsWellFormed, start_tries}
use ninit.Supervisor.Core.{
  Core, is_done, mark_running, poison as poison_core, poison_deps as poison_deps_core,
}
use ninit.Supervisor.Invariant.Defs.{IsSound}
use ninit.Supervisor.Invariant.Sound.{mark_running-IsSound}
use ninit.Supervisor.Invariant.Fail.{poison-IsSound, poison_deps-IsSound}
use ninit.Supervisor.Sys.{Status, Sys, World}
use ninit.Supervisor.Start.{
  FailAct, fail_retry, fail_warn, fail_stop, fail_shell, between_attempts, poison, poison_deps,
  fail_service, fail_apply, failed_attempt, bury, service_failed, exit_noexec, launch, spawn, Why,
  svc_can_start, svc_try_start,
}
use ninit.Supervisor.Keeps.Cores.{clear_retries-core, bury-core, retry_later-core, launch-core}

marked_running : (i : ℕ) (c : Core) → is_done ((mark_running i c).state i) ≡ false
unfolding mark_running
marked_running i c = ground arith

module _ (g : Graph) (wf : IsWellFormed g) (w : World) (extra : ℕ → ℕ) where
  -- what the supervisor's steps keep
  abbrev pub Good : Sys → Type 0
  Good s = IsSound g extra s.core

  pub Good_of_core : {c c' : Core} → c' ≡ c → IsSound g extra c → IsSound g extra c'
  Good_of_core e h = subst (IsSound g extra) (sym e) h

  module _ (i : ℕ) (l : i < g.n_svc) where
    pub poison-Good : (s : Sys) → is_done (s.core.state i) ≡ false → Good s → Good (poison g i s)
    unfolding poison
    poison-Good s e h =
        let s' : Sys = record s { core = poison_core g (between_attempts s) i s.core } in
        Good_of_core (clear_retries-core s.n_live 0 s')
          (poison-IsSound g wf extra (between_attempts s) i s.core l e h)

    pub poison_deps-Good : (s : Sys) → Good s → Good (poison_deps g i s)
    unfolding poison_deps
    poison_deps-Good s h =
        let s' : Sys = record s { core = poison_deps_core g (between_attempts s) i s.core } in
        Good_of_core (clear_retries-core s.n_live 0 s')
          (poison_deps-IsSound g wf extra (between_attempts s) i s.core l h)

    pub fail_apply-Good :
        (act : FailAct) (s : Sys)
        → is_done (s.core.state i) ≡ false
        → Good s
        → Good (fail_apply g i act s)
    unfolding fail_apply
    fail_apply-Good fail_shell s e h = poison-Good s e h
    fail_apply-Good _ s e h = poison-Good s e h

    failed_attempt-Good :
        (s : Sys) → is_done (s.core.state i) ≡ false → Good s → Good (failed_attempt g w i s)
    unfolding failed_attempt
    failed_attempt-Good s e h = go (fail_service g i (s.runs i).attempt (start_tries g i)) refl
      where
        go :
            (act : FailAct)
            → fail_service g i (s.runs i).attempt (start_tries g i) ≡ act
            → Good (failed_attempt g w i s)
        go fail_retry a = rw (a, failed_attempt) (Good_of_core (retry_later-core g w i s) h)
        go fail_warn a = rw (a, failed_attempt) (fail_apply-Good fail_warn s e h)
        go fail_stop a = rw (a, failed_attempt) (fail_apply-Good fail_stop s e h)
        go fail_shell a = rw (a, failed_attempt) (fail_apply-Good fail_shell s e h)

    -- A failed start keeps the invariant, whatever the service was before, but DONE.
    pub service_failed-Good :
        (status : Status) (s : Sys)
        → is_done (s.core.state i) ≡ false
        → Good s
        → Good (service_failed g w i status s)
    unfolding service_failed
    service_failed-Good status s e h =
        let s1 = bury g w i s in
        let same = bury-core g w i s in
        let good = Good_of_core same h in
        if_keeps Good s1.core.shutting_down _ _ (λ _. good)
          (λ _. failed_attempt-Good _ (ap (λ (c : Core). is_done (c.state i)) same ∙ e) good)

    pub spawn-Good : (s : Sys) → is_done (s.core.state i) ≡ false → Good s → Good (spawn g w i s)
    unfolding spawn
    spawn-Good s e h =
        let s0 : Sys = record s { core = mark_running i s.core } in
        let marked = mark_running-IsSound g wf extra i s.core l e h in
        let same = launch-core g w i s0 in
        let good = Good_of_core same marked in
        if_keeps Good (launch g w i s0).1 _ _ (λ _. good)
          (λ _.
            service_failed-Good exit_noexec (launch g w i s0).0
              (ap (λ (c : Core). is_done (c.state i)) same ∙ marked_running i s.core) good)

    pub svc_try_start-Good :
        (s : Sys) → is_done (s.core.state i) ≡ false → Good s → Good (svc_try_start g w i s).0
    unfolding svc_try_start
    svc_try_start-Good s e h = go (svc_can_start i s) refl
      where
        go : (o : Option Why) → svc_can_start i s ≡ o → Good (svc_try_start g w i s).0
        go none a = rw (a, svc_try_start) (spawn-Good s e h)
        go (some y) a = rw (a, svc_try_start) h
