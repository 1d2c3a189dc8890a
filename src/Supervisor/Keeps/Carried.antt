-- ===== src/Supervisor/Keeps/Carried.antt =====
-- What the mark of a start and a failure both keep, a start keeps, with all that its failure
-- brings about (src/spawn.c, src/reap.c, src/state.c).
use ninit.Prelude.{ℕ, ◌≡◌, refl, sym, subst, Bool, Option, none, some, if_keeps}
use ninit.Graph.{Graph, start_tries}
use ninit.Supervisor.Core.{Core, mark_running, poison as poison_core}
use ninit.Supervisor.Sys.{Sys, Status, World}
use ninit.Supervisor.Start.{
  FailAct, fail_retry, fail_warn, fail_stop, fail_shell, between_attempts, poison, fail_service,
  fail_apply, failed_attempt, bury, service_failed, exit_noexec, launch, spawn, Why, svc_can_start,
  svc_try_start,
}
use ninit.Supervisor.Keeps.Cores.{clear_retries-core, bury-core, retry_later-core, launch-core}

module _ (g : Graph) (w : World) (P : Core → Type 0)
    (poisons : (idle : ℕ → Bool) (i : ℕ) (c : Core) → P c → P (poison_core g idle i c)) where
  abbrev pub Carries : Sys → Type 0
  Carries s = P s.core

  pub carry : {c c' : Core} → c' ≡ c → P c → P c'
  carry e h = subst P (sym e) h

  poison-Carries : (i : ℕ) (s : Sys) → Carries s → Carries (poison g i s)
  unfolding poison
  poison-Carries i s h =
      carry (clear_retries-core s.n_live 0 _) (poisons (between_attempts s) i s.core h)

  pub fail_apply-Carries :
      (i : ℕ) (act : FailAct) (s : Sys) → Carries s → Carries (fail_apply g i act s)
  unfolding fail_apply
  fail_apply-Carries i fail_shell s h = poison-Carries i s h
  fail_apply-Carries i _ s h = poison-Carries i s h

  failed_attempt-Carries : (i : ℕ) (s : Sys) → Carries s → Carries (failed_attempt g w i s)
  unfolding failed_attempt
  failed_attempt-Carries i s h = go (fail_service g i (s.runs i).attempt (start_tries g i)) refl
    where
      go :
          (act : FailAct)
          → fail_service g i (s.runs i).attempt (start_tries g i) ≡ act
          → Carries (failed_attempt g w i s)
      go fail_retry a = rw (a, failed_attempt) (carry (retry_later-core g w i s) h)
      go fail_warn a = rw (a, failed_attempt) (fail_apply-Carries i fail_warn s h)
      go fail_stop a = rw (a, failed_attempt) (fail_apply-Carries i fail_stop s h)
      go fail_shell a = rw (a, failed_attempt) (fail_apply-Carries i fail_shell s h)

  pub service_failed-Carries :
      (i : ℕ) (status : Status) (s : Sys) → Carries s → Carries (service_failed g w i status s)
  unfolding service_failed
  service_failed-Carries i status s h =
      let s1 = bury g w i s in
      let good : Carries s1 = carry (bury-core g w i s) h in
      if_keeps Carries s1.core.shutting_down _ _ (λ _. good) (λ _. failed_attempt-Carries i _ good)

  -- A start keeps it, where the mark RUNNING has it.
  pub spawn-Carries : (i : ℕ) (s : Sys) → P (mark_running i s.core) → Carries (spawn g w i s)
  unfolding spawn
  spawn-Carries i s h =
      let s0 : Sys = record s { core = mark_running i s.core } in
      let good : Carries (launch g w i s0).0 = carry (launch-core g w i s0) h in
      if_keeps Carries (launch g w i s0).1 _ _ (λ _. good)
        (λ _. service_failed-Carries i exit_noexec (launch g w i s0).0 good)

  pub svc_try_start-Carries :
      (i : ℕ) (s : Sys) → P s.core → P (mark_running i s.core) → Carries (svc_try_start g w i s).0
  unfolding svc_try_start
  svc_try_start-Carries i s h k = go (svc_can_start i s) refl
    where
      go : (o : Option Why) → svc_can_start i s ≡ o → Carries (svc_try_start g w i s).0
      go none a = rw (a, svc_try_start) (spawn-Carries i s k)
      go (some y) a = rw (a, svc_try_start) h
