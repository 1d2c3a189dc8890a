-- ===== src/Supervisor/Keeps/Settled.antt =====
-- Starts, failures, exits and completions end with the invariant and an idle release queue.
use ninit.Prelude.{ℕ, ◌<◌, ◌≡◌, ap, ◌∙◌, Bool, false, List, [], if_keeps}
use ninit.Graph.{Graph, IsWellFormed, order_only}
use ninit.Supervisor.Core.{
  Core, is_done, is_running, is_pending, mark_pending, mark_running, go_down, note_counts,
  leave_counts, poison as poison_core, poison_deps as poison_deps_core,
}
use ninit.Supervisor.Invariant.Defs.{IsResting, IsSettled}
use ninit.Supervisor.Invariant.Sound.{go_down-IsSound, mark_pending-IsSound}
use ninit.Supervisor.Sys.{Status, Sys, World}
use ninit.Supervisor.Start.{FailAct, poison_deps, fail_apply, service_failed, spawn, svc_try_start}
use ninit.Supervisor.Release.{complete}
use ninit.Supervisor.Keeps.Cores.{clear_retries-core}
use ninit.Supervisor.Keeps.Starts.{
  poison_deps-Good, fail_apply-Good, service_failed-Good, spawn-Good, svc_try_start-Good,
}
use ninit.Supervisor.Keeps.Releases.{complete-Good}
use ninit.Supervisor.Keeps.Carried.{
  carry, fail_apply-Carries, service_failed-Carries, spawn-Carries, svc_try_start-Carries,
}
use ninit.Supervisor.Keeps.Drains.{go_down-line}
use ninit.Supervisor.Keeps.Ends.{complete-IsResting}

resting_of :
    {k k' : List ℕ × Bool} → k' ≡ k → (k.0 ≡ []) × (k.1 ≡ false) → (k'.0 ≡ []) × (k'.1 ≡ false)
resting_of e h = (ap (λ (k : List ℕ × Bool). k.0) e ∙ h.0, ap (λ (k : List ℕ × Bool). k.1) e ∙ h.1)

module _ (g : Graph) where
  poison-IsResting :
      (idle : ℕ → Bool) (i : ℕ) (c : Core) → IsResting c → IsResting (poison_core g idle i c)
  unfolding poison_core note_counts leave_counts
  poison-IsResting idle i c h = resting_of (go_down-line g i (leave_counts i c)) h

  marked_running-IsResting : (i : ℕ) (c : Core) → IsResting c → IsResting (mark_running i c)
  unfolding mark_running
  marked_running-IsResting i c h = if_keeps IsResting (is_running (c.state i)) _ _ (λ _. h) (λ _. h)

module _ (g : Graph) (wf : IsWellFormed g) (w : World) (i : ℕ) (l : i < g.n_svc) where
  abbrev Calm : Sys → Type 0
  Calm s = IsSettled g s.core

  pub go_down-IsSettled : (c : Core) → IsSettled g c → IsSettled g (go_down g i c)
  go_down-IsSettled c h = record {
    sound = go_down-IsSound g wf (λ _. 0) i c l h.sound;
    resting = resting_of (go_down-line g i c) h.resting;
  }

  pub mark_pending-IsSettled : (c : Core) → IsSettled g c → IsSettled g (mark_pending i c)
  unfolding mark_pending
  mark_pending-IsSettled c h = record {
    sound = mark_pending-IsSound g wf (λ _. 0) i c l h.sound;
    resting = if_keeps IsResting (is_pending (c.state i)) _ _ (λ _. h.resting) (λ _. h.resting);
  }

  pub poison_deps-IsSettled : (s : Sys) → Calm s → Calm (poison_deps g i s)
  unfolding poison_deps poison_deps_core note_counts
  poison_deps-IsSettled s h = record {
    sound = poison_deps-Good g wf w (λ _. 0) i l s h.sound;
    resting =
        carry g w IsResting (poison-IsResting g) (clear_retries-core s.n_live 0 _)
          (if_keeps IsResting (order_only g i) _ _ (λ _. h.resting) (λ _. h.resting));
  }

  pub fail_apply-IsSettled :
      (act : FailAct) (s : Sys)
      → is_done (s.core.state i) ≡ false
      → Calm s
      → Calm (fail_apply g i act s)
  fail_apply-IsSettled act s e h = record {
    sound = fail_apply-Good g wf w (λ _. 0) i l act s e h.sound;
    resting = fail_apply-Carries g w IsResting (poison-IsResting g) i act s h.resting;
  }

  pub service_failed-IsSettled :
      (status : Status) (s : Sys)
      → is_done (s.core.state i) ≡ false
      → Calm s
      → Calm (service_failed g w i status s)
  service_failed-IsSettled status s e h = record {
    sound = service_failed-Good g wf w (λ _. 0) i l status s e h.sound;
    resting = service_failed-Carries g w IsResting (poison-IsResting g) i status s h.resting;
  }

  pub spawn-IsSettled : (s : Sys) → is_done (s.core.state i) ≡ false → Calm s → Calm (spawn g w i s)
  spawn-IsSettled s e h = record {
    sound = spawn-Good g wf w (λ _. 0) i l s e h.sound;
    resting =
        spawn-Carries g w IsResting (poison-IsResting g) i s
          (marked_running-IsResting g i s.core h.resting);
  }

  pub svc_try_start-IsSettled :
      (s : Sys) → is_done (s.core.state i) ≡ false → Calm s → Calm (svc_try_start g w i s).0
  svc_try_start-IsSettled s e h = record {
    sound = svc_try_start-Good g wf w (λ _. 0) i l s e h.sound;
    resting =
        svc_try_start-Carries g w IsResting (poison-IsResting g) i s h.resting
          (marked_running-IsResting g i s.core h.resting);
  }

  pub complete-IsSettled : (s : Sys) → Calm s → Calm (complete g w i s)
  complete-IsSettled s h = record {
    sound = complete-Good g wf w (λ _. 0) i s l h.sound;
    resting = complete-IsResting g wf w i s l h.sound h.resting;
  }
