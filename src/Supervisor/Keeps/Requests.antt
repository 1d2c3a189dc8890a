-- ===== src/Supervisor/Keeps/Requests.antt =====
-- The operations of clients keep the invariant (src/command.c).
use ninit.Prelude.{
  range-below, ℕ, ◌+◌, ◌<◌, ◌≡◌, refl, ap, ◌∙◌, Bool, true, false, not, ◌&&◌, List, [], ◌∷◌, Option,
  none, some, ◌==◌, leb, ltb, if_keeps, arith, All, tally,
}
use ninit.Graph.{Graph, IsWellFormed, start_ms, targets}
use ninit.Supervisor.Core.{Core, St, is_pending, is_done, is_lost, mark_pending}
use ninit.Supervisor.Invariant.Defs.{IsSettled}
use ninit.Supervisor.Invariant.Sound.{IsFlagged-of_flags}
use ninit.Supervisor.Sys.{Op, no_op, term, kill, start, Sys, World, asked, set_run}
use ninit.Supervisor.Live.{live_has}
use ninit.Supervisor.Drain.{sigkill, sigterm, signal_group}
use ninit.Supervisor.Start.{kill_grace_ms, Why, svc_can_start}
use ninit.Supervisor.Ops.{
  svc_op_set, svc_op_done, svc_gone, set_want, with_live, fresh_run, op_start_refused,
  op_start_spawn, svc_op_start, svc_op_stop, op_gone, op_step, is_stop, ctl_tick_one, resume_reset,
  resume_start, over, ctl_resume,
}
use ninit.Supervisor.Keeps.Cores.{SameCore, signal_group-core, maybe_free-core, live_add-core}
use ninit.Supervisor.Keeps.Settled.{
  spawn-IsSettled, svc_try_start-IsSettled, complete-IsSettled, mark_pending-IsSettled,
}
use ninit.Supervisor.Keeps.Exits.{Quiet, keep, take_down-Quiet}

svc_op_set-core : (i : ℕ) (op : Op) (at : ℕ) (s : Sys) → SameCore s (svc_op_set i op at s)
unfolding svc_op_set
svc_op_set-core i op at s = refl

svc_op_done-core : (i : ℕ) (ok : Bool) (s : Sys) → SameCore s (svc_op_done i ok s)
unfolding svc_op_done
svc_op_done-core i ok s = maybe_free-core i _ ∙ svc_op_set-core i no_op 0 s

with_live-core : (i : ℕ) (s : Sys) → SameCore s (with_live i s)
with_live-core i s = if_keeps (SameCore s) (live_has i s) _ _ (λ _. refl) (λ _. live_add-core i s)

marked_pending : (i : ℕ) (c : Core) → is_done ((mark_pending i c).state i) ≡ false
unfolding mark_pending
marked_pending i c = ground arith

not_done_pending : (x : St) → not (is_pending x) ≡ false → is_done x ≡ false
not_done_pending x e = ground arith

module _ (g : Graph) (wf : IsWellFormed g) (w : World) (i : ℕ) (l : i < g.n_svc) where
  abbrev Calm : Sys → Type 0
  Calm = Quiet g wf w i l

  -- `want` is not looked at by the invariant
  set_want-Quiet : (v : Bool) (s : Sys) → Calm s → Calm (set_want i v s)
  set_want-Quiet v s h = record {
    sound = record {
      counted = record {
        active = h.sound.counted.active;
        pending = h.sound.counted.pending;
        done = h.sound.counted.done;
      };
      flagged = IsFlagged-of_flags g (λ _. 0) s.core _ refl h.sound.flagged;
    };
    resting = h.resting;
  }

  op_done-Quiet : (ok : Bool) (s : Sys) → Calm s → Calm (svc_op_done i ok s)
  op_done-Quiet ok s h = keep g wf w i l (svc_op_done-core i ok s) h

  op_set-Quiet : (op : Op) (at : ℕ) (s : Sys) → Calm s → Calm (svc_op_set i op at s)
  op_set-Quiet op at s h = keep g wf w i l (svc_op_set-core i op at s) h

  op_start_refused-Quiet : (s : Sys) → Calm s → Calm (op_start_refused g w i s)
  unfolding op_start_refused
  op_start_refused-Quiet s h =
      let r = s.runs i in
      op_done-Quiet false _ (
        if_keeps Calm (not s.core.shutting_down && r.pid == 0 && r.stale_pid == 0) _ _
          (λ _.
            mark_pending-IsSettled g wf w i l _
              (take_down-Quiet g wf w i l (set_run i (fresh_run r) s) h))
          (λ _. h))

  op_start_spawn-Quiet : (s : Sys) → Calm s → Calm (op_start_spawn g w i s)
  unfolding op_start_spawn svc_op_set
  op_start_spawn-Quiet s h =
      let s1 : Sys = record s { core = mark_pending i s.core } in
      let marked : Calm s1 = mark_pending-IsSettled g wf w i l s.core h in
      let s1' : Sys = record (set_run i (record (fresh_run (s.runs i)) { op_restart = false }) s) {
        core = mark_pending i s.core;
      } in
      let s2 = with_live i s1' in
      let same = with_live-core i s1' in
      spawn-IsSettled g wf w i l
        (svc_op_set i start (w.now s2.tick + start_ms g i + kill_grace_ms) s2)
        (ap (λ (c : Core). is_done (c.state i)) same ∙ marked_pending i s.core)
        (keep g wf w i l same marked)

  pub svc_op_start-Quiet : (s : Sys) → Calm s → Calm (svc_op_start g w i s)
  unfolding svc_op_start
  svc_op_start-Quiet s h =
      let s1 = set_want i false s in at s1 (set_want-Quiet false s h) (svc_can_start i s1)
    where
      at :
          (t : Sys)
          → Calm t
          → (o : Option Why)
          → Calm (elim o [ some _ ↦ op_start_refused g w i t | none ↦ op_start_spawn g w i t ])
      at t k none = op_start_spawn-Quiet t k
      at t k (some _) = op_start_refused-Quiet t k

  -- A request to stop or to restart keeps the invariant.
  pub svc_op_stop-Quiet : (restart : Bool) (s : Sys) → Calm s → Calm (svc_op_stop g w i restart s)
  unfolding svc_op_stop
  svc_op_stop-Quiet restart s h =
      let s0 = set_want i true s in
      let s0' : Sys = set_run i (record (s0.runs i) { restart_at = 0; op_restart = restart }) s0 in
      let s1 = with_live i s0' in
      let wanted : Calm s1 = keep g wf w i l (with_live-core i s0') (set_want-Quiet true s h) in
      let s2 = asked s1 in
      let s3 = signal_group w i sigterm s2 in
      if_keeps Calm (svc_gone w i s1) _ _
        (λ _.
          if_keeps Calm restart _ _ (λ _. svc_op_start-Quiet s2 wanted)
            (λ _. op_done-Quiet true _ (take_down-Quiet g wf w i l s2 wanted)))
        (λ _. op_set-Quiet term _ s3 (keep g wf w i l (signal_group-core w i sigterm s2) wanted))

  op_gone-Quiet : (s : Sys) → Calm s → Calm (op_gone g w i s)
  unfolding op_gone
  op_gone-Quiet s h =
      if_keeps Calm (s.runs i).op_restart _ _ (λ _. svc_op_start-Quiet s h)
        (λ _. op_done-Quiet true s h)

  op_step-Quiet :
      (op : Op) (now : ℕ) (gone : Bool) (s : Sys) → Calm s → Calm (op_step g w op i now gone s)
  unfolding op_step
  op_step-Quiet no_op now gone s h = h
  op_step-Quiet term now gone s h =
      if_keeps Calm gone _ _ (λ _. op_gone-Quiet s h)
        (λ _.
          if_keeps Calm (ltb now (s.runs i).op_at) _ _ (λ _. h)
            (λ _.
              op_set-Quiet kill _ (signal_group w i sigkill s)
                (keep g wf w i l (signal_group-core w i sigkill s) h)))
  op_step-Quiet kill now gone s h =
      if_keeps Calm gone _ _ (λ _. op_gone-Quiet s h)
        (λ _. if_keeps Calm (leb (s.runs i).op_at now) _ _ (λ _. op_done-Quiet false s h) (λ _. h))
  op_step-Quiet start now gone s h =
      if_keeps Calm (is_done (s.core.state i) && s.core.up i) _ _ (λ _. op_done-Quiet true s h)
        (λ _.
          if_keeps Calm (is_lost (s.core.state i)) _ _ (λ _. op_done-Quiet false s h)
            (λ _.
              if_keeps Calm (leb (s.runs i).op_at now) _ _ (λ _. op_done-Quiet false s h) (λ _. h)))

  -- A tick of the control operations keeps the invariant.
  pub ctl_tick_one-Quiet : (now : ℕ) (s : Sys) → Calm s → Calm (ctl_tick_one g w i now s)
  unfolding ctl_tick_one
  ctl_tick_one-Quiet now s h =
      let s1 : Sys = asked s in
      op_step-Quiet _ now _ _ (
        if_keeps Calm (svc_gone w i s && is_stop (s1.runs i).op) _ _
          (λ _. take_down-Quiet g wf w i l s1 h) (λ _. h))

  resume_reset-Quiet : (s : Sys) → Calm s → Calm (resume_reset g w i s)
  unfolding resume_reset
  resume_reset-Quiet s h =
      if_keeps Calm (is_lost (s.core.state i)) _ _ (λ _. mark_pending-IsSettled g wf w i l s.core h)
        (λ _. h)

  -- A service that is tried keeps the invariant, at boot as for a client that resumes.
  pub resume_start-Quiet : (s : Sys) → Calm s → Calm (resume_start g w i s)
  unfolding resume_start
  resume_start-Quiet s h =
      if_keeps Calm (not (is_pending (s.core.state i))) _ _ (λ _. h)
        (λ e.
          if_keeps Calm (targets g i) _ _
            (λ _.
              if_keeps Calm (s.core.unmet i == 0 && not (s.core.want i)) _ _
                (λ _. complete-IsSettled g wf w i l s h) (λ _. h))
            (λ _. svc_try_start-IsSettled g wf w i l s (not_done_pending _ e) h))

module _ (g : Graph) (wf : IsWellFormed g) (w : World) where
  abbrev Still : Sys → Type 0
  Still s = IsSettled g s.core

  -- What each service's turn keeps, a pass over them all keeps.
  pub over-Quiet :
      (f : ℕ → Sys → Sys)
      → ((i : ℕ) → i < g.n_svc → (s : Sys) → Still s → Still (f i s))
      → (is : List ℕ) → All (λ i. i < g.n_svc) is
      → (s : Sys) → Still s
      → Still (over g w f is s)
  unfolding over
  over-Quiet f keeps [] l s h = h
  over-Quiet f keeps (i ∷ is) l s h = over-Quiet f keeps is l.1 (f i s) (keeps i l.0 s h)

  -- Resuming keeps the invariant.
  pub ctl_resume-Quiet : (s : Sys) → Still s → Still (ctl_resume g w s)
  unfolding ctl_resume
  ctl_resume-Quiet s h =
      let all = range-below g.n_svc 0 g.n_svc (omega arith) in
      let reset = over-Quiet (resume_reset g w) (λ i l. resume_reset-Quiet g wf w i l) _ all s h in
      if_keeps Still (tally is_lost g.n_svc s.core.state == 0) _ _ (λ _. reset)
        (λ _. over-Quiet (resume_start g w) (λ i l. resume_start-Quiet g wf w i l) _ all _ reset)
