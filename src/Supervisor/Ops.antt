-- ===== src/Supervisor/Ops.antt =====
-- The operations that clients ask for: start, stop, restart and resume (src/command.c).
use ninit.Prelude.{
  ℕ, ◌+◌, Bool, true, false, not, ◌&&◌, ◌||◌, List, [], ◌∷◌, none, some, ◌==◌, leb, ltb,
  if◌then◌else◌, inc32, sub32, range, tally, update,
}
use ninit.Graph.{Graph, start_ms, stop_ms, targets}
use ninit.Supervisor.Core.{is_done, is_pending, is_lost, mark_pending}
use ninit.Supervisor.Sys.{
  Op, no_op, term, kill, start, is_no_op, Run, Sys, op_ended, World, asked, set_run, put,
}
use ninit.Supervisor.Live.{live_add, live_has}
use ninit.Supervisor.Drain.{sigkill, sigterm, signal_group, maybe_free}
use ninit.Supervisor.Start.{kill_grace_ms, spawn, svc_can_start, svc_try_start}
use ninit.Supervisor.Release.{complete}
use ninit.Supervisor.Exit.{take_down}

-- svc_op_set
unfoldable pub svc_op_set : ℕ → Op → ℕ → Sys → Sys
svc_op_set i op at s =
    let was = is_no_op (s.runs i).op in
    let is = is_no_op op in
    set_run i (record (s.runs i) { op = op; op_at = at })
      (record s {
        n_ops =
            if was && not is
            then inc32 s.n_ops
            else if not was && is
            then sub32 s.n_ops 1
            else s.n_ops;
      })

-- svc_op_done: the clients that watch i are told how it ended
unfoldable pub svc_op_done : ℕ → Bool → Sys → Sys
svc_op_done i ok s =
    let s1 = svc_op_set i no_op 0 s in
    maybe_free i (put (op_ended i ok) (set_run i (record (s1.runs i) { op_restart = false }) s1))

-- svc_gone
unfoldable pub svc_gone : World → ℕ → Sys → Bool
svc_gone w i s =
    let r = s.runs i in
    r.pid == 0
    && r.stale_pid == 0
    && (r.started == 0 || elim (w.populated s.tick) [ some true ↦ false | _ ↦ true ])

abbrev pub set_want : ℕ → Bool → Sys → Sys
set_want i v s = record s { core = record s.core { want = update s.core.want i v } }

abbrev pub with_live : ℕ → Sys → Sys
with_live i s = if live_has i s then s else live_add i s

-- the counts that a start begins anew
abbrev pub fresh_run : Run → Run
fresh_run r = record r { attempt = 0; burst = 0; restart_at = 0 }

abbrev pub is_stop : Op → Bool
is_stop term = true
is_stop kill = true
is_stop _ = false

module _ (g : Graph) (w : World) where
  -- svc_op_start where svc_can_start refuses
  unfoldable pub op_start_refused : ℕ → Sys → Sys
  op_start_refused i s =
      let r = s.runs i in
      let s1 =
        if not s.core.shutting_down && r.pid == 0 && r.stale_pid == 0
        then (let s' = take_down g i (set_run i (fresh_run r) s) in
            record s' { core = mark_pending i s'.core })
        else s in
      svc_op_done i false s1

  -- svc_op_start where it does not
  unfoldable pub op_start_spawn : ℕ → Sys → Sys
  op_start_spawn i s =
      let s1 = set_run i (record (fresh_run (s.runs i)) { op_restart = false }) s in
      let s2 = with_live i (record s1 { core = mark_pending i s1.core }) in
      spawn g w i (svc_op_set i start (w.now s2.tick + start_ms g i + kill_grace_ms) s2)

  unfoldable pub svc_op_start : ℕ → Sys → Sys
  svc_op_start i s =
      let s1 = set_want i false s in
      elim (svc_can_start i s1) [ some _ ↦ op_start_refused i s1 | none ↦ op_start_spawn i s1 ]

  unfoldable pub svc_op_stop : ℕ → Bool → Sys → Sys
  svc_op_stop i restart s =
      let s0 = set_want i true s in
      let s1 =
        with_live i (set_run i (record (s0.runs i) { restart_at = 0; op_restart = restart }) s0) in
      let s2 = asked s1 in
      if svc_gone w i s1
      then if restart then svc_op_start i s2 else svc_op_done i true (take_down g i s2)
      else let s3 = signal_group w i sigterm s2 in
        svc_op_set i term (w.now s3.tick + stop_ms g i) s3

  -- an operation that was waiting for the processes to be gone
  unfoldable pub op_gone : ℕ → Sys → Sys
  op_gone i s = if (s.runs i).op_restart then svc_op_start i s else svc_op_done i true s

  -- the `switch` of ctl_tick
  unfoldable pub op_step : Op → ℕ → ℕ → Bool → Sys → Sys
  op_step no_op i now gone s = s
  op_step term i now gone s =
      if gone
      then op_gone i s
      else if ltb now (s.runs i).op_at
      then s
      else svc_op_set i kill (now + kill_grace_ms) (signal_group w i sigkill s)
  op_step kill i now gone s =
      if gone then op_gone i s else if leb (s.runs i).op_at now then svc_op_done i false s else s
  op_step start i now gone s =
      if is_done (s.core.state i) && s.core.up i
      then svc_op_done i true s
      else if is_lost (s.core.state i)
      then svc_op_done i false s
      else if leb (s.runs i).op_at now
      then svc_op_done i false s
      else s

  -- the body of ctl_tick's loop
  unfoldable pub ctl_tick_one : ℕ → ℕ → Sys → Sys
  ctl_tick_one i now s =
      let gone = svc_gone w i s in
      let s1 = asked s in
      let s2 = if gone && is_stop (s1.runs i).op then take_down g i s1 else s1 in
      op_step (s2.runs i).op i now gone s2

  -- ctl_resume: what had failed or was skipped is PENDING again
  unfoldable pub resume_reset : ℕ → Sys → Sys
  resume_reset i s =
      if is_lost (s.core.state i)
      then set_run i (record (s.runs i) { attempt = 0; burst = 0 })
          (record s { core = mark_pending i s.core })
      else s

  -- and all that is PENDING is tried
  unfoldable pub resume_start : ℕ → Sys → Sys
  resume_start i s =
      if not (is_pending (s.core.state i))
      then s
      else if targets g i
      then if s.core.unmet i == 0 && not (s.core.want i) then complete g w i s else s
      else (svc_try_start g w i s).0

  unfoldable pub over : (ℕ → Sys → Sys) → List ℕ → Sys → Sys
  over f [] s = s
  over f (i ∷ is) s = over f is (f i s)

  unfoldable pub ctl_resume : Sys → Sys
  unfolding over
  ctl_resume s =
      let s1 = over resume_reset (range 0 g.n_svc) s in
      if tally is_lost g.n_svc s.core.state == 0 then s1 else over resume_start (range 0 g.n_svc) s1
