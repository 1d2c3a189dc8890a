-- ===== src/Supervisor/Drain.antt =====
-- Signals to a service's processes (src/state.c, src/cgroup.c), and what src/drain.c does with its
-- descriptors and its place in the live list.
use ninit.Prelude.{
  ℕ, zero, suc, ◌-◌, Bool, true, false, not, ◌&&◌, List, [], ◌∷◌, ◌==◌, length, if◌then◌else◌,
}
use ninit.Supervisor.Sys.{
  is_no_op, Run, Sys, signal, note, bytes, interrupted, again, closed, World, asked, set_run, put,
}
use ninit.Supervisor.Live.{live_has, live_del}
use ninit.Supervisor.Output.{Sink, absorb, flush_line}

abbrev pub sigkill : ℕ
sigkill = 9

abbrev pub sigterm : ℕ
sigterm = 15

module _ (w : World) where
  -- signal_group: cgroup.kill takes SIGKILL where it can be written, and the cgroup remembers it
  unfoldable pub signal_group : ℕ → ℕ → Sys → Sys
  signal_group i sig s =
      let s' = put (signal i sig) (asked s) in
      if w.cg_ok && sig == sigkill && w.cg_kill s.tick
      then set_run i (record (s.runs i) { cg_killed = true }) s'
      else s'

  unfoldable pub kill_group : ℕ → Sys → Sys
  kill_group i s =
      let s' = signal_group i sigkill s in set_run i (record (s'.runs i) { pgid = 0 }) s'

-- svc_abandon
unfoldable pub svc_abandon : ℕ → Sys → Sys
svc_abandon i s =
    let r = s.runs i in
    if r.pid == 0 then s else set_run i (record r { stale_pid = r.pid; pid = 0 }) s

unfoldable pub close_fds : ℕ → Sys → Sys
close_fds i s = set_run i (record (s.runs i) { out_fd = false; ntf_fd = false }) s

-- the condition of maybe_free
abbrev pub is_idle : Run → Bool
is_idle r =
    r.pid == 0
    && r.stale_pid == 0
    && not r.out_fd
    && not r.ntf_fd
    && r.restart_at == 0
    && is_no_op r.op

-- maybe_free: whether the cgroup could be removed is not looked at
unfoldable pub maybe_free : ℕ → Sys → Sys
maybe_free i s = if is_idle (s.runs i) && live_has i s then live_del i (asked s) else s

-- the lines that an absorb() or a flush_line() logged go out under the service's name
unfoldable pub put_notes : ℕ → List (List ℕ) → Sys → Sys
put_notes i [] s = s
put_notes i (l ∷ ls) s = put_notes i ls (put (note i l) s)

unfoldable pub run_sink : Run → Sink
run_sink r = record { tail = r.tail; line = r.line; notes = [] }

unfoldable pub take_sink : ℕ → Sink → Sys → Sys
take_sink i k s =
    put_notes i k.notes (set_run i (record (s.runs i) { tail = k.tail; line = k.line }) s)

module _ (w : World) where
  -- what one read() of drain_out does, and whether its loop goes on; `take` is the size it asks for
  unfoldable pub drain_read : ℕ → Bool → Sys → Sys × Bool
  drain_read i budgeted s = elim (w.read s.tick) [
    | bytes bs ↦
        let s' = take_sink i (absorb bs (run_sink (s.runs i))) (asked s) in
        (if budgeted then record s' { drain_left = s'.drain_left - length bs } else s', true)
    | interrupted ↦ (asked s, true)
    | again ↦ (asked s, false)
    | closed ↦
        let s' = set_run i (record (s.runs i) { out_fd = false }) (asked s) in
        (take_sink i (flush_line (run_sink (s'.runs i))) s', false)
  ]

  -- drain_out
  unfoldable pub drain_out : ℕ → ℕ → Bool → Sys → Sys
  drain_out i zero budgeted s = s
  drain_out i (suc chunks) budgeted s = elim (s.runs i).out_fd [
    | false ↦ s
    | true ↦ elim (budgeted && s.drain_left == 0) [
      | true ↦ record s { drain_rotor = i }
      | false ↦
          let (s', more) = drain_read i budgeted s in
          elim more [ true ↦ drain_out i chunks budgeted s' | false ↦ s' ]
    ]
  ]
