-- ===== src/Shell/Bounded.antt =====
-- The emergency shell's counters stay within their limits, and giving up is for good (src/fail.c).
use ninit.Prelude.{
  ℕ, ◌+◌, ◌≤◌, ◌≡◌, ◌≢◌, refl, sym, subst, Bool, true, false, not, ◌||◌, List, [], ◌∷◌, ◌==◌, ltb,
  leb, if◌then◌else◌, if_keeps, arith, bit,
}
use ninit.Shell.{
  inc8, ExecState, exec_failed, exec_unknown, exec_ok, Shell, not_yet, ended, truncated, failed,
  Report, Started, no_console, no_pipe, no_fork, forked, Console, fast_ms, fast_max, fail_max,
  queried, emerg_settle, emerg_bar_close, emergency_report, emerg_start, forked_shell, shell_retry,
  emerg_restart, exec_overdue, emergency_tick, emergency_shell, shell_exited, emergency_reaped,
  ShellEvent, wanted, ticked, reported, exited, shell_handle, shell_run, no_shell,
}

-- With p for the pid of the shell: a counter that is at its limit means that pid 1 has given up, and
-- then no shell runs that could exit fast once more. The barrier is open only while a shell runs
-- and before pid 1 gives up, and is waited for only while it is open.
pub record IsShell (p : ℕ) (s : Shell) : Type 0 where
  pub fast : s.fast + bit (not s.gone || not (p == 0)) ≤ 5
  pub fail : s.fail + bit (not s.gone) ≤ 5
  pub noexec : s.noexec + bit (not s.gone) ≤ 2
  pub listening : bit s.bar + bit s.gone ≤ 1
  pub attended : bit s.bar ≤ bit (not (p == 0))
  pub awaited : bit (not (s.conf_at == 0)) ≤ bit s.bar

abbrev pub Steady : Shell → Type 0
Steady s = IsShell s.pid s

-- the two fields that the invariant does not look at
asked : (p : ℕ) (s : Shell) → IsShell p s → IsShell p (queried s)
asked p s h = record {
  fast = h.fast;
  fail = h.fail;
  noexec = h.noexec;
  listening = h.listening;
  attended = h.attended;
  awaited = h.awaited;
}

no_pid : (p : ℕ) (s : Shell) → IsShell p s → IsShell p (record s { pid = 0 })
no_pid p s h = record {
  fast = h.fast;
  fail = h.fail;
  noexec = h.noexec;
  listening = h.listening;
  attended = h.attended;
  awaited = h.awaited;
}

closed_bar : (p : ℕ) (s : Shell) → IsShell p s → IsShell p (emerg_bar_close s)
closed_bar p s h = record {
  fast = h.fast;
  fail = h.fail;
  noexec = h.noexec;
  listening = ground arith;
  attended = ground arith;
  awaited = ground arith;
}

-- Where pid 1 has not given up and the barrier is closed, any report keeps the limits.
emerg_settle-IsShell :
    (x : ExecState) (p : ℕ) (s : Shell)
    → s.gone ≡ false
    → s.bar ≡ false
    → IsShell p s
    → IsShell p (emerg_settle x s)
unfolding emerg_settle
emerg_settle-IsShell exec_failed p s g b h = record {
  fast = ground (arith, g, h.fast);
  fail = ground (arith, g, h.fail);
  noexec = ground (arith, g, h.noexec);
  listening = ground (arith, b);
  attended = ground (arith, b);
  awaited = h.awaited;
}
emerg_settle-IsShell exec_unknown p s g b h = record {
  fast = h.fast;
  fail = ground (arith, h.fail);
  noexec = h.noexec;
  listening = h.listening;
  attended = h.attended;
  awaited = h.awaited;
}
emerg_settle-IsShell exec_ok p s g b h = record {
  fast = h.fast;
  fail = ground (arith, h.fail);
  noexec = ground (arith, h.noexec);
  listening = h.listening;
  attended = h.attended;
  awaited = h.awaited;
}

open_not_gone : (p : ℕ) (s : Shell) → IsShell p s → s.bar ≡ true → s.gone ≡ false
open_not_gone p s h b = ground (arith, h.listening, b)

module _ (w : Console) where
  emergency_report-IsShell : (p : ℕ) (s : Shell) → IsShell p s → IsShell p (emergency_report w s)
  unfolding emergency_report
  emergency_report-IsShell p s h = go s.bar refl (w.report s.tick)
    where
      settled :
          (x : ExecState) → s.bar ≡ true → IsShell p (emerg_settle x (emerg_bar_close (queried s)))
      settled x b =
          emerg_settle-IsShell x p (emerg_bar_close (queried s)) (open_not_gone p s h b) refl
            (closed_bar p (queried s) (asked p s h))

      go :
          (b : Bool)
          → s.bar ≡ b
          → (r : Report)
          → IsShell p (elim b [
            | false ↦ s
            | true ↦ elim r [
              | not_yet ↦ queried s
              | ended ↦ emerg_settle exec_ok (emerg_bar_close (queried s))
              | truncated ↦ emerg_settle exec_unknown (emerg_bar_close (queried s))
              | failed ↦ emerg_settle exec_failed (emerg_bar_close (queried s))
            ]
          ])
      go false e r = h
      go true e not_yet = asked p s h
      go true e ended = settled exec_ok e
      go true e truncated = settled exec_unknown e
      go true e failed = settled exec_failed e

  shell_retry-IsShell :
      (p : ℕ) (s : Shell)
      → s.gone ≡ false
      → s.bar ≡ false
      → s.pid ≡ 0
      → IsShell p s
      → Steady (shell_retry w s)
  unfolding shell_retry
  shell_retry-IsShell p s g b z h =
      if_keeps Steady (leb fail_max (inc8 s.fail)) _ _
        (λ e. record {
          fast = ground (arith, g, z, h.fast);
          fail = ground (arith, g, h.fail);
          noexec = ground (arith, g, h.noexec);
          listening = ground (arith, b);
          attended = ground (arith, b);
          awaited = h.awaited;
        })
        (λ e. record {
          fast = ground (arith, g, h.fast);
          fail = ground (arith, g, e, h.fail);
          noexec = h.noexec;
          listening = h.listening;
          attended = ground (arith, b);
          awaited = h.awaited;
        })

  -- A start that fails is counted, and the last one that is allowed is the end.
  emerg_restart-IsShell :
      (p : ℕ) (s : Shell)
      → s.gone ≡ false
      → s.bar ≡ false
      → IsShell p s
      → Steady (emerg_restart w s)
  unfolding emerg_restart emerg_start
  emerg_restart-IsShell p s g b h = go (w.start s.tick)
    where
      over : Steady (shell_retry w (queried (record s { pid = 0 })))
      over =
          shell_retry-IsShell p (queried (record s { pid = 0 })) g b refl
            (asked p (record s { pid = 0 }) (no_pid p s h))

      go :
          (o : Started)
          → Steady (
              let s' = queried (record s { pid = 0 }) in
              let x : Shell × Bool = elim o [
                | forked p ↦ (forked_shell w p s', true)
                | _ ↦ (s', false)
              ] in
              if x.1 then x.0 else shell_retry w x.0)
      go no_console = over
      go no_pipe = over
      go no_fork = over
      go (forked q) = record {
        fast = ground (arith, g, h.fast);
        fail = h.fail;
        noexec = h.noexec;
        listening = ground (arith, g);
        attended = ground arith;
        awaited = ground arith;
      }

  exec_overdue-IsShell : (s : Shell) → Steady s → Steady (exec_overdue w s)
  unfolding exec_overdue emerg_settle
  exec_overdue-IsShell s h =
      if_keeps Steady (s.conf_at == 0) _ _ (λ _. h)
        (λ _.
          if_keeps Steady (leb s.conf_at (w.now s.tick)) _ _
            (λ _. record {
              fast = h.fast;
              fail = ground (arith, h.fail);
              noexec = h.noexec;
              listening = h.listening;
              attended = h.attended;
              awaited = ground arith;
            })
            (λ _. asked s.pid s h))

  emergency_tick-Steady : (s : Shell) → Steady s → Steady (emergency_tick w s)
  unfolding emergency_tick
  emergency_tick-Steady s h =
      let s1 = exec_overdue w s in
      let h1 = exec_overdue-IsShell s h in
      let s2 : Shell = record (queried s1) { retry_at = 0 } in
      let h2 : Steady s2 = record {
        fast = h1.fast;
        fail = h1.fail;
        noexec = h1.noexec;
        listening = h1.listening;
        attended = h1.attended;
        awaited = h1.awaited;
      } in
      if_keeps Steady (s1.retry_at == 0 || s1.gone) _ _ (λ _. h1)
        (λ e.
          if_keeps Steady (ltb (w.now s1.tick) s1.retry_at) _ _ (λ _. asked s1.pid s1 h1)
            (λ _.
              if_keeps Steady (s2.pid == 0) _ _
                (λ z.
                  emerg_restart-IsShell s2.pid s2 (ground (arith, e))
                    (ground (arith, h2.attended, z)) h2)
                (λ _. h2)))

  emergency_shell-Steady : (s : Shell) → Steady s → Steady (emergency_shell w s)
  unfolding emergency_shell
  emergency_shell-Steady s h =
      if_keeps Steady (s.gone || not (s.pid == 0)) _ _ (λ _. h)
        (λ e. emerg_restart-IsShell s.pid s (ground (arith, e)) (ground (arith, h.attended, e)) h)

  emergency_report-pid : (s : Shell) → (emergency_report w s).pid ≡ s.pid
  unfolding emergency_report emerg_settle
  emergency_report-pid s = go s.bar (w.report s.tick)
    where
      go :
          (b : Bool) (r : Report)
          → Shell.pid (elim b [
            | false ↦ s
            | true ↦ elim r [
              | not_yet ↦ queried s
              | ended ↦ emerg_settle exec_ok (emerg_bar_close (queried s))
              | truncated ↦ emerg_settle exec_unknown (emerg_bar_close (queried s))
              | failed ↦ emerg_settle exec_failed (emerg_bar_close (queried s))
            ]
          ])
            ≡ s.pid
      go false r = refl
      go true not_yet = refl
      go true ended = refl
      go true truncated = refl
      go true failed = refl

  -- another shell, unless pid 1 has given up
  start_again :
      (p : ℕ) (s : Shell)
      → s.bar ≡ false
      → s.pid ≡ 0
      → IsShell p s
      → Steady (if s.gone then s else emerg_restart w s)
  start_again p s b z h =
      if_keeps Steady s.gone s (emerg_restart w s)
        (λ g. record {
          fast = ground (arith, g, z, h.fast);
          fail = h.fail;
          noexec = h.noexec;
          listening = h.listening;
          attended = ground (arith, b);
          awaited = h.awaited;
        })
        (λ g. emerg_restart-IsShell p s g b h)

  -- The exit of the shell is counted once, and after the last fast one none is started.
  shell_exited-Steady : (s : Shell) → s.pid ≢ 0 → Steady s → Steady (shell_exited w s)
  unfolding shell_exited
  shell_exited-Steady s ne h =
      let heard = emergency_report w (record s { pid = 0 }) in
      let s1 = emerg_bar_close heard in
      let h1 : IsShell s.pid s1 =
        closed_bar s.pid heard
          (emergency_report-IsShell s.pid (record s { pid = 0 }) (no_pid s.pid s h)) in
      let z : heard.pid ≡ 0 = emergency_report-pid (record s { pid = 0 }) in
      let n = inc8 s1.fast in
      if_keeps Steady (leb fast_ms (w.ran s1.tick)) _ _
        (λ _.
          start_again s.pid (record (queried s1) { fast = 0 }) refl z
            (record {
              fast = ground arith;
              fail = h1.fail;
              noexec = h1.noexec;
              listening = h1.listening;
              attended = h1.attended;
              awaited = h1.awaited;
            }))
        (λ _.
          if_keeps Steady (leb fast_max n) _ _
            (λ e. record {
              fast = ground (arith, ne, z, h1.fast);
              fail = ground (arith, h1.fail);
              noexec = ground (arith, h1.noexec);
              listening = ground arith;
              attended = ground arith;
              awaited = ground arith;
            })
            (λ e.
              start_again s.pid (record (queried s1) { fast = n }) refl z
                (record {
                  fast = ground (arith, e);
                  fail = h1.fail;
                  noexec = h1.noexec;
                  listening = h1.listening;
                  attended = h1.attended;
                  awaited = h1.awaited;
                })))

  shell_handle-Steady : (e : ShellEvent) (s : Shell) → Steady s → Steady (shell_handle w e s)
  unfolding shell_handle emergency_reaped
  shell_handle-Steady wanted s h = emergency_shell-Steady s h
  shell_handle-Steady ticked s h = emergency_tick-Steady s h
  shell_handle-Steady reported s h =
      subst (λ p. IsShell p (emergency_report w s)) (sym (emergency_report-pid s))
        (emergency_report-IsShell s.pid s h)
  shell_handle-Steady (exited pid) s h =
      if_keeps (λ (x : Shell × Bool). Steady x.0) (pid == 0 || not (pid == s.pid)) (s, false)
        (shell_exited w s, true) (λ _. h) (λ e. shell_exited-Steady s (ground (arith, e)) h)

  events-Steady : (es : List ShellEvent) (s : Shell) → Steady s → Steady (shell_run w es s)
  unfolding shell_run
  events-Steady [] s h = h
  events-Steady (e ∷ es) s h = events-Steady es (shell_handle w e s) (shell_handle-Steady e s h)

  -- Whatever happens to the emergency shell, its counters of fast exits, failed starts and failed
  -- execs do not pass their limits of 5, 5 and 2, and one at its limit means that pid 1 has given
  -- up. The barrier is open only while a shell runs and before pid 1 gives up, and is waited for
  -- only while it is open.
  pub shell_run-Steady : (es : List ShellEvent) → Steady (shell_run w es no_shell)
  shell_run-Steady es = events-Steady es no_shell (record {
    fast = omega arith;
    fail = omega arith;
    noexec = omega arith;
    listening = omega arith;
    attended = omega arith;
    awaited = omega arith;
  })
