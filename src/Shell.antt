-- ===== src/Shell.antt =====
-- The emergency shell of pid 1 (src/fail.c): its starts and retries, the report of its exec, and
-- when pid 1 gives up. Log lines and the console are left out.
pub mod Bounded
pub mod Over
pub mod GivesUp
use ninit.Prelude.{
  ℕ, zero, suc, ◌+◌, ◌-◌, ◌%◌, Bool, true, false, not, ◌&&◌, ◌||◌, List, [], ◌∷◌, Option, none,
  some, ◌==◌, ltb, leb, if◌then◌else◌,
}

-- uint8_t: ++ wraps
abbrev pub inc8 : ℕ → ℕ
inc8 x = (x + 1) % 256

-- enum emerg_state
pub data ExecState : Type 0 where
  exec_failed exec_unknown exec_ok : ExecState

-- the static variables; a pid, a time of 0 is none
pub record Shell : Type 0 where
  pub pid : ℕ
  pub bar : Bool
  pub conf_at : ℕ
  pub fast : ℕ
  pub fail : ℕ
  pub noexec : ℕ
  pub gone : Bool
  pub conf : ExecState
  pub greeted : Bool
  pub retry_at : ℕ
  pub tick : ℕ  -- the number of questions put to the kernel

-- what read() on the barrier gives, once no signal interrupts it
pub data Report : Type 0 where
  not_yet ended truncated failed : Report

-- how the system calls of emerg_start end; `forked p` is a shell with the pid p + 1
pub data Started : Type 0 where
  no_console no_pipe no_fork : Started
  forked : ℕ → Started

-- the kernel's answers, by the number of the question
pub record Console : Type 0 where
  pub now : ℕ → ℕ  -- mono_ms
  pub ran : ℕ → ℕ  -- mono_ms_since the start
  pub report : ℕ → Report
  pub start : ℕ → Started

abbrev pub fast_ms : ℕ
fast_ms = 1000

abbrev pub fast_max : ℕ
fast_max = 5

abbrev pub fail_max : ℕ
fail_max = 5

abbrev pub noexec_max : ℕ
noexec_max = 2

abbrev pub exec_ms : ℕ
exec_ms = 5000

abbrev pub retry_ms : ℕ
retry_ms = 2000

abbrev pub no_shell : Shell
no_shell = record {
  pid = 0;
  bar = false;
  conf_at = 0;
  fast = 0;
  fail = 0;
  noexec = 0;
  gone = false;
  conf = exec_unknown;
  greeted = false;
  retry_at = 0;
  tick = 0;
}

abbrev pub queried : Shell → Shell
queried s = record s { tick = s.tick + 1 }

unfoldable pub emerg_settle : ExecState → Shell → Shell
emerg_settle exec_failed s =
    let n = inc8 s.noexec in
    record s { conf = exec_failed; noexec = n; gone = leb noexec_max n || s.gone }
emerg_settle exec_unknown s = record s { conf = exec_unknown; fail = 0 }
emerg_settle exec_ok s = record s { conf = exec_ok; fail = 0; noexec = 0; greeted = true }

abbrev pub emerg_bar_close : Shell → Shell
emerg_bar_close s = record s { bar = false; conf_at = 0 }

module _ (w : Console) where
  unfoldable pub emergency_report : Shell → Shell
  emergency_report s = elim s.bar [
    | false ↦ s
    | true ↦ elim (w.report s.tick) [
      | not_yet ↦ queried s
      | ended ↦ emerg_settle exec_ok (emerg_bar_close (queried s))
      | truncated ↦ emerg_settle exec_unknown (emerg_bar_close (queried s))
      | failed ↦ emerg_settle exec_failed (emerg_bar_close (queried s))
    ]
  ]

  -- a shell that was forked
  abbrev pub forked_shell : ℕ → Shell → Shell
  forked_shell p s =
      queried (record s {
        pid = suc p;
        conf = exec_unknown;
        bar = true;
        conf_at = w.now s.tick + exec_ms;
      })

  -- emerg_start, and whether it gives 0
  unfoldable pub emerg_start : Shell → Shell × Bool
  emerg_start s =
      let s' = queried (record s { pid = 0 }) in
      elim (w.start s.tick) [ forked p ↦ (forked_shell p s', true) | _ ↦ (s', false) ]

  -- a start that failed: the next try, or the end
  unfoldable pub shell_retry : Shell → Shell
  shell_retry s =
      let n = inc8 s.fail in
      if leb fail_max n
      then record s { fail = n; gone = true }
      else queried (record s { fail = n; retry_at = w.now s.tick + retry_ms })

  unfoldable pub emerg_restart : Shell → Shell
  emerg_restart s = let (s', ok) = emerg_start s in if ok then s' else shell_retry s'

  -- the first test of fail_emergency_tick
  unfoldable pub exec_overdue : Shell → Shell
  exec_overdue s =
      if s.conf_at == 0
      then s
      else if leb s.conf_at (w.now s.tick)
      then emerg_settle exec_unknown (record (queried s) { conf_at = 0 })
      else queried s

  unfoldable pub emergency_tick : Shell → Shell
  emergency_tick s =
      let s1 = exec_overdue s in
      if s1.retry_at == 0 || s1.gone
      then s1
      else if ltb (w.now s1.tick) s1.retry_at
      then queried s1
      else let s2 = record (queried s1) { retry_at = 0 } in
        if s2.pid == 0 then emerg_restart s2 else s2

  unfoldable pub emergency_shell : Shell → Shell
  emergency_shell s = if s.gone || not (s.pid == 0) then s else emerg_restart s

  -- fail_emergency_reaped behind its first test
  unfoldable pub shell_exited : Shell → Shell
  shell_exited s =
      let s1 = emerg_bar_close (emergency_report (record s { pid = 0 })) in
      let n = inc8 s1.fast in
      if leb fast_ms (w.ran s1.tick)
      then (let s2 = record (queried s1) { fast = 0 } in if s2.gone then s2 else emerg_restart s2)
      else if leb fast_max n
      then record (queried s1) { fast = n; gone = true }
      else (let s2 = record (queried s1) { fast = n } in if s2.gone then s2 else emerg_restart s2)

  -- and whether the pid was that of the shell
  unfoldable pub emergency_reaped : ℕ → Shell → Shell × Bool
  emergency_reaped pid s =
      if pid == 0 || not (pid == s.pid) then (s, false) else (shell_exited s, true)

-- what happens to the shell in the main loop
pub data ShellEvent : Type 0 where
  wanted ticked reported : ShellEvent
  exited : ℕ → ShellEvent

module _ (w : Console) where
  unfoldable pub shell_handle : ShellEvent → Shell → Shell
  shell_handle wanted s = emergency_shell w s
  shell_handle ticked s = emergency_tick w s
  shell_handle reported s = emergency_report w s
  shell_handle (exited pid) s = (emergency_reaped w pid s).0

  unfoldable pub shell_run : List ShellEvent → Shell → Shell
  shell_run [] s = s
  shell_run (e ∷ es) s = shell_run es (shell_handle e s)
