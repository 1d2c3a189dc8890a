-- ===== src/Shell/Over.antt =====
-- When the emergency shell is given up: for good, and in the end where none can be started
-- (src/fail.c).
use ninit.Prelude.{
  ℕ, ◌≡◌, ◌⊎◌, refl, Bool, true, false, not, ◌||◌, List, [], ◌∷◌, ◌==◌, leb, if_keeps, arith, inl,
}
use ninit.Shell.{
  inc8, ExecState, exec_failed, exec_unknown, exec_ok, Shell, not_yet, ended, truncated, failed,
  Report, Console, fast_ms, fast_max, queried, emerg_settle, emerg_bar_close, emergency_report,
  exec_overdue, emergency_tick, emergency_shell, shell_exited, emergency_reaped, ShellEvent, wanted,
  ticked, reported, exited, shell_handle, shell_run,
}

-- pid 1 has given up, and no shell runs but the one with the pid p
pub record IsOver (p : ℕ) (s : Shell) : Type 0 where
  pub over : s.gone ≡ true
  pub none_new : (s.pid ≡ 0) ⊎ (s.pid ≡ p)

settle-IsOver : (x : ExecState) (p : ℕ) (s : Shell) → IsOver p s → IsOver p (emerg_settle x s)
unfolding emerg_settle
settle-IsOver exec_failed p s h = record { over = ground (arith, h.over); none_new = h.none_new }
settle-IsOver exec_unknown p s h = record { over = h.over; none_new = h.none_new }
settle-IsOver exec_ok p s h = record { over = h.over; none_new = h.none_new }

module _ (w : Console) (p : ℕ) where
  report-IsOver : (s : Shell) → IsOver p s → IsOver p (emergency_report w s)
  unfolding emergency_report
  report-IsOver s h = go s.bar (w.report s.tick)
    where
      heard : (x : ExecState) → IsOver p (emerg_settle x (emerg_bar_close (queried s)))
      heard x =
          settle-IsOver x p (emerg_bar_close (queried s))
            (record { over = h.over; none_new = h.none_new })

      go :
          (b : Bool) (r : Report)
          → IsOver p (elim b [
            | false ↦ s
            | true ↦ elim r [
              | not_yet ↦ queried s
              | ended ↦ emerg_settle exec_ok (emerg_bar_close (queried s))
              | truncated ↦ emerg_settle exec_unknown (emerg_bar_close (queried s))
              | failed ↦ emerg_settle exec_failed (emerg_bar_close (queried s))
            ]
          ])
      go false r = h
      go true not_yet = record { over = h.over; none_new = h.none_new }
      go true ended = heard exec_ok
      go true truncated = heard exec_unknown
      go true failed = heard exec_failed

  overdue-IsOver : (s : Shell) → IsOver p s → IsOver p (exec_overdue w s)
  unfolding exec_overdue
  overdue-IsOver s h =
      let same : IsOver p (queried s) = record { over = h.over; none_new = h.none_new } in
      if_keeps (IsOver p) (s.conf_at == 0) _ _ (λ _. h)
        (λ _.
          if_keeps (IsOver p) (leb s.conf_at (w.now s.tick)) _ _
            (λ _.
              settle-IsOver exec_unknown p (record (queried s) { conf_at = 0 })
                (record { over = h.over; none_new = h.none_new }))
            (λ _. same))

  exited-IsOver : (s : Shell) → IsOver p s → IsOver p (shell_exited w s)
  unfolding shell_exited
  exited-IsOver s h =
      let heard = emergency_report w (record s { pid = 0 }) in
      let h1 =
        report-IsOver (record s { pid = 0 }) (record { over = h.over; none_new = inl refl }) in
      let s1 = emerg_bar_close heard in
      let done : (k : ℕ) → IsOver p (record (queried s1) { fast = k }) =
        λ k. record { over = h1.over; none_new = h1.none_new } in
      if_keeps (IsOver p) (leb fast_ms (w.ran s1.tick)) _ _
        (λ _.
          if_keeps (IsOver p) heard.gone _ _ (λ _. done 0)
            (λ e. absurd (ground (arith, e, h1.over))))
        (λ _.
          if_keeps (IsOver p) (leb fast_max (inc8 s1.fast)) _ _
            (λ _. record { over = refl; none_new = h1.none_new })
            (λ _.
              if_keeps (IsOver p) heard.gone _ _ (λ _. done (inc8 s1.fast))
                (λ e. absurd (ground (arith, e, h1.over)))))

  handle-IsOver : (e : ShellEvent) (s : Shell) → IsOver p s → IsOver p (shell_handle w e s)
  unfolding shell_handle emergency_shell emergency_tick emergency_reaped
  handle-IsOver wanted s h =
      if_keeps (IsOver p) (s.gone || not (s.pid == 0)) _ _ (λ _. h)
        (λ e. absurd (ground (arith, e, h.over)))
  handle-IsOver ticked s h =
      let s1 = exec_overdue w s in
      let h1 = overdue-IsOver s h in
      if_keeps (IsOver p) (s1.retry_at == 0 || s1.gone) _ _ (λ _. h1)
        (λ e. absurd (ground (arith, e, h1.over)))
  handle-IsOver reported s h = report-IsOver s h
  handle-IsOver (exited pid) s h =
      if_keeps (λ (x : Shell × Bool). IsOver p x.0) (pid == 0 || not (pid == s.pid)) (s, false)
        (shell_exited w s, true) (λ _. h) (λ _. exited-IsOver s h)

  -- Once pid 1 has given up, no event takes that back, and no other shell than the one that still
  -- runs is ever running.
  pub shell_run-IsOver :
      (es : List ShellEvent) (s : Shell) → IsOver p s → IsOver p (shell_run w es s)
  unfolding shell_run
  shell_run-IsOver [] s h = h
  shell_run-IsOver (e ∷ es) s h = shell_run-IsOver es (shell_handle w e s) (handle-IsOver e s h)
