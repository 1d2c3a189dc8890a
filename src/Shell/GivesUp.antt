-- ===== src/Shell/GivesUp.antt =====
-- Where no shell can be started, pid 1 gives up after the tries that are allowed (src/fail.c).
use ninit.Prelude.{
  ℕ, suc, ◌+◌, ◌≤◌, ◌≡◌, ◌≢◌, ◌⊎◌, refl, Bool, true, false, not, ◌||◌, List, [], ◌∷◌, ◌==◌, ltb,
  leb, if◌then◌else◌, if_keeps, arith, inl, inr,
}
use ninit.Shell.{
  inc8, Shell, Started, no_console, no_pipe, no_fork, forked, Console, fail_max, queried,
  emergency_report, emerg_start, forked_shell, shell_retry, emerg_restart, exec_overdue,
  emergency_tick, emergency_shell, shell_exited, emergency_reaped, ShellEvent, wanted, ticked,
  reported, exited, shell_handle, shell_run, no_shell,
}

-- no shell was started in k tries or more
record IsWithout (k : ℕ) (s : Shell) : Type 0 where
  idle : (s.pid ≡ 0) × (s.bar ≡ false) × (s.conf_at ≡ 0)
  tries : (s.gone ≡ true) ⊎ ((k ≤ s.fail) × (s.fail ≤ 4))

-- how often the shell is asked for
abbrev pub asks : List ShellEvent → ℕ
asks [] = 0
asks (wanted ∷ es) = suc (asks es)
asks (e ∷ es) = asks es

-- no start succeeds
abbrev pub Refuses : Console → Type 0
Refuses w = (t p : ℕ) → w.start t ≢ forked p

less : (j k : ℕ) (s : Shell) → j ≤ k → IsWithout k s → IsWithout j s
less j k s l h = record {
  idle = h.idle;
  tries = elim h.tries [ inl g ↦ inl g | inr t ↦ inr (omega (arith, l, t.0), t.1) ];
}

module _ (w : Console) (refuses : Refuses w) where
  shell_retry-IsWithout :
      (k : ℕ) (s : Shell) → s.gone ≡ false → IsWithout k s → IsWithout (suc k) (shell_retry w s)
  unfolding shell_retry
  shell_retry-IsWithout k s g h = elim h.tries [
    | inl q ↦ absurd (ground (arith, g, q))
    | inr t ↦
        if_keeps (IsWithout (suc k)) (leb fail_max (inc8 s.fail)) _ _
          (λ e. record { idle = h.idle; tries = inl refl })
          (λ e. record { idle = h.idle; tries = inr (ground (arith, t, e), ground (arith, t, e)) })
  ]

  restart-IsWithout :
      (k : ℕ) (s : Shell) → s.gone ≡ false → IsWithout k s → IsWithout (suc k) (emerg_restart w s)
  unfolding emerg_restart emerg_start
  restart-IsWithout k s g h = go (w.start s.tick) (λ p. refuses s.tick p)
    where
      over : IsWithout (suc k) (shell_retry w (queried (record s { pid = 0 })))
      over =
          shell_retry-IsWithout k (queried (record s { pid = 0 })) g
            (record { idle = (refl, h.idle.1, h.idle.2); tries = h.tries })

      go :
          (o : Started)
          → ((p : ℕ) → o ≢ forked p)
          → IsWithout (suc k) (
              let s' = queried (record s { pid = 0 }) in
              let x : Shell × Bool = elim o [
                | forked p ↦ (forked_shell w p s', true)
                | _ ↦ (s', false)
              ] in
              if x.1 then x.0 else shell_retry w x.0)
      go no_console ne = over
      go no_pipe ne = over
      go no_fork ne = over
      go (forked p) ne = absurd (ne p refl)

  -- the tick only tries again, and reports and exits find no shell
  tick-IsWithout : (k : ℕ) (s : Shell) → IsWithout k s → IsWithout k (emergency_tick w s)
  unfolding emergency_tick exec_overdue
  tick-IsWithout k s h = rw (no_wait s.conf_at h.idle.2) rest
    where
      no_wait : (x : ℕ) → x ≡ 0 → (x == 0) ≡ true
      no_wait x z = ground (arith, z)

      rest : IsWithout k (
          if s.retry_at == 0 || s.gone
          then s
          else if ltb (w.now s.tick) s.retry_at
          then queried s
          else let s2 = record (queried s) { retry_at = 0 } in
            if s2.pid == 0 then emerg_restart w s2 else s2)
      rest =
          let s2 : Shell = record (queried s) { retry_at = 0 } in
          if_keeps (IsWithout k) (s.retry_at == 0 || s.gone) _ _ (λ _. h)
            (λ e.
              if_keeps (IsWithout k) (ltb (w.now s.tick) s.retry_at) _ _
                (λ _. record { idle = h.idle; tries = h.tries })
                (λ _.
                  if_keeps (IsWithout k) (s2.pid == 0) _ _
                    (λ _. less k (suc k) _ (omega arith) (
                      restart-IsWithout k s2 (ground (arith, e))
                        (record { idle = h.idle; tries = h.tries })))
                    (λ _. record { idle = h.idle; tries = h.tries })))

  wanted-IsWithout : (k : ℕ) (s : Shell) → IsWithout k s → IsWithout (suc k) (emergency_shell w s)
  unfolding emergency_shell
  wanted-IsWithout k s h =
      if_keeps (IsWithout (suc k)) (s.gone || not (s.pid == 0)) _ _
        (λ e. record { idle = h.idle; tries = inl (ground (arith, e, h.idle.0)) })
        (λ e. restart-IsWithout k s (ground (arith, e)) h)

  reported-IsWithout : (k : ℕ) (s : Shell) → IsWithout k s → IsWithout k (emergency_report w s)
  unfolding emergency_report
  reported-IsWithout k s h =
      rw h.idle.1 (record { idle = (h.idle.0, refl, h.idle.2); tries = h.tries })

  exited-IsWithout :
      (k pid : ℕ) (s : Shell) → IsWithout k s → IsWithout k (emergency_reaped w pid s).0
  unfolding emergency_reaped
  exited-IsWithout k pid s h =
      if_keeps (λ (x : Shell × Bool). IsWithout k x.0) (pid == 0 || not (pid == s.pid)) (s, false)
        (shell_exited w s, true) (λ _. h) (λ e. absurd (ground (arith, e, h.idle.0)))

  run-IsWithout :
      (es : List ShellEvent) (k : ℕ) (s : Shell)
      → IsWithout k s
      → IsWithout (asks es + k) (shell_run w es s)
  unfolding shell_run shell_handle
  run-IsWithout [] k s h = less _ k s (omega arith) h
  run-IsWithout (wanted ∷ es) k s h =
      less _ (asks es + suc k) _ (omega arith)
        (run-IsWithout es (suc k) (emergency_shell w s) (wanted-IsWithout k s h))
  run-IsWithout (ticked ∷ es) k s h = run-IsWithout es k (emergency_tick w s) (tick-IsWithout k s h)
  run-IsWithout (reported ∷ es) k s h =
      run-IsWithout es k (emergency_report w s) (reported-IsWithout k s h)
  run-IsWithout (exited pid ∷ es) k s h =
      run-IsWithout es k (emergency_reaped w pid s).0 (exited-IsWithout k pid s h)

  -- Where no start succeeds, pid 1 has given up on the shell once it was asked for five times,
  -- whatever else happens.
  pub gives_up : (es : List ShellEvent) → 5 ≤ asks es → (shell_run w es no_shell).gone ≡ true
  gives_up es many =
      let end =
        run-IsWithout es 0 no_shell
          (record { idle = (refl, refl, refl); tries = inr (omega arith, omega arith) }) in
      elim end.tries [ inl g ↦ g | inr t ↦ absurd (omega (arith, many, t.0, t.1)) ]
