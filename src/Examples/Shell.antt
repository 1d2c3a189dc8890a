-- ===== src/Examples/Shell.antt =====
-- An emergency shell that is started, reports its exec and exits at once, and a console on which
-- none can be started.
use ninit.Prelude.{◌+◌, ◌≡◌, refl, true, inr, List, [], ◌∷◌, arith}
use ninit.Shell.{
  Shell, ended, no_fork, forked, Console, no_shell, ShellEvent, wanted, ticked, reported, exited,
  shell_run, shell_handle, emergency_shell, emergency_report, emergency_reaped, shell_exited,
  emerg_restart, emerg_start, shell_retry, emerg_settle,
}
use ninit.Shell.Bounded.{Steady, shell_run-Steady}
use ninit.Shell.Over.{IsOver, shell_run-IsOver}
use ninit.Shell.GivesUp.{gives_up}

abbrev quick : Console
quick = record { now = λ t. 1000 + t; ran = λ t. 10; report = λ t. ended; start = λ t. forked 41 }

abbrev quick_exits : List ShellEvent
quick_exits =
    wanted ∷ reported ∷ exited 42 ∷ exited 42 ∷ reported ∷ exited 42 ∷ exited 42 ∷ exited 42 ∷ []

shell_run-Steady_example : Steady (shell_run quick quick_exits no_shell)
shell_run-Steady_example = shell_run-Steady quick quick_exits

abbrev after_exits : Shell
after_exits = shell_run quick quick_exits no_shell

-- five exits at once are the end
quick_over : after_exits.gone ≡ true
unfolding shell_run shell_handle emergency_shell emergency_report emergency_reaped shell_exited
    emerg_restart emerg_start shell_retry emerg_settle
quick_over = refl

shell_run-IsOver_example : IsOver 0 (shell_run quick (wanted ∷ ticked ∷ []) after_exits)
unfolding shell_run shell_handle emergency_shell emergency_report emergency_reaped shell_exited
    emerg_restart emerg_start shell_retry emerg_settle
shell_run-IsOver_example =
    shell_run-IsOver quick 0 (wanted ∷ ticked ∷ []) after_exits
      (record { over = quick_over; none_new = inr refl })

abbrev broken : Console
broken = record quick { start = λ t. no_fork }

abbrev asked_often : List ShellEvent
asked_often = wanted ∷ ticked ∷ wanted ∷ wanted ∷ wanted ∷ wanted ∷ []

gives_up_example : (shell_run broken asked_often no_shell).gone ≡ true
gives_up_example = gives_up broken (λ t p e. absurd (ground (arith, e))) asked_often (omega arith)
