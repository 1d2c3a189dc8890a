-- ===== src/Examples/Logging.antt =====
-- A ring whose text wraps at the end of the array, a console that takes a line in parts, and a
-- line that is logged three times.
use ninit.Prelude.{ℕ, ◌+◌, ◌-◌, ◌≡◌, refl, true, false, some, List, [], ◌∷◌, ◌++◌, length, arith}
use ninit.Logging.{Ring, ring_put, make_room}
use ninit.Logging.Lines.{are_lines, trim}
use ninit.Logging.Text.{text, IsLog, text-ring_put, ring_put-IsLog}
use ninit.Logging.Console.{takes, interrupted, refuses, LogConsole, Log, log_out}
use ninit.Logging.Shown.{IsShown, log_out-IsShown}
use ninit.Logging.Repeat.{
  Printer, Repeats, rep_break, rep_flush, log_tick, log_due, ninit_log, hold, rep_find, find_block,
  seen_is, seen_back, same_bytes, body_hash, hash_bytes, xor_bits, log_head, log_emit, repeat_wait,
}
use ninit.Logging.Repeat.Marks.{expand}
use ninit.Logging.Repeat.Folded.{IsFolding}
use ninit.Logging.Repeat.Calls.{
  Call, logged, ticked, fresh, run_calls, lines_logged, run_calls-IsFolding, run_calls-whole,
  log_due-log_tick,
}

abbrev near_end : Ring
near_end = record { bytes = λ i. 0; head = 131070; tail = 131070 }

abbrev first_line : List ℕ
first_line = 97 ∷ 98 ∷ 99 ∷ 10 ∷ []

abbrev second_line : List ℕ
second_line = 100 ∷ 10 ∷ []

first_lines : are_lines 0 first_line ≡ true
unfolding are_lines
first_lines = refl

near_end-IsLog : IsLog near_end
unfolding are_lines
near_end-IsLog = record { order = omega arith; room = omega arith; lines = refl }

abbrev wrapped : Ring
wrapped = ring_put near_end first_line

wrapped-IsLog : IsLog wrapped
wrapped-IsLog =
    ring_put-IsLog near_end first_line near_end-IsLog (omega arith) (omega arith) first_lines

wrapped_head : wrapped.head ≡ 131074
unfolding ring_put make_room
wrapped_head = refl

text-ring_put_example :
    text (ring_put wrapped second_line)
    ≡ trim (length (text wrapped)) (131072 - 2) (text wrapped) ++ second_line
text-ring_put_example =
    text-ring_put wrapped second_line wrapped-IsLog (omega arith) (omega (arith, wrapped_head))

-- two bytes are taken, then the console is full, and three lines were dropped before
abbrev slow : LogConsole
slow = record {
  out = [];
  pend = [];
  stalled = false;
  wait_until = 250;
  dropped = 3;
  answers = takes 1 ∷ interrupted ∷ refuses 260 ∷ takes 100 ∷ [];
}

abbrev report : ℕ → List ℕ
report n = (48 + n) ∷ 10 ∷ []

log_out-IsShown_example :
    IsShown
      (λ n. report 3)
      first_line
      slow
      (log_out
        (λ n. report 3)
        false
        first_line
        first_line
        (record { ring = wrapped; console = slow })).console
log_out-IsShown_example =
    log_out-IsShown (λ n. report 3) first_line first_line
      (record { ring = wrapped; console = slow }) (omega arith) (λ n. omega arith)
      (tt, (tt, (tt, (tt, tt)))) (omega arith) (omega arith)

abbrev printer : Printer
printer = record {
  plain = λ level ms. (91 + level) ∷ [];
  tinted = λ level ms. [];
  color = false;
  repeated = λ len count. (48 + count) ∷ 10 ∷ [];
  report = report;
}

abbrev empty_log : Log
empty_log = record { ring = near_end; console = record slow { answers = []; dropped = 0 } }

-- the same line at 10, 20 and 30, a tick when it is due, and another line
abbrev calls : List Call
calls =
    logged 2 (120 ∷ []) 30050 30050
    ∷ ticked 30020
    ∷ logged 2 (97 ∷ []) 30 30
    ∷ logged 2 (97 ∷ []) 20 20
    ∷ logged 2 (97 ∷ []) 10 10
    ∷ []

run_calls-IsFolding_example :
    IsFolding (lines_logged printer calls) (run_calls printer calls (fresh empty_log))
run_calls-IsFolding_example =
    run_calls-IsFolding printer calls empty_log
      (omega arith, (tt, (omega arith, (omega arith, (omega arith, tt))))) (omega arith)

run_calls-whole_example :
    expand (rep_break printer (run_calls printer calls (fresh empty_log))).said
    ≡ lines_logged printer calls
run_calls-whole_example =
    run_calls-whole printer calls empty_log
      (omega arith, (tt, (omega arith, (omega arith, (omega arith, tt))))) (omega arith)

abbrev repeated_calls : List Call
repeated_calls = logged 2 (97 ∷ []) 20 20 ∷ logged 2 (97 ∷ []) 10 10 ∷ []

abbrev repeated_log : Repeats
repeated_log = run_calls printer repeated_calls (fresh empty_log)

wait_over : log_due 30020 repeated_log ≡ some 0
unfolding rep_break rep_flush log_tick log_due ninit_log hold rep_find find_block seen_is seen_back
    same_bytes body_hash hash_bytes xor_bits log_head log_emit repeat_wait
    ninit.Logging.Repeat.print_line log_out ring_put make_room ninit.Logging.ring_get
    ninit.Logging.copy_to
wait_over = refl

log_due-log_tick_example : (log_tick printer 30020 repeated_log).rep_count ≡ 0
log_due-log_tick_example =
    log_due-log_tick printer (lines_logged printer repeated_calls) repeated_log 30020
      (run_calls-IsFolding printer repeated_calls empty_log (omega arith, (omega arith, tt))
        (omega arith))
      (omega arith) wait_over
