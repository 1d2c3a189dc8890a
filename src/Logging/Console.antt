-- ===== src/Logging/Console.antt =====
-- The console's side of the log (src/logging.c): log_push, log_write, log_flush and log_out.
use ninit.Prelude.{
  ℕ, ◌+◌, Bool, true, false, not, ◌||◌, ◌&&◌, List, [], ◌∷◌, ◌++◌, take, drop, ◌==◌, ltb, leb,
  length, if◌then◌else◌, inc32, sub32,
}
use ninit.Logging.{Ring, ring_put}

-- What write(2) on the console answers: it takes n + 1 bytes where there are so many, or all that
-- are left; EINTR; EAGAIN, at the time `now`; another error.
pub data Answer : Type 0 where
  takes : ℕ → Answer
  interrupted : Answer
  refuses : ℕ → Answer
  fails : Answer

-- log_pend from pend_at to pend_len, log_stalled, log_wait_until and log_dropped; the bytes that
-- the console took, and its answers to come. After the last of them it takes nothing more while
-- the batch lasts.
pub record LogConsole : Type 0 where
  pub out : List ℕ
  pub pend : List ℕ
  pub stalled : Bool
  pub wait_until : ℕ
  pub dropped : ℕ
  pub answers : List Answer

-- What log_push returns: the bytes not taken, and whether there was a hard error.
pub record Pushed : Type 0 where
  pub left : List ℕ
  pub failed : Bool
  pub console : LogConsole

abbrev pub is_empty : List ℕ → Bool
is_empty [] = true
is_empty (x ∷ xs) = false

-- LOG_WRITE_MS from now, within the batch
abbrev pub push_deadline : ℕ → LogConsole → ℕ
push_deadline now c = if ltb c.wait_until (now + 100) then c.wait_until else now + 100

-- the loop of log_push, with its deadline
unfoldable pub push_loop : Bool → List Answer → List ℕ → ℕ → LogConsole → Pushed
push_loop wait [] buf deadline c = record {
  left = buf;
  failed = false;
  console = record c { answers = [] };
}
push_loop wait (a ∷ later) [] deadline c = record {
  left = [];
  failed = false;
  console = record c { answers = a ∷ later };
}
push_loop wait (takes k ∷ later) (x ∷ xs) deadline c =
    push_loop wait later (drop k xs) deadline
      (record c { out = c.out ++ (x ∷ take k xs); stalled = false })
push_loop wait (interrupted ∷ later) (x ∷ xs) deadline c = push_loop wait later (x ∷ xs) deadline c
push_loop wait (fails ∷ later) (x ∷ xs) deadline c = record {
  left = x ∷ xs;
  failed = true;
  console = record c { answers = later };
}
push_loop wait (refuses now ∷ later) (x ∷ xs) deadline c =
    let again =
      push_loop wait later (x ∷ xs) (if deadline == 0 then push_deadline now c else deadline) c in
    let stop : Bool → Pushed = λ stalled. record {
      left = x ∷ xs;
      failed = false;
      console = record c { stalled = stalled; answers = later };
    } in
    if not wait
    then stop c.stalled
    else if c.stalled || leb c.wait_until now
    then stop c.stalled
    else if not (deadline == 0) && leb deadline now
    then stop true
    else again

unfoldable pub log_push : Bool → List ℕ → LogConsole → Pushed
log_push wait buf c = push_loop wait c.answers buf 0 c

-- the part of log_write after the rest of an earlier line
unfoldable pub write_line : List ℕ → LogConsole → Bool × LogConsole
write_line buf c =
    let p = log_push true buf c in
    if not p.failed && is_empty p.left
    then (true, p.console)
    else if p.failed || length p.left == length buf || ltb 1040 (length p.left)
    then (false, p.console)
    else (true, record p.console { pend = p.left })

unfoldable pub log_write : List ℕ → LogConsole → Bool × LogConsole
log_write buf c =
    if is_empty c.pend
    then write_line buf c
    else (let p = log_push true c.pend c in
        if p.failed
        then (false, record p.console { pend = [] })
        else if not (is_empty p.left)
        then (false, record p.console { pend = p.left })
        else write_line buf (record p.console { pend = [] }))

unfoldable pub log_flush : LogConsole → LogConsole
log_flush c =
    let p = log_push false c.pend c in
    if p.failed || length p.left == length c.pend
    then record p.console { pend = []; dropped = inc32 p.console.dropped }
    else record p.console { pend = p.left }

unfoldable pub log_batch_begin : ℕ → LogConsole → LogConsole
log_batch_begin now c = record c { wait_until = now + 250; stalled = false }

-- `if(log_dropped && !pend_len)` of log_out, with the text of the report
unfoldable pub report_dropped : (ℕ → List ℕ) → LogConsole → LogConsole
report_dropped report c =
    if not (c.dropped == 0) && is_empty c.pend
    then (let (ok, d) = log_write (report c.dropped) c in
        if ok then record d { dropped = sub32 d.dropped c.dropped } else d)
    else c

-- the log: the ring and the console
pub record Log : Type 0 where
  pub ring : Ring
  pub console : LogConsole

-- log_out: `nocon` is LOG_NOCON, `shown` the line as the console gets it.
unfoldable pub log_out : (ℕ → List ℕ) → Bool → List ℕ → List ℕ → Log → Log
log_out report nocon line shown l =
    let ring = ring_put l.ring line in
    if nocon
    then record { ring = ring; console = l.console }
    else (let (ok, c) = log_write shown (report_dropped report l.console) in
        record { ring = ring; console = if ok then c else record c { dropped = inc32 c.dropped } })
