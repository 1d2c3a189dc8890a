-- ===== src/Logging/Repeat.antt =====
-- Repeated lines of the log (src/logging.c): the last lines logged, the repetitions that are held
-- back, ninit_log and log_tick.
pub mod Marks
pub mod Again
pub mod Folded
pub mod Kept
pub mod Logged
pub mod Calls
use ninit.Prelude.{
  ℕ, zero, suc, ◌+◌, ◌-◌, ◌*◌, ◌/◌, ◌%◌, Bool, true, false, not, Option, none, some, ◌||◌, ◌&&◌,
  List, [], ◌∷◌, ◌++◌, take, ◌==◌, ltb, leb, length, range, if◌then◌else◌, update, inc32, sub32,
}
use ninit.Supervisor.Due.{ms_until}
use ninit.Logging.{Ring, ring_get, add64}
use ninit.Logging.Console.{Log, log_out}

-- The texts that snprintf makes: the prefix of a tag and a time, plain and in colour, the line
-- about a block that repeats, and the report of dropped messages. `color` is log_color.
pub record Printer : Type 0 where
  pub plain : ℕ → ℕ → List ℕ
  pub tinted : ℕ → ℕ → List ℕ
  pub color : Bool
  pub repeated : ℕ → ℕ → List ℕ
  pub report : ℕ → List ℕ

-- struct seen
pub record Seen : Type 0 where
  pub at : ℕ
  pub hash : ℕ
  pub len : ℕ
  pub key : ℕ

-- what the log is given to write: a line, or that the last `len` lines were repeated
pub data Said : Type 0 where
  line : Seen → Said
  block : ℕ → ℕ → Said

-- The variables of the repetition, the log that is written, and what was said, the newest first.
pub record Repeats : Type 0 where
  pub seen : ℕ → Seen
  pub seen_n : ℕ
  pub rep_len : ℕ
  pub rep_pos : ℕ
  pub rep_count : ℕ
  pub rep_backoff : ℕ
  pub rep_ms : ℕ
  pub rep_due : ℕ
  pub hold_due : ℕ
  pub hold_ms : ℕ → ℕ
  pub first_ms : ℕ → ℕ
  pub log : Log
  pub said : List Said

-- key & ~LOG_NOCON and the bit itself, for a number below 32
abbrev pub level_of : ℕ → ℕ
level_of key = key - 16 * (key / 16 % 2)

abbrev pub nocon_of : ℕ → ℕ
nocon_of key = key / 16 % 2

-- the exclusive or of the low bits
unfoldable pub xor_bits : ℕ → ℕ → ℕ → ℕ
xor_bits zero a b = 0
xor_bits (suc bits) a b = (a + b) % 2 + 2 * xor_bits bits (a / 2) (b / 2)

unfoldable pub hash_bytes : ℕ → List ℕ → ℕ
hash_bytes h [] = h
hash_bytes h (c ∷ cs) = hash_bytes ((xor_bits 32 h c * 16777619) % 4294967296) cs

unfoldable pub body_hash : ℕ → List ℕ → ℕ
body_hash key s = hash_bytes (xor_bits 32 2166136261 key) s

-- repeat_ms
unfoldable pub repeat_wait : ℕ → ℕ
repeat_wait zero = 30000
repeat_wait (suc zero) = 120000
repeat_wait (suc (suc n)) = 600000

unfoldable pub same_bytes : List ℕ → List ℕ → Bool
same_bytes [] [] = true
same_bytes [] (y ∷ ys) = false
same_bytes (x ∷ xs) [] = false
same_bytes (x ∷ xs) (y ∷ ys) = x == y && same_bytes xs ys

unfoldable pub seen_back : ℕ → Repeats → Seen
seen_back back s = s.seen (sub32 s.seen_n back % 32)

unfoldable pub seen_is : Seen → ℕ → ℕ → List ℕ → Repeats → Bool
seen_is e key h body s =
    e.key == key
    && (e.hash == h
        && (e.len == length body
            && (leb s.log.ring.tail e.at
                && same_bytes (ring_get s.log.ring e.at (length body)) body)))

-- the loop of seen_twice, over the ks
unfoldable pub seen_twice : ℕ → List ℕ → Repeats → Bool
seen_twice len [] s = true
seen_twice len (k ∷ ks) s =
    let a = seen_back k s in
    let b = seen_back (k + len) s in
    (a.key == b.key && (a.hash == b.hash && a.len == b.len)) && seen_twice len ks s

-- the loop of rep_find, over the lengths of blocks
unfoldable pub find_block : List ℕ → ℕ → ℕ → List ℕ → Repeats → ℕ
find_block [] key h body s = 0
find_block (len ∷ lens) key h body s =
    let rest = find_block lens key h body s in
    if ltb s.seen_n (2 * len)
    then 0
    else if seen_is (seen_back len s) key h body s && seen_twice len (range 1 len) s
    then len
    else rest

unfoldable pub rep_find : ℕ → ℕ → List ℕ → Repeats → ℕ
rep_find key h body s =
    if not (s.seen_n == 0) && seen_is (seen_back 1 s) key h body s
    then 1
    else find_block (range 2 15) key h body s

-- the loop of rep_key, over the ks: the level, and whether LOG_NOCON is left
unfoldable pub block_level : List ℕ → ℕ → Repeats → ℕ
block_level [] level s = level
block_level (k ∷ ks) level s =
    let key = level_of (seen_back k s).key in
    block_level ks (if key == 3 then 3 else if key == 2 && not (level == 3) then 2 else level) s

unfoldable pub block_nocon : List ℕ → ℕ → Repeats → ℕ
block_nocon [] nocon s = nocon
block_nocon (k ∷ ks) nocon s = block_nocon ks (nocon * nocon_of (seen_back k s).key) s

unfoldable pub rep_key : Repeats → ℕ
rep_key s = block_level (range 1 s.rep_len) 5 s + 16 * block_nocon (range 1 s.rep_len) 1 s

-- log_due, none for -1
unfoldable pub log_due : ℕ → Repeats → Option ℕ
log_due now s =
    let first = if s.rep_pos == 0 then s.rep_due else s.hold_due in
    let due =
      if not (s.rep_pos == 0) && (not (s.rep_count == 0) && ltb s.rep_due first)
      then s.rep_due
      else first in
    if s.rep_pos == 0 && s.rep_count == 0 then none else some (ms_until due now)

module _ (p : Printer) where
  unfoldable pub log_head : ℕ → ℕ → List ℕ
  log_head level ms = if level == 1 then [] else take 64 (p.plain level ms)

  -- log_out, with the console's form of the line
  unfoldable pub print_line : ℕ → ℕ → List ℕ → List ℕ → Log → Log
  print_line key ms head body l =
      let shown =
        if not p.color || length head == 0
        then head ++ body
        else take 64 (p.tinted (level_of key) ms) ++ body in
      log_out p.report (nocon_of key == 1) (head ++ body) shown l

  unfoldable pub log_emit : ℕ → ℕ → List ℕ → List ℕ → ℕ → Repeats → Repeats
  log_emit key ms head body h s =
      let e : Seen = record {
        at = add64 s.log.ring.head (length head);
        hash = h;
        len = length body % 65536;
        key = key;
      } in
      record s {
        seen = update s.seen (s.seen_n % 32) e;
        seen_n = inc32 s.seen_n;
        log = print_line key ms head body s.log;
        said = line e ∷ s.said;
      }

  unfoldable pub log_again : Seen → ℕ → Repeats → Repeats
  log_again e ms s =
      let head = log_head (level_of e.key) ms in
      let room = 1023 - length head in
      let n = if ltb room e.len then room else e.len in
      let body = take (n - 1) (ring_get s.log.ring e.at n) ++ (10 ∷ []) in
      log_emit e.key ms head body (if n == e.len then e.hash else body_hash e.key body) s

  -- log_again of seen_back(rep_len), for each of the times
  unfoldable pub again_all : ℕ → (ℕ → ℕ) → List ℕ → Repeats → Repeats
  again_all len ms [] s = s
  again_all len ms (k ∷ ks) s = again_all len ms ks (log_again (seen_back len s) (ms k) s)

  unfoldable pub rep_flush : Repeats → Repeats
  rep_flush s =
      let key = rep_key s in
      let head = take 64 (p.plain (level_of key) s.rep_ms) in
      if s.rep_count == 1
      then again_all s.rep_len s.first_ms (range 0 s.rep_len) (record s { rep_count = 0 })
      else if s.rep_count == 0
      then s
      else record s {
        rep_count = 0;
        log = print_line key s.rep_ms head (p.repeated s.rep_len s.rep_count) s.log;
        said = block s.rep_len s.rep_count ∷ s.said;
      }

  unfoldable pub rep_break : Repeats → Repeats
  rep_break s = record (again_all s.rep_len s.hold_ms (range 0 s.rep_pos) (rep_flush s)) {
    rep_len = 0;
    rep_pos = 0;
    rep_backoff = 0;
  }

  unfoldable pub log_tick : ℕ → Repeats → Repeats
  log_tick now s =
      let flushed = rep_flush s in
      if s.rep_pos == 0 && s.rep_count == 0
      then s
      else if not (s.rep_pos == 0) && leb s.hold_due now
      then rep_break s
      else if not (s.rep_count == 0) && leb s.rep_due now
      then record flushed {
        rep_backoff =
            if ltb (flushed.rep_backoff + 1) 3
            then flushed.rep_backoff + 1
            else flushed.rep_backoff;
      }
      else s

  -- the end of ninit_log: the line is the next one of the block
  unfoldable pub hold : ℕ → ℕ → Repeats → Repeats
  hold ms now s =
      let pos = s.rep_pos + 1 in
      let held = record s {
        hold_due = if s.rep_pos == 0 && ltb 1 s.rep_len then now + 1000 else s.hold_due;
        hold_ms = update s.hold_ms s.rep_pos ms;
        rep_pos = pos;
      } in
      if ltb pos s.rep_len then held else record held {
        rep_pos = 0;
        rep_ms = ms;
        rep_count = inc32 s.rep_count;
        first_ms = if s.rep_count == 0 then held.hold_ms else s.first_ms;
        rep_due = if s.rep_count == 0 then now + repeat_wait s.rep_backoff else s.rep_due;
      }

  -- ninit_log at the time `ms` since the start, when mono_ms gives `now`, for the text that
  -- vsnprintf makes
  unfoldable pub ninit_log : ℕ → List ℕ → ℕ → ℕ → Repeats → Repeats
  ninit_log raw text ms now s =
      let level = if ltb (level_of raw) 6 then level_of raw else 1 in
      let key = level + 16 * nocon_of raw in
      let head = log_head level ms in
      let body = take (1022 - length head) text ++ (10 ∷ []) in
      let h = body_hash key body in
      let s1 =
        if not (s.rep_len == 0)
          && not (seen_is (seen_back (sub32 s.rep_len s.rep_pos) s) key h body s)
        then rep_break s
        else s in
      let s2 = if s1.rep_len == 0 then record s1 { rep_len = rep_find key h body s1 } else s1 in
      if s2.rep_len == 0 then log_emit key ms head body h s2 else hold ms now s2
