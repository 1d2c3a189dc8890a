-- ===== src/Logging/Repeat/Calls.antt =====
-- The log under any calls of ninit_log and log_tick (src/logging.c), and the wait of log_due.
use ninit.Prelude.{
  ℕ, ◌+◌, ◌<◌, ◌≤◌, ◌≡◌, inl, inr, refl, some, none, List, [], ◌∷◌, length, ltb, leb, ◌==◌, ==_iff,
  All, if◌then◌else◌, if_keeps, false, arith, not, ◌&&◌,
}
use ninit.Logging.Lines.{both}
use ninit.Supervisor.Due.{ms_until}
use ninit.Logging.Console.{Log}
use ninit.Logging.Repeat.{Repeats, Printer, rep_break, log_tick, log_due, ninit_log}
use ninit.Logging.Repeat.Marks.{Mark, expand}
use ninit.Logging.Repeat.Folded.{
  IsFolding, rep_break-whole, rep_flush-IsFlushed, rep_break-IsFolding, seen_n-le,
}
use ninit.Logging.Repeat.Kept.{log_tick-IsFolding}
use ninit.Logging.Repeat.Logged.{line_mark, ninit_log-IsFolding}

-- a call of ninit_log with its level, text and times, or of log_tick
pub data Call : Type 0 where
  logged : ℕ → List ℕ → ℕ → ℕ → Call
  ticked : ℕ → Call

-- the log when the program starts
abbrev pub fresh : Log → Repeats
fresh l = record {
  seen = λ i. record { at = 0; hash = 0; len = 0; key = 0 };
  seen_n = 0;
  rep_len = 0;
  rep_pos = 0;
  rep_count = 0;
  rep_backoff = 0;
  rep_ms = 0;
  rep_due = 0;
  hold_due = 0;
  hold_ms = λ i. 0;
  first_ms = λ i. 0;
  log = l;
  said = [];
}

abbrev pub IsShort : Call → Type 0
IsShort (logged raw text ms now) = length text ≤ 958
IsShort (ticked now) = Unit

module _ (p : Printer) where
  abbrev pub call : Call → Repeats → Repeats
  call (logged raw text ms now) s = ninit_log p raw text ms now s
  call (ticked now) s = log_tick p now s

  -- the calls, the last one first
  abbrev pub run_calls : List Call → Repeats → Repeats
  run_calls [] s = s
  run_calls (c ∷ cs) s = call c (run_calls cs s)

  -- the lines that they log, the last one first
  abbrev pub lines_logged : List Call → List Mark
  lines_logged [] = []
  lines_logged (logged raw text ms now ∷ cs) = line_mark p raw text ms ∷ lines_logged cs
  lines_logged (ticked now ∷ cs) = lines_logged cs

  lines_logged-length : (cs : List Call) → length (lines_logged cs) ≤ length cs
  lines_logged-length [] = omega arith
  lines_logged-length (logged raw text ms now ∷ cs) = omega (arith, lines_logged-length cs)
  lines_logged-length (ticked now ∷ cs) = omega (arith, lines_logged-length cs)

  -- After any calls with texts of at most 958 bytes, fewer than 2^32 - 16 of them, every line is
  -- said or held, in its order, and the indices of the repetition are in their arrays.
  pub run_calls-IsFolding :
      (cs : List Call) (l : Log)
      → All IsShort cs
      → length cs + 17 < 4294967296
      → IsFolding (lines_logged cs) (run_calls cs (fresh l))
  run_calls-IsFolding [] l h few = record {
    tracked = record { size = refl; tracks = λ k m i e. absurd (grind (arith, e)); lens = tt };
    len_le = omega arith;
    within = omega arith;
    pos_lt = inr (refl, refl, refl);
    backoff_lt = omega arith;
    history_is = refl;
  }
  run_calls-IsFolding (logged raw text ms now ∷ cs) l h few =
      ninit_log-IsFolding p (lines_logged cs) raw text ms now (run_calls cs (fresh l))
        (run_calls-IsFolding cs l h.1 (omega (arith, few))) h.0
        (omega (arith, few, lines_logged-length cs))
  run_calls-IsFolding (ticked now ∷ cs) l h few =
      log_tick-IsFolding p (lines_logged cs) (run_calls cs (fresh l))
        (run_calls-IsFolding cs l h.1 (omega (arith, few)))
        (omega (arith, few, lines_logged-length cs)) now

  -- After such calls rep_break leaves nothing held: what the log has said, with "last n messages
  -- repeated" read as these messages again, is every line that was logged, in order.
  pub run_calls-whole :
      (cs : List Call) (l : Log)
      → All IsShort cs
      → length cs + 17 < 4294967296
      → expand (rep_break p (run_calls cs (fresh l))).said ≡ lines_logged cs
  run_calls-whole cs l h few =
      rep_break-whole p (lines_logged cs) (run_calls cs (fresh l)) (run_calls-IsFolding cs l h few)
        (omega (arith, few, lines_logged-length cs))

  -- A wait that is over is that of a timer that acts.
  acts :
      (pos count held_due count_due now : ℕ)
      → (if pos == 0 && count == 0
          then none
          else some (
              ms_until
                (if not (pos == 0)
                    && (not (count == 0)
                        && ltb count_due (if pos == 0 then count_due else held_due))
                  then count_due
                  else if pos == 0
                  then count_due
                  else held_due)
                now))
        ≡ some 0
      → (not (pos == 0) && leb held_due now) ≡ false
      → ¬ ((not (count == 0) && leb count_due now) ≡ false)
  acts pos count held_due count_due now e f g = ground arith

  broken :
      {history : List Mark} (s : Repeats)
      → IsFolding history (rep_break p s)
      → (rep_break p s).rep_count ≡ 0
  unfolding rep_break
  broken s f = elim f.pos_lt [ inl l ↦ absurd (omega (arith, l)) | inr z ↦ z.2 ]

  -- When the wait that log_due gives is over, log_tick says the repetitions that are held.
  pub log_due-log_tick :
      (history : List Mark) (s : Repeats) (now : ℕ)
      → IsFolding history s
      → length history + 17 < 4294967296
      → log_due now s ≡ some 0
      → (log_tick p now s).rep_count ≡ 0
  unfolding log_tick log_due
  log_due-log_tick history s now f few e =
      if_keeps {A = Repeats} (λ t. t.rep_count ≡ 0) (s.rep_pos == 0 && s.rep_count == 0) s _
        (λ q. (==_iff s.rep_count 0).0 (both _ _ q).1)
        (λ _.
          if_keeps {A = Repeats} (λ t. t.rep_count ≡ 0) (not (s.rep_pos == 0) && leb s.hold_due now)
            _ _ (λ _. broken s (rep_break-IsFolding p history s f (omega (arith, few))))
            (λ g.
              if_keeps {A = Repeats} (λ t. t.rep_count ≡ 0)
                (not (s.rep_count == 0) && leb s.rep_due now) _ s
                (λ _.
                  (rep_flush-IsFlushed p history s f
                    (omega (arith, seen_n-le history s f, few))).no_count)
                (λ h. absurd (acts s.rep_pos s.rep_count s.hold_due s.rep_due now e g h))))
