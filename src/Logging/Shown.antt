-- ===== src/Logging/Shown.antt =====
-- A line that goes to the console is shown whole or counted (src/logging.c).
use ninit.Prelude.{
  append_nil, ℕ, ◌+◌, ◌≤◌, ◌<◌, ◌≡◌, refl, sym, ap, ◌∙◌, Bool, true, false, not, ◌&&◌, List, [],
  ◌++◌, All, length, ◌==◌, if◌then◌else◌, if_keeps, arith, bit, inc32, sub32,
}
use ninit.Logging.Console.{LogConsole, is_empty, report_dropped, Log, log_out}
use ninit.Logging.Whole.{Works, IsWritten, log_write-IsWritten}

-- What a line did to the console: whether the report of earlier ones went before it, and whether
-- it is shown itself.
pub record IsShown (report : ℕ → List ℕ) (line : List ℕ) (c d : LogConsole) : Type 0 where
  pub reported : Bool
  pub shown : Bool
  pub text_is :
      d.out ++ d.pend
      ≡ ((c.out ++ c.pend) ++ (if reported then report c.dropped else []))
        ++ (if shown then line else [])
  pub count_is : d.dropped ≡ (if reported then 0 else c.dropped) + bit (not shown)
  pub room : length d.pend ≤ 1040
  pub works : All Works d.answers

record IsReported (report : ℕ → List ℕ) (c d : LogConsole) : Type 0 where
  reported : Bool
  text_is : d.out ++ d.pend ≡ (c.out ++ c.pend) ++ (if reported then report c.dropped else [])
  count_is : d.dropped ≡ (if reported then 0 else c.dropped)
  room : length d.pend ≤ 1040
  works : All Works d.answers

after_report :
    (report : ℕ → List ℕ) (c : LogConsole) (w : Bool × LogConsole)
    → c.dropped < 4294967296
    → IsWritten (report c.dropped) c w
    → IsReported report c
        (if w.0 then record w.1 { dropped = sub32 w.1.dropped c.dropped } else w.1)
after_report report c (true, d) few h = record {
  reported = true;
  text_is = h.text_is;
  count_is = omega (arith, h.same_dropped, few);
  room = h.room;
  works = h.works;
}
after_report report c (false, d) few h = record {
  reported = false;
  text_is = h.text_is;
  count_is = h.same_dropped;
  room = h.room;
  works = h.works;
}

after_line :
    (report : ℕ → List ℕ) (line : List ℕ) (c d : LogConsole) (w : Bool × LogConsole)
    → c.dropped + 1 < 4294967296
    → IsReported report c d
    → IsWritten line d w
    → IsShown report line c (if w.0 then w.1 else record w.1 { dropped = inc32 w.1.dropped })
after_line report line c d (true, e) few r h = record {
  reported = r.reported;
  shown = true;
  text_is = h.text_is ∙ ap (λ t. t ++ line) r.text_is;
  count_is = h.same_dropped ∙ r.count_is ∙ omega arith;
  room = h.room;
  works = h.works;
}
after_line report line c d (false, e) few r h = record {
  reported = r.reported;
  shown = false;
  text_is = h.text_is ∙ ap (λ t. t ++ []) r.text_is;
  count_is = ap inc32 (h.same_dropped ∙ r.count_is) ∙ at_most r.reported;
  room = h.room;
  works = h.works;
}
  where
    at_most : (b : Bool) → inc32 (if b then 0 else c.dropped) ≡ (if b then 0 else c.dropped) + 1
    at_most true = refl
    at_most false = omega (arith, few)

module _ (report : ℕ → List ℕ) (line con : List ℕ) (l : Log) (short : length con ≤ 1040)
    (brief : (n : ℕ) → length (report n) ≤ 1040) (h : All Works l.console.answers)
    (room : length l.console.pend ≤ 1040) (few : l.console.dropped + 1 < 4294967296) where
  report_dropped-IsReported : IsReported report l.console (report_dropped report l.console)
  unfolding report_dropped
  report_dropped-IsReported =
      let c = l.console in
      if_keeps (IsReported report c) (not (c.dropped == 0) && is_empty c.pend) _ _
        (λ _.
          after_report report c _ (omega arith)
            (log_write-IsWritten (report c.dropped) (brief c.dropped) c h room))
        (λ _. record {
          reported = false;
          text_is = sym (append_nil (c.out ++ c.pend));
          count_is = refl;
          room = room;
          works = h;
        })

  -- A line of at most LOG_CON bytes that goes to the console is shown whole or counted; a report
  -- of the lines counted before it takes their count away only where it is shown whole itself.
  pub log_out-IsShown : IsShown report con l.console (log_out report false line con l).console
  unfolding log_out
  log_out-IsShown =
      let first = report_dropped-IsReported in
      after_line report con l.console _ _ few first
        (log_write-IsWritten con short _ first.works first.room)
