-- ===== src/Logging/Whole.antt =====
-- A line reaches the console whole or not at all (src/logging.c).
use ninit.Prelude.{
  append_nil, ℕ, ◌≤◌, ◌≡◌, refl, sym, ap, ◌∙◌, Bool, true, false, not, ◌||◌, ◌&&◌, Bool-cases, inl,
  inr, List, [], ◌∷◌, ◌++◌, take, drop, take-append-drop, All, length, length-append, ◌==◌, ==_iff,
  ltb, leb, if◌then◌else◌, if_keeps, arith,
}
use ninit.Supervisor.Output.Tail.{append_assoc}
use ninit.Logging.Console.{
  Answer, takes, interrupted, refuses, fails, LogConsole, Pushed, is_empty, push_loop, log_push,
  write_line, log_write,
}

-- No answer is a hard error.
abbrev pub Works : Answer → Type 0
Works fails = ⊥
Works a = Unit

-- What log_push did of `buf` from the console c on: it took a part from its start.
record IsPushed (buf : List ℕ) (c : LogConsole) (p : Pushed) : Type 0 where
  taken : List ℕ
  out_is : p.console.out ≡ c.out ++ taken
  buf_is : buf ≡ taken ++ p.left
  no_error : p.failed ≡ false
  same_pend : p.console.pend ≡ c.pend
  same_dropped : p.console.dropped ≡ c.dropped
  works : All Works p.console.answers

stopped :
    (buf : List ℕ) (c : LogConsole) (stalled : Bool) (later : List Answer)
    → All Works later
    → IsPushed buf c (record {
      left = buf;
      failed = false;
      console = record c { stalled = stalled; answers = later };
    })
stopped buf c stalled later h = record {
  taken = [];
  out_is = sym (append_nil c.out);
  buf_is = refl;
  no_error = refl;
  same_pend = refl;
  same_dropped = refl;
  works = h;
}

push_loop-IsPushed :
    (wait : Bool) (answers : List Answer) (buf : List ℕ) (deadline : ℕ) (c : LogConsole)
    → All Works answers
    → IsPushed buf c (push_loop wait answers buf deadline c)
unfolding push_loop
push_loop-IsPushed wait [] buf deadline c h = stopped buf c c.stalled [] h
push_loop-IsPushed wait (a ∷ later) [] deadline c h = stopped [] c c.stalled (a ∷ later) h
push_loop-IsPushed wait (takes k ∷ later) (x ∷ xs) deadline c h =
    let rest =
      push_loop-IsPushed wait later (drop k xs) deadline
        (record c { out = c.out ++ (x ∷ take k xs); stalled = false }) h.1 in
    record {
      taken = (x ∷ take k xs) ++ rest.taken;
      out_is = rest.out_is ∙ append_assoc c.out (x ∷ take k xs) rest.taken;
      buf_is =
          ap (λ t. x ∷ t) (sym (take-append-drop k xs))
          ∙ ap (λ t. (x ∷ take k xs) ++ t) rest.buf_is
          ∙ sym (append_assoc (x ∷ take k xs) rest.taken _);
      no_error = rest.no_error;
      same_pend = rest.same_pend;
      same_dropped = rest.same_dropped;
      works = rest.works;
    }
push_loop-IsPushed wait (interrupted ∷ later) (x ∷ xs) deadline c h =
    push_loop-IsPushed wait later (x ∷ xs) deadline c h.1
push_loop-IsPushed wait (fails ∷ later) (x ∷ xs) deadline c h = absurd h.0
push_loop-IsPushed wait (refuses now ∷ later) (x ∷ xs) deadline c h =
    let P = IsPushed (x ∷ xs) c in
    let here = stopped (x ∷ xs) c c.stalled later h.1 in
    let rest = push_loop-IsPushed wait later (x ∷ xs) _ c h.1 in
    if_keeps P (not wait) _ _ (λ _. here)
      (λ _.
        if_keeps P (c.stalled || leb c.wait_until now) _ _ (λ _. here)
          (λ _.
            if_keeps P (not (deadline == 0) && leb deadline now) _ _
              (λ _. stopped (x ∷ xs) c true later h.1) (λ _. rest)))

-- What log_write did of `buf`: all of it or none of it is with the console or waits for it.
pub record IsWritten (buf : List ℕ) (c : LogConsole) (w : Bool × LogConsole) : Type 0 where
  pub text_is : w.1.out ++ w.1.pend ≡ (c.out ++ c.pend) ++ (if w.0 then buf else [])
  pub room : length w.1.pend ≤ 1040
  pub same_dropped : w.1.dropped ≡ c.dropped
  pub works : All Works w.1.answers

is_empty_nil : (xs : List ℕ) → is_empty xs ≡ true → xs ≡ []
is_empty_nil [] e = refl
is_empty_nil (x ∷ xs) e = absurd (grind (arith, e))

no_more : (xs ys : List ℕ) → length (xs ++ ys) ≡ length ys → xs ≡ []
no_more [] ys e = refl
no_more (x ∷ xs) ys e = absurd (omega (arith, length-append xs ys))

module _ (buf : List ℕ) (c : LogConsole) (empty : c.pend ≡ []) where
  from_out : (b : List ℕ) → c.out ++ b ≡ (c.out ++ c.pend) ++ b
  from_out b = ap (λ o. o ++ b) (sym (append_nil c.out) ∙ ap (λ t. c.out ++ t) (sym empty))

  module _ (p : Pushed) (done : IsPushed buf c p) where
    with_rest : p.console.out ++ p.left ≡ (c.out ++ c.pend) ++ buf
    with_rest =
        ap (λ o. o ++ p.left) done.out_is
        ∙ append_assoc c.out done.taken p.left
        ∙ ap (λ t. c.out ++ t) (sym done.buf_is)
        ∙ from_out buf

    all-IsWritten : p.left ≡ [] → IsWritten buf c (true, p.console)
    all-IsWritten e = record {
      text_is = ap (λ t. p.console.out ++ t) (done.same_pend ∙ empty ∙ sym e) ∙ with_rest;
      room = omega (arith, ap length (done.same_pend ∙ empty));
      same_dropped = done.same_dropped;
      works = done.works;
    }

    none-IsWritten : length p.left ≡ length buf → IsWritten buf c (false, p.console)
    none-IsWritten e =
        let nothing : done.taken ≡ [] =
          no_more done.taken p.left (ap length (sym done.buf_is) ∙ sym e) in
        record {
          text_is =
              ap (λ t. p.console.out ++ t) (done.same_pend ∙ empty)
              ∙ append_nil p.console.out
              ∙ done.out_is
              ∙ ap (λ t. c.out ++ t) nothing
              ∙ from_out [];
          room = omega (arith, ap length (done.same_pend ∙ empty));
          same_dropped = done.same_dropped;
          works = done.works;
        }

either_of : (a b c : Bool) → a ≡ false → (a || b || c) ≡ true → c ≡ false → b ≡ true
either_of a b c e h k = ground arith

module _ (buf : List ℕ) (short : length buf ≤ 1040) where
  write_line-IsWritten :
      (c : LogConsole) → All Works c.answers → c.pend ≡ [] → IsWritten buf c (write_line buf c)
  unfolding write_line log_push
  write_line-IsWritten c h e =
      let p = log_push true buf c in
      let done = push_loop-IsPushed true c.answers buf 0 c h in
      let size : length p.left ≤ length buf =
        omega (arith, ap length done.buf_is, length-append done.taken p.left) in
      let fits : ltb 1040 (length p.left) ≡ false = ground (arith, size, short) in
      if_keeps (IsWritten buf c) (not p.failed && is_empty p.left) _ _
        (λ all. all-IsWritten buf c e p done (is_empty_nil p.left (ground (arith, all))))
        (λ _.
          if_keeps (IsWritten buf c)
            (p.failed || length p.left == length buf || ltb 1040 (length p.left)) _ _
            (λ none. none-IsWritten buf c e p done (
              (==_iff (length p.left) (length buf)).0
                (either_of p.failed _ _ done.no_error none fits)))
            (λ _. record {
              text_is = with_rest buf c e p done;
              room = omega (arith, size);
              same_dropped = done.same_dropped;
              works = done.works;
            }))

  -- Where the console gives no hard error, log_write hands a line of at most LOG_CON bytes over
  -- whole, part of it perhaps to be written later, or not at all, and says which.
  pub log_write-IsWritten :
      (c : LogConsole)
      → All Works c.answers
      → length c.pend ≤ 1040
      → IsWritten buf c (log_write buf c)
  unfolding log_write log_push
  log_write-IsWritten c h room = elim (Bool-cases (is_empty c.pend)) [
    | inl e ↦ rw e (write_line-IsWritten c h (is_empty_nil c.pend e))
    | inr e ↦ rw e (
        if_keeps (IsWritten buf c) p.failed _ _
          (λ failed. absurd (grind (arith, sym failed ∙ done.no_error)))
          (λ _.
            if_keeps (IsWritten buf c) (not (is_empty p.left)) _ _
              (λ _. record {
                text_is = earlier ∙ sym (append_nil (c.out ++ c.pend));
                room = omega (arith, room, ap length done.buf_is, length-append done.taken p.left);
                same_dropped = done.same_dropped;
                works = done.works;
              })
              (λ all. after (is_empty_nil p.left (ground (arith, all))))))
  ]
    where
      p : Pushed
      p = push_loop true c.answers c.pend 0 c

      done : IsPushed c.pend c p
      done = push_loop-IsPushed true c.answers c.pend 0 c h

      earlier : p.console.out ++ p.left ≡ c.out ++ c.pend
      earlier =
          ap (λ o. o ++ p.left) done.out_is
          ∙ append_assoc c.out done.taken p.left
          ∙ ap (λ t. c.out ++ t) (sym done.buf_is)

      after : p.left ≡ [] → IsWritten buf c (write_line buf (record p.console { pend = [] }))
      after e =
          let rest = write_line-IsWritten (record p.console { pend = [] }) done.works refl in
          record {
            text_is =
                rest.text_is
                ∙ ap
                    (λ t.
                      t
                      ++ (if (write_line buf (record p.console { pend = [] })).0 then buf else []))
                    (ap (λ t. p.console.out ++ t) (sym e) ∙ earlier);
            room = rest.room;
            same_dropped = rest.same_dropped ∙ done.same_dropped;
            works = rest.works;
          }
