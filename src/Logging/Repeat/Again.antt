-- ===== src/Logging/Repeat/Again.antt =====
-- Held lines that are logged after all (src/logging.c): the messages that log_again adds.
use ninit.Prelude.{
  ℕ, zero, suc, ◌+◌, ◌-◌, ◌%◌, ◌<◌, ◌≤◌, ◌≡◌, refl, sym, subst, ap, ◌∙◌, some, List, [], ◌∷◌, ◌++◌,
  take, drop, length, length-take, All, arith,
}
use ninit.Supervisor.Output.Tail.{append_assoc, drop-append, drop_all}
use ninit.Logging.Repeat.{
  Seen, Repeats, Printer, seen_back, log_emit, log_again, log_head, level_of, again_all,
}
use ninit.Logging.Repeat.Marks.{
  Mark, mark, messages, expand, nth, nth-some, nth-below, some_injective, take_more, Short,
  IsTracked, log_emit-IsTracked, log_again-log_emit, again_body, length-again_body,
}

-- From s to t the messages `added` are logged, and nothing else is said.
pub record Adds (added : List Mark) (s t : Repeats) : Type 0 where
  pub tracked : IsTracked t
  pub messages_are : messages t.said ≡ added ++ messages s.said
  pub expand_is : expand t.said ≡ added ++ expand s.said
  pub same_len : t.rep_len ≡ s.rep_len
  pub same_pos : t.rep_pos ≡ s.rep_pos
  pub same_count : t.rep_count ≡ s.rep_count
  pub same_backoff : t.rep_backoff ≡ s.rep_backoff

both_added : (a b : List Mark) (s t u : Repeats) → Adds a s t → Adds b t u → Adds (b ++ a) s u
both_added a b s t u f g = record {
  tracked = g.tracked;
  messages_are =
      g.messages_are ∙ ap (λ l. b ++ l) f.messages_are ∙ sym (append_assoc b a (messages s.said));
  expand_is = g.expand_is ∙ ap (λ l. b ++ l) f.expand_is ∙ sym (append_assoc b a (expand s.said));
  same_len = g.same_len ∙ f.same_len;
  same_pos = g.same_pos ∙ f.same_pos;
  same_count = g.same_count ∙ f.same_count;
  same_backoff = g.same_backoff ∙ f.same_backoff;
}

-- The oldest message of a block goes round to its front.
turned :
    (l n : ℕ) (xs : List Mark) (x : Mark)
    → n ≤ l
    → nth l xs ≡ some x
    → drop (suc l - n) (take (suc l) (x ∷ xs)) ++ (x ∷ []) ≡ drop (l - n) (take (suc l) xs)
turned l n xs x le e =
    let fewer : suc l - n ≡ suc (l - n) = omega arith in
    let size = length-take l xs (omega (arith, nth-below l xs x e)) in
    let none_off : l - n - length (take l xs) ≡ 0 = omega (arith, size) in
    rw (fewer, take_more l xs x e)
      (sym (
        drop-append (l - n) (take l xs) (x ∷ [])
        ∙ ap (λ k. drop (l - n) (take l xs) ++ drop k (x ∷ [])) none_off))

all_nth : (k : ℕ) (xs : List Mark) (x : Mark) → All Short xs → nth k xs ≡ some x → Short x
all_nth k [] x h e = absurd (grind (arith, e))
all_nth zero (y ∷ ys) x h e = subst Short (some_injective e) h.0
all_nth (suc k) (y ∷ ys) x h e = all_nth k ys x h.1 e

module _ (p : Printer) where
  log_again-Adds :
      (e : Seen) (ms : ℕ) (s : Repeats)
      → IsTracked s
      → s.seen_n + 1 < 4294967296
      → Short (mark e)
      → Adds (mark e ∷ []) s (log_again p e ms s)
  unfolding log_emit
  log_again-Adds e ms s t few short =
      let body = length-again_body p e s short.0 in
      let small : length (again_body p e s) % 65536 ≡ e.len = omega (arith, body, short) in
      subst (Adds (mark e ∷ []) s) (sym (log_again-log_emit p e ms s short)) (record {
        tracked =
            log_emit-IsTracked p e.key ms (log_head p (level_of e.key) ms) (again_body p e s) e.hash
              s t few (omega (arith, body, short)) (omega (arith, body, short));
        messages_are =
            ap (λ n. record { key = e.key; hash = e.hash; len = n } ∷ messages s.said) small;
        expand_is = ap (λ n. record { key = e.key; hash = e.hash; len = n } ∷ expand s.said) small;
        same_len = refl;
        same_pos = refl;
        same_count = refl;
        same_backoff = refl;
      })

  -- Logging the last message but l so many times repeats the start of the block.
  again_all-Adds :
      (l : ℕ) (ms : ℕ → ℕ) (ks : List ℕ) (s : Repeats)
      → l < 32
      → l < length (messages s.said)
      → length ks ≤ suc l
      → s.seen_n + length ks < 4294967296
      → IsTracked s
      → Adds
          (drop (suc l - length ks) (take (suc l) (messages s.said)))
          s
          (again_all p (suc l) ms ks s)
  unfolding again_all
  again_all-Adds l ms [] s small more le few t =
      let size = length-take (suc l) (messages s.said) (omega arith) in
      subst (λ a. Adds a s s)
        (sym (drop_all (suc l - 0) (take (suc l) (messages s.said)) (omega (arith, size))))
        (record {
          tracked = t;
          messages_are = refl;
          expand_is = refl;
          same_len = refl;
          same_pos = refl;
          same_count = refl;
          same_backoff = refl;
        })
  again_all-Adds l ms (k ∷ ks) s small more le few t =
      let older = messages s.said in
      let e = seen_back (suc l) s in
      let (x, q) = nth-some l older more in
      let one : suc l ≡ l + 1 = omega arith in
      let marked : mark e ≡ x = ap (λ b. mark (seen_back b s)) one ∙ t.tracks l x small q in
      let first =
        log_again-Adds e (ms k) s t (omega (arith, few))
          (subst Short (sym marked) (all_nth l older x t.lens q)) in
      let s1 = log_again p e (ms k) s in
      let size = ap length first.messages_are in
      let rest =
        again_all-Adds l ms ks s1 small (omega (arith, size, more)) (omega (arith, le))
          (omega (arith, few, size, first.tracked.size, t.size)) first.tracked in
      let last : suc l - length (k ∷ ks) ≡ l - length ks = omega arith in
      subst (λ a. Adds a s (again_all p (suc l) ms ks s1))
        (ap (λ m. drop (suc l - length ks) (take (suc l) m) ++ (mark e ∷ [])) first.messages_are
          ∙ ap (λ m. drop (suc l - length ks) (take (suc l) (m ∷ older)) ++ (m ∷ [])) marked
          ∙ turned l (length ks) older x (omega (arith, le)) q
          ∙ ap (λ n. drop n (take (suc l) older)) (sym last))
        (both_added (mark e ∷ []) _ s s1 _ first rest)

  -- The same for any length, with as many times as the block has messages at most.
  pub again_block :
      (len : ℕ) (ms : ℕ → ℕ) (ks : List ℕ) (s : Repeats)
      → len ≤ 32
      → len ≤ length (messages s.said)
      → length ks ≤ len
      → s.seen_n + length ks < 4294967296
      → IsTracked s
      → Adds (drop (len - length ks) (take len (messages s.said))) s (again_all p len ms ks s)
  unfolding again_all
  again_block zero ms [] s small more le few t = record {
    tracked = t;
    messages_are = refl;
    expand_is = refl;
    same_len = refl;
    same_pos = refl;
    same_count = refl;
    same_backoff = refl;
  }
  again_block zero ms (k ∷ ks) s small more le few t = absurd (omega arith)
  again_block (suc l) ms ks s small more le few t =
      again_all-Adds l ms ks s (omega arith) (omega arith) le few t
