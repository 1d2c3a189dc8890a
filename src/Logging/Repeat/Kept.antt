-- ===== src/Logging/Repeat/Kept.antt =====
-- ninit_log and log_tick keep what was logged (src/logging.c): the log says it or holds it.
use ninit.Prelude.{
  ℕ, zero, suc, ◌+◌, ◌-◌, ◌<◌, ◌≤◌, ◌≡◌, inl, refl, sym, ap, ◌∙◌, some, List, [], ◌∷◌, ◌++◌, take,
  drop, length, length-append, length-take, ltb, leb, ◌==◌, if_keeps, arith, not, ◌&&◌, inc32,
  sub32,
}
use ninit.Supervisor.Output.Tail.{drop_all}
use ninit.Logging.Repeat.{Repeats, Printer, seen_back, rep_flush, log_tick, hold}
use ninit.Logging.Repeat.Marks.{Mark, mark, messages, expand, copies, nth, nth-some, some_injective}
use ninit.Logging.Repeat.Folded.{
  with_held, IsFolding, seen_n-le, rep_flush-IsFlushed, rep_break-IsFolding,
}

drop-nth : (k : ℕ) (xs : List Mark) (x : Mark) → nth k xs ≡ some x → drop k xs ≡ x ∷ drop (suc k) xs
drop-nth k [] x e = absurd (grind (arith, e))
drop-nth zero (y ∷ ys) x e = ap (λ z. z ∷ ys) (some_injective e)
drop-nth (suc k) (y ∷ ys) x e = drop-nth k ys x e

nth-take : (k n : ℕ) (xs : List Mark) → k < n → nth k (take n xs) ≡ nth k xs
nth-take k zero xs l = absurd (omega arith)
nth-take k (suc n) [] l = refl
nth-take zero (suc n) (x ∷ xs) l = refl
nth-take (suc k) (suc n) (x ∷ xs) l = nth-take k n xs (omega arith)

length-copies : (n : ℕ) (b : List Mark) → 1 ≤ length b → n ≤ length (copies n b)
length-copies zero b l = omega arith
length-copies (suc n) b l = omega (arith, length-copies n b l, length-append b (copies n b))

module _ (p : Printer) (history : List Mark) (s : Repeats) (f : IsFolding history s)
    (few : length history + 17 < 4294967296) where
  -- The timer says what is held when it is due, and loses none of it.
  pub log_tick-IsFolding : (now : ℕ) → IsFolding history (log_tick p now s)
  unfolding log_tick seen_back
  log_tick-IsFolding now =
      let size = seen_n-le history s f in
      let calm = rep_flush-IsFlushed p history s f (omega (arith, size, few)) in
      let g = calm.folding in
      if_keeps (IsFolding history) (s.rep_pos == 0 && s.rep_count == 0) s _ (λ _. f)
        (λ _.
          if_keeps (IsFolding history) (not (s.rep_pos == 0) && leb s.hold_due now) _ _
            (λ _. rep_break-IsFolding p history s f (omega (arith, few)))
            (λ _.
              if_keeps (IsFolding history) (not (s.rep_count == 0) && leb s.rep_due now) _ s
                (λ _. record {
                  tracked = record {
                    size = g.tracked.size;
                    tracks = g.tracked.tracks;
                    lens = g.tracked.lens;
                  };
                  len_le = g.len_le;
                  within = g.within;
                  pos_lt = g.pos_lt;
                  backoff_lt =
                      if_keeps (λ n. n < 3) (ltb ((rep_flush p s).rep_backoff + 1) 3) _ _
                        (λ e. grind (arith, e)) (λ _. g.backoff_lt);
                  history_is = g.history_is;
                })
                (λ _. f)))

  abbrev b : List Mark
  b = take s.rep_len (messages s.said)

  -- the line that comes next in the block
  next_mark :
      (m : Mark)
      → s.rep_pos < s.rep_len
      → mark (seen_back (sub32 s.rep_len s.rep_pos) s) ≡ m
      → drop (s.rep_len - (s.rep_pos + 1)) b ≡ m ∷ drop (s.rep_len - s.rep_pos) b
  next_mark m l e =
      let k = s.rep_len - (s.rep_pos + 1) in
      let back : sub32 s.rep_len s.rep_pos ≡ k + 1 = omega (arith, l, f.len_le) in
      let (x, q) = nth-some k (messages s.said) (omega (arith, l, f.within)) in
      let same : x ≡ m =
        sym (f.tracked.tracks k x (omega (arith, l, f.len_le)) q)
        ∙ ap (λ i. mark (seen_back i s)) (sym back)
        ∙ e in
      let there : nth k b ≡ some m =
        nth-take k s.rep_len (messages s.said) (omega (arith, l)) ∙ q ∙ ap (λ v. some v) same in
      let more : suc k ≡ s.rep_len - s.rep_pos = omega (arith, l) in
      drop-nth k b m there ∙ ap (λ n. m ∷ drop n b) more

  count_lt : s.rep_pos < s.rep_len → s.rep_count ≤ length history
  count_lt l =
      let size = length-take s.rep_len (messages s.said) f.within in
      omega (
        arith,
        ap length f.history_is,
        length-copies s.rep_count b (omega (arith, size, l)),
        length-append (drop (s.rep_len - s.rep_pos) b ++ copies s.rep_count b) (expand s.said),
        length-append (drop (s.rep_len - s.rep_pos) b) (copies s.rep_count b),
      )

  -- A block that is complete is one repetition more.
  whole_again :
      s.rep_pos < s.rep_len
      → s.rep_len ≤ s.rep_pos + 1
      → with_held s.rep_len (s.rep_pos + 1) s.rep_count b (expand s.said)
        ≡ with_held s.rep_len 0 (inc32 s.rep_count) b (expand s.said)
  whole_again l m =
      let none_left : s.rep_len - (s.rep_pos + 1) ≡ 0 = omega (arith, m) in
      let one_more : suc s.rep_count ≡ inc32 s.rep_count = omega (arith, count_lt l, few) in
      let size = length-take s.rep_len (messages s.said) f.within in
      ap (λ n. (drop n b ++ copies s.rep_count b) ++ expand s.said) none_left
      ∙ ap (λ n. copies n b ++ expand s.said) one_more
      ∙ ap (λ v. (v ++ copies (inc32 s.rep_count) b) ++ expand s.said)
          (sym (drop_all (s.rep_len - 0) b (omega (arith, size))))

  -- The next line of the block is held.
  pub hold-IsFolding :
      (ms now : ℕ) (m : Mark)
      → s.rep_pos < s.rep_len
      → mark (seen_back (sub32 s.rep_len s.rep_pos) s) ≡ m
      → IsFolding (m ∷ history) (hold p ms now s)
  unfolding hold seen_back
  hold-IsFolding ms now m l e =
      let next = next_mark m l e in
      let more : m ∷ history ≡ with_held s.rep_len (s.rep_pos + 1) s.rep_count b (expand s.said) =
        ap (λ v. m ∷ v) f.history_is
        ∙ ap (λ v. (v ++ copies s.rep_count b) ++ expand s.said) (sym next) in
      let tracked = f.tracked in
      if_keeps (IsFolding (m ∷ history)) (ltb (s.rep_pos + 1) s.rep_len) _ _
        (λ q. record {
          tracked = record { size = tracked.size; tracks = tracked.tracks; lens = tracked.lens };
          len_le = f.len_le;
          within = f.within;
          pos_lt = inl (grind (arith, q));
          backoff_lt = f.backoff_lt;
          history_is = more;
        })
        (λ q. record {
          tracked = record { size = tracked.size; tracks = tracked.tracks; lens = tracked.lens };
          len_le = f.len_le;
          within = f.within;
          pos_lt = inl (omega (arith, l));
          backoff_lt = f.backoff_lt;
          history_is = more ∙ whole_again l (grind (arith, q));
        })
