-- ===== src/Logging/Repeat/Folded.antt =====
-- Nothing that is logged is lost in repetitions (src/logging.c): what the log says, with the lines
-- that are held, stands for the lines that were logged. Here: rep_flush and rep_break.
use ninit.Prelude.{
  append_nil, ℕ, zero, suc, ◌+◌, ◌-◌, ◌<◌, ◌≤◌, ◌≡◌, ◌⊎◌, inl, inr, refl, sym, subst, ap, ◌∙◌, List,
  [], ◌∷◌, ◌++◌, take, drop, length, length-append, length-take, ◌==◌, ==_iff, if_keeps, arith,
  range,
}
use ninit.Supervisor.Output.Tail.{append_assoc}
use ninit.Logging.Repeat.{
  Said, line, block, Repeats, Printer, seen_back, again_all, rep_flush, rep_break,
}
use ninit.Logging.Repeat.Marks.{Mark, messages, copies, expand, IsTracked}
use ninit.Logging.Repeat.Again.{Adds, again_block}

-- What was said, with what is held back: whole repetitions of the block, and the start of one.
abbrev pub with_held : ℕ → ℕ → ℕ → List Mark → List Mark → List Mark
with_held len pos count b told = (drop (len - pos) b ++ copies count b) ++ told

abbrev pub told : Repeats → List Mark
told s =
    with_held s.rep_len s.rep_pos s.rep_count (take s.rep_len (messages s.said)) (expand s.said)

-- `history`, the newest line first, is what the log says and what it holds; the indices are in
-- their arrays.
pub record IsFolding (history : List Mark) (s : Repeats) : Type 0 where
  pub tracked : IsTracked s
  pub len_le : s.rep_len ≤ 16
  pub within : s.rep_len ≤ length (messages s.said)
  pub pos_lt : (s.rep_pos < s.rep_len) ⊎ ((s.rep_len ≡ 0) × (s.rep_pos ≡ 0) × (s.rep_count ≡ 0))
  pub backoff_lt : s.rep_backoff < 3
  pub history_is : history ≡ told s

pub with_held-ext :
    (l k m n c d : ℕ) (a b t u : List Mark)
    → l ≡ k
    → m ≡ n
    → c ≡ d
    → a ≡ b
    → t ≡ u
    → with_held l m c a t ≡ with_held k n d b u
with_held-ext l k m n c d a b t u e f g h i = rw (e, f, g, h, i) refl

-- Whole repetitions that are said are held no more.
with_held-fold :
    (l m n : ℕ) (b t : List Mark) → with_held l m n b t ≡ with_held l m 0 b (copies n b ++ t)
with_held-fold l m n b t =
    let d = drop (l - m) b in
    append_assoc d (copies n b) t ∙ ap (λ v. v ++ (copies n b ++ t)) (sym (append_nil d))

length-expand : (t : List Said) → length (messages t) ≤ length (expand t)
length-expand [] = omega arith
length-expand (line e ∷ t) = omega (arith, length-expand t)
length-expand (block len n ∷ t) =
    omega (arith, length-expand t, length-append (copies n (take len (messages t))) (expand t))

-- There are no more messages than lines were logged.
pub seen_n-le :
    (history : List Mark) (s : Repeats) → IsFolding history s → s.seen_n ≤ length history
seen_n-le history s f = omega (
  arith,
  f.tracked.size,
  length-expand s.said,
  ap length f.history_is,
  length-append
      (drop (s.rep_len - s.rep_pos) (take s.rep_len (messages s.said))
        ++ copies s.rep_count (take s.rep_len (messages s.said)))
      (expand s.said),
)

take-append : (xs ys : List Mark) (n : ℕ) → length xs ≡ n → take n (xs ++ ys) ≡ xs
take-append [] ys zero e = refl
take-append [] ys (suc n) e = absurd (omega arith)
take-append (x ∷ xs) ys zero e = absurd (omega arith)
take-append (x ∷ xs) ys (suc n) e = ap (λ t. x ∷ t) (take-append xs ys n (omega arith))

length-range : (a n : ℕ) → length (range a n) ≡ n
length-range a zero = refl
length-range a (suc n) = omega (arith, length-range (a + 1) n)

-- rep_flush leaves no whole repetition, and the place in the block as it was.
pub record IsFlushed (history : List Mark) (s t : Repeats) : Type 0 where
  pub folding : IsFolding history t
  pub no_count : t.rep_count ≡ 0
  pub same_len : t.rep_len ≡ s.rep_len
  pub same_pos : t.rep_pos ≡ s.rep_pos

module _ (p : Printer) (history : List Mark) (s : Repeats) (f : IsFolding history s) where
  abbrev b : List Mark
  b = take s.rep_len (messages s.said)

  -- What holds where the same messages are held as before but for whole repetitions.
  flushed :
      (t : Repeats) (added : List Mark)
      → IsTracked t
      → t.rep_len ≡ s.rep_len
      → t.rep_pos ≡ s.rep_pos
      → t.rep_count ≡ 0
      → t.rep_backoff ≡ s.rep_backoff
      → t.rep_len ≤ length (messages t.said)
      → take t.rep_len (messages t.said) ≡ b
      → expand t.said ≡ added ++ expand s.said
      → added ≡ copies s.rep_count b
      → IsFlushed history s t
  flushed t added tracked len pos none backoff within same expands adds = record {
    folding = record {
      tracked = tracked;
      len_le = omega (arith, len, f.len_le);
      within = within;
      pos_lt = elim f.pos_lt [
        | inl l ↦ inl (omega (arith, l, len, pos))
        | inr z ↦ inr (omega (arith, z, len), omega (arith, z, pos), none)
      ];
      backoff_lt = omega (arith, backoff, f.backoff_lt);
      history_is =
          f.history_is
          ∙ with_held-fold s.rep_len s.rep_pos s.rep_count b (expand s.said)
          ∙ sym (
              with_held-ext t.rep_len s.rep_len t.rep_pos s.rep_pos t.rep_count 0 _ b _
                (copies s.rep_count b ++ expand s.said) len pos none same
                (expands ∙ ap (λ a. a ++ expand s.said) adds));
    };
    no_count = none;
    same_len = len;
    same_pos = pos;
  }

  without_count : IsTracked (record s { rep_count = 0 })
  unfolding seen_back
  without_count = record { size = f.tracked.size; tracks = f.tracked.tracks; lens = f.tracked.lens }

  -- one repetition: it is logged as it was
  flush_one :
      s.rep_count ≡ 1
      → s.seen_n + 16 < 4294967296
      → IsFlushed history s
          (again_all p s.rep_len s.first_ms (range 0 s.rep_len) (record s { rep_count = 0 }))
  flush_one one few =
      let n = length-range 0 s.rep_len in
      let all : s.rep_len - length (range 0 s.rep_len) ≡ 0 = omega (arith, n) in
      let again =
        subst
          (λ k.
            Adds (drop k b) (record s { rep_count = 0 })
              (again_all p s.rep_len s.first_ms (range 0 s.rep_len) (record s { rep_count = 0 })))
          all
          (again_block p s.rep_len s.first_ms (range 0 s.rep_len) (record s { rep_count = 0 })
            (omega (arith, f.len_le)) f.within (omega (arith, n)) (omega (arith, n, few, f.len_le))
            without_count) in
      let size = length-take s.rep_len (messages s.said) f.within in
      let after =
        again_all p s.rep_len s.first_ms (range 0 s.rep_len) (record s { rep_count = 0 }) in
      flushed after b again.tracked again.same_len again.same_pos again.same_count
        again.same_backoff
        (omega (
          arith,
          ap length again.messages_are,
          length-append b (messages s.said),
          again.same_len,
          f.within,
        ))
        (ap (λ k. take k (messages after.said)) again.same_len
          ∙ ap (take s.rep_len) again.messages_are
          ∙ take-append b (messages s.said) s.rep_len size)
        again.expand_is (sym (append_nil b) ∙ ap (λ c. copies c b) (sym one))

  pub rep_flush-IsFlushed : s.seen_n + 16 < 4294967296 → IsFlushed history s (rep_flush p s)
  unfolding rep_flush seen_back
  rep_flush-IsFlushed few =
      if_keeps (IsFlushed history s) (s.rep_count == 1) _ _
        (λ e. flush_one ((==_iff s.rep_count 1).0 e) few)
        (λ _.
          if_keeps (IsFlushed history s) (s.rep_count == 0) s _
            (λ e.
              flushed s [] f.tracked refl refl ((==_iff s.rep_count 0).0 e) refl f.within refl refl
                (ap (λ c. copies c b) (sym ((==_iff s.rep_count 0).0 e))))
            (λ _.
              flushed _ (copies s.rep_count b)
                (record { size = f.tracked.size; tracks = f.tracked.tracks; lens = f.tracked.lens })
                refl refl refl refl f.within refl refl refl))

  -- rep_break says all that is held, and starts anew.
  module _ (few : length history + 16 < 4294967296) where
    calm : IsFlushed history s (rep_flush p s)
    calm = rep_flush-IsFlushed (omega (arith, seen_n-le history s f, few))

    abbrev start : List Mark
    start = drop (s.rep_len - s.rep_pos) (take s.rep_len (messages (rep_flush p s).said))

    abbrev ended : Repeats
    ended = again_all p s.rep_len s.hold_ms (range 0 s.rep_pos) (rep_flush p s)

    pos_le : s.rep_pos ≤ s.rep_len
    pos_le = elim f.pos_lt [ inl l ↦ omega (arith, l) | inr z ↦ omega (arith, z) ]

    start_said : Adds start (rep_flush p s) ended
    start_said =
        let n = length-range 0 s.rep_pos in
        let size = seen_n-le history (rep_flush p s) calm.folding in
        subst
          (λ k.
            Adds (drop (s.rep_len - k) (take s.rep_len (messages (rep_flush p s).said)))
              (rep_flush p s) ended)
          n
          (again_block p s.rep_len s.hold_ms (range 0 s.rep_pos) (rep_flush p s)
            (omega (arith, f.len_le)) (omega (arith, calm.folding.within, calm.same_len))
            (omega (arith, n, pos_le)) (omega (arith, n, pos_le, size, few, f.len_le))
            calm.folding.tracked)

    expand-ended : expand ended.said ≡ history
    expand-ended =
        let t = rep_flush p s in
        start_said.expand_is
        ∙ ap (λ v. v ++ expand t.said) (sym (append_nil start))
        ∙ sym (
            calm.folding.history_is
            ∙ with_held-ext t.rep_len s.rep_len t.rep_pos s.rep_pos t.rep_count 0 _
                (take s.rep_len (messages t.said)) (expand t.said) (expand t.said) calm.same_len
                calm.same_pos calm.no_count (ap (λ n. take n (messages t.said)) calm.same_len) refl)

    -- After rep_break what the log says is all that was logged.
    pub rep_break-whole : expand (rep_break p s).said ≡ history
    unfolding rep_break
    rep_break-whole = expand-ended

    pub rep_break-IsFolding : IsFolding history (rep_break p s)
    unfolding rep_break seen_back
    rep_break-IsFolding = record {
      tracked = record {
        size = start_said.tracked.size;
        tracks = start_said.tracked.tracks;
        lens = start_said.tracked.lens;
      };
      len_le = omega arith;
      within = omega arith;
      pos_lt = inr (refl, refl, start_said.same_count ∙ calm.no_count);
      backoff_lt = omega arith;
      history_is =
          sym expand-ended
          ∙ sym (
              with_held-ext 0 0 0 0 _ 0 [] [] (expand ended.said) (expand ended.said) refl refl
                (start_said.same_count ∙ calm.no_count) refl refl);
    }
