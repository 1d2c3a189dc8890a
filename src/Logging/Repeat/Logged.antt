-- ===== src/Logging/Repeat/Logged.antt =====
-- ninit_log, whole (src/logging.c): each line that is logged is said or held.
use ninit.Prelude.{
  ℕ, zero, suc, ◌+◌, ◌-◌, ◌*◌, ◌%◌, ◌<◌, ◌≤◌, ◌≡◌, ◌⊎◌, inl, inr, refl, sym, subst, ap, ◌∙◌, List,
  [], ◌∷◌, ◌++◌, take, length, length-append, length-take_le, ltb, ◌==◌, ==_iff, All, if◌then◌else◌,
  if_keeps, Bool-cases, Bool, true, false, arith, not, ◌&&◌, sub32, range,
}
use ninit.Supervisor.Output.Tail.{drop_all}
use ninit.Logging.Lines.{both}
use ninit.Logging.Repeat.{
  Seen, Repeats, Printer, seen_back, seen_is, seen_twice, find_block, rep_find, body_hash, level_of,
  nocon_of, log_head, log_emit, rep_break, hold, ninit_log,
}
use ninit.Logging.Repeat.Marks.{Mark, mark, messages, log_emit-IsTracked}
use ninit.Logging.Repeat.Folded.{
  with_held, IsFolding, seen_n-le, with_held-ext, rep_break-IsFolding,
}
use ninit.Logging.Repeat.Kept.{hold-IsFolding}

abbrev mark_of : ℕ → ℕ → List ℕ → Mark
mark_of key h body = record { key = key; hash = h; len = length body % 65536 }

-- the level that ninit_log takes, with LOG_NOCON
abbrev pub key_of : ℕ → ℕ
key_of raw = (if ltb (level_of raw) 6 then level_of raw else 1) + 16 * nocon_of raw

positive : (k : ℕ) → not (k == 0) ≡ true → 1 ≤ k
positive k q = grind (arith, q)

above : (k : ℕ) → ltb 0 k ≡ true → 0 < k
above k q = grind (arith, q)

zero_of : (k : ℕ) → ltb 0 k ≡ false → k ≡ 0
zero_of k q = grind (arith, q)

from_two : (a n : ℕ) → 2 ≤ a → a + n ≤ 17 → All (λ k. (2 ≤ k) × (k ≤ 16)) (range a n)
from_two a zero l m = tt
from_two a (suc n) l m =
    ((l, omega (arith, m)), from_two (a + 1) n (omega (arith, l)) (omega (arith, m)))

length-take_short : (n : ℕ) (xs : List ℕ) → length (take n xs) ≤ length xs
length-take_short zero xs = omega arith
length-take_short (suc n) [] = omega arith
length-take_short (suc n) (x ∷ xs) = omega (arith, length-take_short n xs)

module _ (p : Printer) where
  abbrev pub head_of : ℕ → ℕ → List ℕ
  head_of raw ms = log_head p (if ltb (level_of raw) 6 then level_of raw else 1) ms

  abbrev pub body_of : ℕ → List ℕ → ℕ → List ℕ
  body_of raw text ms = take (1022 - length (head_of raw ms)) text ++ (10 ∷ [])

  -- the line that ninit_log logs, by its level, hash and length
  abbrev pub line_mark : ℕ → List ℕ → ℕ → Mark
  line_mark raw text ms =
      mark_of (key_of raw) (body_hash (key_of raw) (body_of raw text ms)) (body_of raw text ms)

  -- a block that rep_find may give: its first line is the one logged now
  abbrev IsFound : Repeats → ℕ → ℕ → List ℕ → ℕ → Type 0
  IsFound s key h body n =
      (n ≡ 0)
      ⊎ ((1 ≤ n) × (n ≤ 16) × (n ≤ s.seen_n) × (seen_is (seen_back n s) key h body s ≡ true))

  module _ (key h : ℕ) (body : List ℕ) (some_bytes : 1 ≤ length body)
      (short : length body ≤ 959) where
    seen_is-mark :
        (e : Seen) (s : Repeats) → seen_is e key h body s ≡ true → mark e ≡ mark_of key h body
    unfolding seen_is
    seen_is-mark e s q =
        let (k, q1) = both (e.key == key) _ q in
        let (g, q2) = both (e.hash == h) _ q1 in
        let (l, q3) = both (e.len == length body) _ q2 in
        let same : e.len ≡ length body % 65536 =
          omega (arith, (==_iff e.len (length body)).0 l, short) in
        rw ((==_iff e.key key).0 k, (==_iff e.hash h).0 g, same) refl

    find_block-IsFound :
        (lens : List ℕ) (s : Repeats)
        → All (λ n. (2 ≤ n) × (n ≤ 16)) lens
        → IsFound s key h body (find_block lens key h body s)
    unfolding find_block
    find_block-IsFound [] s a = inl refl
    find_block-IsFound (len ∷ lens) s a =
        if_keeps (IsFound s key h body) (ltb s.seen_n (2 * len)) _ _ (λ _. inl refl)
          (λ q.
            if_keeps (IsFound s key h body)
              (seen_is (seen_back len s) key h body s && seen_twice len (range 1 len) s) _ _
              (λ found.
                inr (omega (arith, a.0), omega (arith, a.0), grind (arith, q), (both _ _ found).0))
              (λ _. find_block-IsFound lens s a.1))

    rep_find-IsFound : (s : Repeats) → IsFound s key h body (rep_find key h body s)
    unfolding rep_find
    rep_find-IsFound s =
        if_keeps (IsFound s key h body)
          (not (s.seen_n == 0) && seen_is (seen_back 1 s) key h body s) _ _
          (λ q. inr (omega arith, omega arith, positive s.seen_n (both _ _ q).0, (both _ _ q).1))
          (λ _. find_block-IsFound (range 2 15) s (from_two 2 15 (omega arith) (omega arith)))

    module _ (history : List Mark) (s : Repeats) (f : IsFolding history s)
        (few : length history + 17 < 4294967296) where
      idle : s.rep_len ≡ 0 → (s.rep_pos ≡ 0) × (s.rep_count ≡ 0)
      idle e = elim f.pos_lt [ inl l ↦ absurd (omega (arith, l, e)) | inr z ↦ (z.1, z.2) ]

      nothing_held :
          (n : ℕ) (b t : List Mark)
          → s.rep_len ≡ 0
          → length b ≤ n
          → with_held n s.rep_pos s.rep_count b t ≡ t
      nothing_held n b t e le =
          with_held-ext n n s.rep_pos 0 s.rep_count 0 b b t t refl (idle e).0 (idle e).1 refl refl
          ∙ ap (λ v. (v ++ []) ++ t) (drop_all (n - 0) b (omega (arith, le)))

      -- a block is found, or none
      found-IsFolding :
          (n : ℕ)
          → s.rep_len ≡ 0
          → n ≤ 16
          → n ≤ length (messages s.said)
          → IsFolding history (record s { rep_len = n })
      unfolding seen_back
      found-IsFolding n e le more = record {
        tracked = record {
          size = f.tracked.size;
          tracks = f.tracked.tracks;
          lens = f.tracked.lens;
        };
        len_le = le;
        within = more;
        pos_lt = elim (Bool-cases (ltb 0 n)) [
          | inl some_lines ↦ inl (omega (arith, (idle e).0, above n some_lines))
          | inr no_lines ↦ inr (omega (arith, zero_of n no_lines), (idle e).0, (idle e).1)
        ];
        backoff_lt = f.backoff_lt;
        history_is =
            f.history_is
            ∙ nothing_held s.rep_len _ _ e (length-take_le s.rep_len (messages s.said))
            ∙ sym (nothing_held n _ _ e (length-take_le n (messages s.said)));
      }

      -- a line that repeats nothing
      emit-IsFolding :
          (ms : ℕ) (head : List ℕ)
          → s.rep_len ≡ 0
          → IsFolding (mark_of key h body ∷ history) (log_emit p key ms head body h s)
      unfolding log_emit
      emit-IsFolding ms head e = record {
        tracked =
            log_emit-IsTracked p key ms head body h s f.tracked
              (omega (arith, seen_n-le history s f, few)) some_bytes short;
        len_le = f.len_le;
        within = omega (arith, e);
        pos_lt = f.pos_lt;
        backoff_lt = f.backoff_lt;
        history_is =
            ap (λ v. mark_of key h body ∷ v)
              (f.history_is
                ∙ nothing_held s.rep_len _ _ e (length-take_le s.rep_len (messages s.said)))
            ∙ sym (
                nothing_held s.rep_len _ _ e
                  (length-take_le s.rep_len (mark_of key h body ∷ messages s.said)));
      }

    abbrev say_or_hold : ℕ → ℕ → List ℕ → Repeats → Repeats
    say_or_hold ms now head s =
        if s.rep_len == 0 then log_emit p key ms head body h s else hold p ms now s

    -- the line is the next one of the block, where there is a block
    abbrev Fits : Repeats → Type 0
    Fits s =
        (s.rep_len ≡ 0) ⊎ (seen_is (seen_back (sub32 s.rep_len s.rep_pos) s) key h body s ≡ true)

    module _ (history : List Mark) (few : length history + 17 < 4294967296) (ms now : ℕ)
        (head : List ℕ) where
      say_or_hold-IsFolding :
          (s : Repeats)
          → IsFolding history s
          → Fits s
          → IsFolding (mark_of key h body ∷ history) (say_or_hold ms now head s)
      say_or_hold-IsFolding s f fits =
          if_keeps (IsFolding (mark_of key h body ∷ history)) (s.rep_len == 0) _ _
            (λ e. emit-IsFolding history s f few ms head ((==_iff s.rep_len 0).0 e))
            (λ e. elim fits [
              | inl z ↦ absurd (grind (arith, e, z))
              | inr same ↦
                  hold-IsFolding p history s f few ms now (mark_of key h body)
                    (elim f.pos_lt [ inl l ↦ l | inr z ↦ absurd (grind (arith, e, z.0)) ])
                    (seen_is-mark (seen_back (sub32 s.rep_len s.rep_pos) s) s same)
            ])

      -- the end of ninit_log: a block is looked for, and the line is said or held
      finish-IsFolding :
          (s : Repeats)
          → IsFolding history s
          → Fits s
          → IsFolding (mark_of key h body ∷ history) (
              say_or_hold ms now head
                (if s.rep_len == 0 then record s { rep_len = rep_find key h body s } else s))
      unfolding seen_is seen_back
      finish-IsFolding s f fits =
          if_keeps (λ t. IsFolding (mark_of key h body ∷ history) (say_or_hold ms now head t))
            (s.rep_len == 0) _ _
            (λ e.
              let idle_now = (==_iff s.rep_len 0).0 e in
              let n = rep_find key h body s in
              elim (rep_find-IsFound s) [
                | inl z ↦
                    say_or_hold-IsFolding (record s { rep_len = n })
                      (found-IsFolding history s f few n idle_now (omega (arith, z))
                        (omega (arith, z)))
                      (inl z)
                | inr found ↦
                    let near : n ≡ sub32 n s.rep_pos =
                      omega (arith, found.1, (idle history s f few idle_now).0) in
                    say_or_hold-IsFolding (record s { rep_len = n })
                      (found-IsFolding history s f few n idle_now found.1
                        (omega (arith, found.2, f.tracked.size)))
                      (inr (subst (λ k. seen_is (seen_back k s) key h body s ≡ true) near found.3))
              ])
            (λ _. say_or_hold-IsFolding s f fits)

  guard_off : (a b : Bool) → (not a && not b) ≡ false → (a ≡ true) ⊎ (b ≡ true)
  guard_off true b e = inl refl
  guard_off false true e = inr refl
  guard_off false false e = absurd (grind (arith, e))

  -- Where what was logged before is said or held, and the new text has at most 958 bytes, it and
  -- the new line are said or held after ninit_log, and the indices stay in their arrays.
  pub ninit_log-IsFolding :
      (history : List Mark) (raw : ℕ) (text : List ℕ) (ms now : ℕ) (s : Repeats)
      → IsFolding history s
      → length text ≤ 958
      → length history + 17 < 4294967296
      → IsFolding (line_mark raw text ms ∷ history) (ninit_log p raw text ms now s)
  unfolding ninit_log rep_break
  ninit_log-IsFolding history raw text ms now s f fits few =
      let key = key_of raw in
      let body = body_of raw text ms in
      let h = body_hash key body in
      let cut = take (1022 - length (head_of raw ms)) text in
      let size = length-append cut (10 ∷ []) in
      let some_bytes : 1 ≤ length body = omega (arith, size) in
      let short : length body ≤ 959 =
        omega (arith, size, fits, length-take_short (1022 - length (head_of raw ms)) text) in
      if_keeps
        (λ t. IsFolding (line_mark raw text ms ∷ history) (
          say_or_hold key h body some_bytes short ms now (head_of raw ms)
            (if t.rep_len == 0 then record t { rep_len = rep_find key h body t } else t)))
        (not (s.rep_len == 0)
          && not (seen_is (seen_back (sub32 s.rep_len s.rep_pos) s) key h body s))
        (rep_break p s) s
        (λ _.
          finish-IsFolding key h body some_bytes short history few ms now (head_of raw ms)
            (rep_break p s) (rep_break-IsFolding p history s f (omega (arith, few))) (inl refl))
        (λ e.
          finish-IsFolding key h body some_bytes short history few ms now (head_of raw ms) s f
            (elim (guard_off _ _ e) [
              | inl none_now ↦ inl ((==_iff s.rep_len 0).0 none_now)
              | inr same ↦ inr same
            ]))
