-- ===== src/Supervisor/Output/Lines.antt =====
-- The lines of a service's output (src/drain.c): absorb() copies segments, and does what a reading
-- byte by byte would do.
use ninit.Prelude.{
  append_nil, ℕ, zero, suc, ◌+◌, ◌-◌, ◌≤◌, ◌<◌, ◌≡◌, refl, ap, sym, ◌∙◌, true, false, List, [], ◌∷◌,
  ◌++◌, ltb, ◌==◌, length, length-append, length-drop, length-take_le, take, drop, take-append-drop,
  if_keeps, arith, if◌then◌else◌, All, inl, inr, Bool-cases,
}
use ninit.Supervisor.Output.{line_cap, Sink, flush_line, put_seg}
use ninit.Supervisor.Output.Tail.{append_assoc}

-- one byte: a newline ends the line, and so does a line that is full
unfoldable pub take_byte : ℕ → Sink → Sink
take_byte b s =
    if b == 10
    then flush_line s
    else let s' = if length s.line == line_cap then flush_line s else s in
      record s' { line = s'.line ++ b ∷ [] }

unfoldable pub take_bytes : List ℕ → Sink → Sink
take_bytes [] s = s
take_bytes (b ∷ bs) s = take_bytes bs (take_byte b s)

abbrev pub NoNewline : List ℕ → Type 0
NoNewline bs = All (λ b. (b == 10) ≡ false) bs

pub take_bytes-append :
    (xs ys : List ℕ) (s : Sink) → take_bytes (xs ++ ys) s ≡ take_bytes ys (take_bytes xs s)
unfolding take_bytes
take_bytes-append [] ys s = refl
take_bytes-append (x ∷ xs) ys s = take_bytes-append xs ys (take_byte x s)

-- Bytes that fit into the line are only added to it.
take_bytes-fits :
    (xs : List ℕ) (s : Sink)
    → NoNewline xs
    → length s.line + length xs ≤ line_cap
    → take_bytes xs s ≡ record s { line = s.line ++ xs }
unfolding take_bytes take_byte
take_bytes-fits [] s h l = ap (λ (t : List ℕ). record s { line = t }) (sym (append_nil s.line))
take_bytes-fits (x ∷ xs) s h l =
    let room : (length s.line == line_cap) ≡ false = ground arith in
    let long = length-append s.line (x ∷ []) in
    let s' : Sink = record s { line = s.line ++ x ∷ [] } in
    rw (h.0, room)
      (take_bytes-fits xs s' h.1 (omega arith)
        ∙ ap (λ (t : List ℕ). record s { line = t }) (append_assoc s.line (x ∷ []) xs))

pub flush-line : (s : Sink) → (flush_line s).line ≡ []
unfolding flush_line
flush-line s = go s.line refl
  where
    go : (t : List ℕ) → s.line ≡ t → (flush_line s).line ≡ []
    go [] e = rw (e, flush_line) e
    go (b ∷ bs) e = rw (e, flush_line) refl

NoNewline-take : (n : ℕ) (xs : List ℕ) → NoNewline xs → NoNewline (take n xs)
NoNewline-take zero xs h = tt
NoNewline-take (suc n) [] h = tt
NoNewline-take (suc n) (x ∷ xs) h = (h.0, NoNewline-take n xs h.1)

NoNewline-drop : (n : ℕ) (xs : List ℕ) → NoNewline xs → NoNewline (drop n xs)
NoNewline-drop zero xs h = h
NoNewline-drop (suc n) [] h = tt
NoNewline-drop (suc n) (x ∷ xs) h = NoNewline-drop n xs h.1

-- A newline or a full line leaves at most one byte in the line, any other byte one more.
take_byte-length :
    (b : ℕ) (s : Sink) → length s.line ≤ line_cap → length (take_byte b s).line ≤ line_cap
unfolding take_byte
take_byte-length b s h =
    let flushed = ap (λ (t : List ℕ). length t) (flush-line s) in
    if_keeps (λ (k : Sink). length k.line ≤ line_cap) (b == 10) _ _ (λ _. omega arith)
      (λ _. elim (Bool-cases (length s.line == line_cap)) [
        | inl e ↦ let long = length-append (flush_line s).line (b ∷ []) in rw e (omega arith)
        | inr e ↦ let long = length-append s.line (b ∷ []) in rw e (ground arith)
      ])

pub take_bytes-length :
    (bs : List ℕ) (s : Sink) → length s.line ≤ line_cap → length (take_bytes bs s).line ≤ line_cap
unfolding take_bytes
take_bytes-length [] s h = h
take_bytes-length (b ∷ bs) s h = take_bytes-length bs (take_byte b s) (take_byte-length b s h)

-- A byte after a full line goes to a fresh one.
take_byte-full :
    (b : ℕ) (s : Sink)
    → (b == 10) ≡ false
    → length s.line ≡ line_cap
    → take_byte b (flush_line s) ≡ take_byte b s
unfolding take_byte
take_byte-full b s h e =
    let flushed = ap (λ (t : List ℕ). length t) (flush-line s) in
    let full : (length s.line == line_cap) ≡ true = ground arith in
    let fresh : (length (flush_line s).line == line_cap) ≡ false = ground (arith, flushed) in
    rw (h, full, fresh) refl

-- Each round of the segment loop takes bytes that fit.
pub put_seg-bytes :
    (fuel : ℕ) (seg : List ℕ) (s : Sink)
    → length seg ≤ fuel
    → length s.line ≤ line_cap
    → NoNewline seg
    → put_seg fuel seg s ≡ take_bytes seg s
unfolding put_seg take_bytes
put_seg-bytes zero [] s l h k = refl
put_seg-bytes zero (b ∷ bs) s l h k = absurd (omega arith)
put_seg-bytes (suc fuel) [] s l h k = refl
put_seg-bytes (suc fuel) (b ∷ bs) s l h k = elim (Bool-cases (line_cap - length s.line == 0)) [
  | inl e ↦
      let flushed = ap (λ (t : List ℕ). length t) (flush-line s) in
      rw e (
        round (put_seg-bytes fuel) (flush_line s)
          (if ltb (length (b ∷ bs)) line_cap then length (b ∷ bs) else line_cap) (ground arith)
          (ground (arith, flushed))
        ∙ ap (take_bytes bs) (take_byte-full b s k.0 (ground arith)))
  | inr e ↦
      let room = line_cap - length s.line in
      rw e (
        round (put_seg-bytes fuel) s (if ltb (length (b ∷ bs)) room then length (b ∷ bs) else room)
          (ground arith) (ground arith))
]
  where
    round :
        ((seg : List ℕ) (s : Sink)
          → length seg ≤ fuel
          → length s.line ≤ line_cap
          → NoNewline seg
          → put_seg fuel seg s ≡ take_bytes seg s)
        → (s' : Sink) (n : ℕ) → 0 < n
        → length s'.line + n ≤ line_cap
        → put_seg fuel (drop n (b ∷ bs)) (record s' { line = s'.line ++ take n (b ∷ bs) })
          ≡ take_bytes (b ∷ bs) s'
    round ih s' n some fits =
        let seg = b ∷ bs in
        let taken = length-take_le n seg in
        let left = length-drop n seg in
        let long = length-append s'.line (take n seg) in
        ih (drop n seg) _ (omega arith) (omega arith) (NoNewline-drop n seg k)
        ∙ ap (take_bytes (drop n seg))
            (sym (take_bytes-fits (take n seg) s' (NoNewline-take n seg k) (omega arith)))
        ∙ sym (take_bytes-append (take n seg) (drop n seg) s')
        ∙ ap (λ t. take_bytes t s') (take-append-drop n seg)
