-- ===== src/Supervisor/Output/Whole.antt =====
-- absorb() as a whole (src/drain.c), and output that arrives in several reads.
use ninit.Prelude.{
  ℕ, zero, suc, ◌≤◌, ◌≡◌, refl, ap, sym, ◌∙◌, List, [], ◌∷◌, ◌++◌, ◌==◌, length, length-append,
  arith, if◌then◌else◌, inl, inr, Bool-cases,
}
use ninit.Supervisor.Output.{
  tail_cap, line_cap, Sink, flush_line, put_seg, Cut, cut, absorb_lines, absorb_tail, absorb,
}
use ninit.Supervisor.Output.Tail.{absorb_tail-append}
use ninit.Supervisor.Output.Lines.{
  take_byte, take_bytes, NoNewline, take_bytes-append, take_bytes-length, put_seg-bytes, flush-line,
}

cut-NoNewline : (bs : List ℕ) → NoNewline (cut bs).seg
unfolding cut
cut-NoNewline [] = tt
cut-NoNewline (b ∷ bs) = elim (Bool-cases (b == 10)) [
  | inl e ↦ rw e tt
  | inr e ↦ rw e (e, cut-NoNewline bs)
]

abbrev joined : Cut → List ℕ
joined c = c.seg ++ (if c.newline then 10 ∷ c.rest else [])

cut-joined : (bs : List ℕ) → joined (cut bs) ≡ bs
unfolding cut
cut-joined [] = refl
cut-joined (b ∷ bs) = elim (Bool-cases (b == 10)) [
  | inl e ↦ let same : 10 ≡ b = ground arith in rw e (ap (λ x. x ∷ bs) same)
  | inr e ↦ rw e (ap (λ t. b ∷ t) (cut-joined bs))
]

absorb_lines-bytes :
    (fuel : ℕ) (buf : List ℕ) (s : Sink)
    → length buf ≤ fuel
    → length s.line ≤ line_cap
    → absorb_lines fuel buf s ≡ take_bytes buf s
unfolding absorb_lines take_bytes take_byte
absorb_lines-bytes zero [] s l h = refl
absorb_lines-bytes zero (b ∷ bs) s l h = absurd (omega arith)
absorb_lines-bytes (suc fuel) [] s l h = refl
absorb_lines-bytes (suc fuel) (b ∷ bs) s l h =
    whole (absorb_lines-bytes fuel) (cut (b ∷ bs)) (cut-NoNewline (b ∷ bs)) (cut-joined (b ∷ bs))
  where
    whole :
        ((buf : List ℕ) (s : Sink)
          → length buf ≤ fuel
          → length s.line ≤ line_cap
          → absorb_lines fuel buf s ≡ take_bytes buf s)
        → (c : Cut) → NoNewline c.seg
        → joined c ≡ b ∷ bs
        → (if c.newline
            then absorb_lines fuel c.rest (flush_line (put_seg (length c.seg) c.seg s))
            else put_seg (length c.seg) c.seg s)
          ≡ take_bytes (b ∷ bs) s
    whole ih c k e =
        let seg = put_seg-bytes (length c.seg) c.seg s (omega arith) h k in
        elim (Bool-cases c.newline) [
          | inl q ↦
              let parts : c.seg ++ 10 ∷ c.rest ≡ b ∷ bs = rw q at e in
              let long = length-append c.seg (10 ∷ c.rest) in
              let short : length c.rest ≤ fuel =
                omega (arith, ap (λ (t : List ℕ). length t) parts) in
              let ended =
                ap (λ (t : List ℕ). length t) (flush-line (put_seg (length c.seg) c.seg s)) in
              rw q (
                ih c.rest _ short (omega arith)
                ∙ ap (λ k. take_bytes c.rest (flush_line k)) seg
                ∙ sym (take_bytes-append c.seg (10 ∷ c.rest) s)
                ∙ ap (λ t. take_bytes t s) parts)
          | inr q ↦
              let parts : c.seg ++ [] ≡ b ∷ bs = rw q at e in
              rw q (seg ∙ sym (take_bytes-append c.seg [] s) ∙ ap (λ t. take_bytes t s) parts)
        ]

-- absorb() puts the bytes into the tail, and does with the lines what a reading byte by byte does,
-- where the unfinished line is no longer than LINE_CAP.
pub absorb-take_bytes :
    (buf : List ℕ) (s : Sink)
    → length s.line ≤ line_cap
    → absorb buf s ≡ take_bytes buf (record s { tail = absorb_tail s.tail buf })
unfolding absorb
absorb-take_bytes buf s h = absorb_lines-bytes (length buf) buf _ (omega arith) h

abbrev set_tail : List ℕ → Sink → Sink
set_tail t s = record s { tail = t }

flush-set_tail : (t : List ℕ) (s : Sink) → flush_line (set_tail t s) ≡ set_tail t (flush_line s)
unfolding flush_line
flush-set_tail t s = go s.line refl
  where
    go : (l : List ℕ) → s.line ≡ l → flush_line (set_tail t s) ≡ set_tail t (flush_line s)
    go [] e = rw (e, flush_line) refl
    go (b ∷ bs) e = rw (e, flush_line) refl

take_byte-set_tail :
    (b : ℕ) (t : List ℕ) (s : Sink) → take_byte b (set_tail t s) ≡ set_tail t (take_byte b s)
unfolding take_byte
take_byte-set_tail b t s = elim (Bool-cases (b == 10)) [
  | inl e ↦ rw e (flush-set_tail t s)
  | inr e ↦ elim (Bool-cases (length s.line == line_cap)) [
    | inl f ↦
        rw (e, f) (ap (λ (k : Sink). record k { line = k.line ++ b ∷ [] }) (flush-set_tail t s))
    | inr f ↦ rw (e, f) refl
  ]
]

take_bytes-set_tail :
    (bs : List ℕ) (t : List ℕ) (s : Sink)
    → take_bytes bs (set_tail t s) ≡ set_tail t (take_bytes bs s)
unfolding take_bytes
take_bytes-set_tail [] t s = refl
take_bytes-set_tail (b ∷ bs) t s =
    ap (take_bytes bs) (take_byte-set_tail b t s) ∙ take_bytes-set_tail bs t (take_byte b s)

-- Output that arrives in two reads leaves the tail, the unfinished line and the logged lines that
-- it leaves in one read, where the tail and the unfinished line are within their bounds.
pub absorb-append :
    (a b : List ℕ) (s : Sink)
    → length s.tail ≤ tail_cap
    → length s.line ≤ line_cap
    → absorb b (absorb a s) ≡ absorb (a ++ b) s
absorb-append a b s ht hl =
    let ta = absorb_tail s.tail a in
    let first = absorb-take_bytes a s hl in
    let x = take_bytes a (set_tail ta s) in
    let kept : x.tail ≡ ta = ap (λ (k : Sink). k.tail) (take_bytes-set_tail a ta s) in
    let short : length x.line ≤ line_cap = take_bytes-length a (set_tail ta s) hl in
    ap (absorb b) first
    ∙ absorb-take_bytes b x short
    ∙ ap (λ t. take_bytes b (set_tail (absorb_tail t b) x)) kept
    ∙ ap (λ t. take_bytes b (set_tail t x)) (absorb_tail-append s.tail a b ht)
    ∙ ap (take_bytes b) (sym (take_bytes-set_tail a (absorb_tail s.tail (a ++ b)) (set_tail ta s)))
    ∙ sym (take_bytes-append a b (set_tail (absorb_tail s.tail (a ++ b)) s))
    ∙ sym (absorb-take_bytes (a ++ b) s hl)
