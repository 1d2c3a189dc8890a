-- ===== src/Supervisor/Output.antt =====
-- The output of a service (src/drain.c): its last bytes, and its lines for the log.
pub mod Tail
pub mod Lines
pub mod Whole
use ninit.Prelude.{
  ℕ, zero, suc, ◌+◌, ◌-◌, Bool, true, false, List, [], ◌∷◌, ◌++◌, ◌==◌, ltb, leb, length, take,
  drop, if◌then◌else◌,
}

-- TAIL_CAP and LINE_CAP
abbrev pub tail_cap : ℕ
tail_cap = 1024

abbrev pub line_cap : ℕ
line_cap = 256

-- the tail, the unfinished line, and the lines that flush_line logged, in their order
pub record Sink : Type 0 where
  pub tail : List ℕ
  pub line : List ℕ
  pub notes : List (List ℕ)

unfoldable pub flush_line : Sink → Sink
flush_line s = elim s.line [
  | [] ↦ s
  | b ∷ bs ↦ record s { line = []; notes = s.notes ++ (b ∷ bs) ∷ [] }
]

-- the first statement of absorb()
unfoldable pub absorb_tail : List ℕ → List ℕ → List ℕ
absorb_tail tail buf =
    if leb tail_cap (length buf)
    then drop (length buf - tail_cap) buf
    else if ltb tail_cap (length tail + length buf)
    then drop (length tail - (tail_cap - length buf)) tail ++ buf
    else tail ++ buf

-- the `while(seg)` loop: it copies at least one byte in each round
unfoldable pub put_seg : ℕ → List ℕ → Sink → Sink
put_seg zero seg s = s
put_seg (suc fuel) [] s = s
put_seg (suc fuel) (b ∷ bs) s =
    let seg = b ∷ bs in
    let full = line_cap - length s.line == 0 in
    let s' = if full then flush_line s else s in
    let room = if full then line_cap else line_cap - length s.line in
    let n = if ltb (length seg) room then length seg else room in
    put_seg fuel (drop n seg) (record s' { line = s'.line ++ take n seg })

-- the text before the first newline, and what follows the newline, if there is one
pub record Cut : Type 0 where
  pub seg : List ℕ
  pub newline : Bool
  pub rest : List ℕ

-- memchr(buf, '\n', len)
unfoldable pub cut : List ℕ → Cut
cut [] = record { seg = []; newline = false; rest = [] }
cut (b ∷ bs) =
    let c = cut bs in
    if b == 10 then record { seg = []; newline = true; rest = bs } else record c { seg = b ∷ c.seg }

-- the `for` loop of absorb()
unfoldable pub absorb_lines : ℕ → List ℕ → Sink → Sink
absorb_lines zero buf s = s
absorb_lines (suc fuel) [] s = s
absorb_lines (suc fuel) (b ∷ bs) s =
    let c = cut (b ∷ bs) in
    let s' = put_seg (length c.seg) c.seg s in
    if c.newline then absorb_lines fuel c.rest (flush_line s') else s'

unfoldable pub absorb : List ℕ → Sink → Sink
unfolding absorb_tail absorb_lines put_seg cut flush_line
absorb buf s = absorb_lines (length buf) buf (record s { tail = absorb_tail s.tail buf })
