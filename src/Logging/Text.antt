-- ===== src/Logging/Text.antt =====
-- The ring holds a text of whole lines: ring_put puts a text at its end, and the oldest lines
-- give way; log_line reads its lines (src/logging.c).
use ninit.Prelude.{
  ℕ, zero, suc, ◌+◌, ◌-◌, ◌<◌, ◌≤◌, ◌≡◌, refl, sym, ap, ◌∙◌, Bool, true, false, List, ◌++◌, drop,
  length, ltb, if◌then◌else◌, arith,
}
use ninit.Logging.{Ring, offset, ring_eol, make_room, ring_put}
use ninit.Logging.Eol.{ring_eol-text}
use ninit.Logging.Cells.{
  view, view-append, drop-view, length-view, map-agree, add64-small, written, written-before,
  view-written,
}
use ninit.Logging.Lines.{
  line_length, line_length-le, are_lines, are_lines-append, trim, length-trim, trim-are_lines,
}

-- the bytes that the ring holds
abbrev pub text : Ring → List ℕ
text r = view r.bytes r.tail (r.head - r.tail)

-- What ring_put keeps: the positions are in order, and whole lines stand between them.
pub record IsLog (r : Ring) : Type 0 where
  pub order : r.tail ≤ r.head
  pub room : r.head ≤ r.tail + 131072
  pub lines : are_lines 0 (text r) ≡ true

-- `room` is the ring r when its oldest lines have given way and `left` is left.
record IsRoom (r : Ring) (left : List ℕ) (room : Ring) : Type 0 where
  head_kept : room.head ≡ r.head
  bytes_kept : room.bytes ≡ r.bytes
  later : r.tail ≤ room.tail
  within : room.tail ≤ r.head
  is_left : view r.bytes room.tail (r.head - room.tail) ≡ left

same_branch {ℓ κ} :
    {A : Type ℓ} {B : Type κ} (P : A → B → Type 0) (b c : Bool) (x y : A) (u v : B)
    → b ≡ c
    → (b ≡ true → P x u)
    → P y v
    → P (if b then x else y) (if c then u else v)
same_branch P true true x y u v e h k = h refl
same_branch P true false x y u v e h k = absurd (grind (arith, e))
same_branch P false true x y u v e h k = absurd (grind (arith, e))
same_branch P false false x y u v e h k = k

same_test :
    (head tail n k : ℕ)
    → k ≡ head - tail
    → tail ≤ head
    → n ≤ 131072
    → ltb 131072 (head + n - tail) ≡ ltb (131072 - n) k
same_test head tail n k e l fits = ground arith

-- One line gives way first.
module _ (r : Ring) (ordered : r.tail ≤ r.head) (room : r.head ≤ r.tail + 131072)
    (small : r.head < 18446744073709551616) where
  abbrev one_gone : Ring
  one_gone = record r { tail = ring_eol 131073 r r.tail }

  size : length (text r) ≡ r.head - r.tail
  size = length-view r.bytes r.tail (r.head - r.tail)

  gone_at : ring_eol 131073 r r.tail ≡ r.tail + line_length (text r)
  gone_at = ring_eol-text 131073 r r.tail ordered small (omega arith)

  gone_order : ring_eol 131073 r r.tail ≤ r.head
  gone_order = omega (arith, gone_at, line_length-le (text r), size)

  text_gone : text one_gone ≡ drop (line_length (text r)) (text r)
  text_gone =
      ap (λ k. view r.bytes k (r.head - k)) gone_at
      ∙ ap (view r.bytes (r.tail + line_length (text r))) (omega arith)
      ∙ sym (
          drop-view r.bytes r.tail (line_length (text r)) (r.head - r.tail)
            (omega (arith, line_length-le (text r), size)))

  one_gone-IsRoom :
      (fuel limit : ℕ) (left : Ring)
      → IsRoom one_gone (trim fuel limit (text one_gone)) left
      → IsRoom r (trim fuel limit (drop (line_length (text r)) (text r))) left
  one_gone-IsRoom fuel limit left h = record {
    head_kept = h.head_kept;
    bytes_kept = h.bytes_kept;
    later = omega (arith, h.later, gone_at);
    within = h.within;
    is_left = h.is_left ∙ ap (trim fuel limit) text_gone;
  }

-- The oldest lines that give way are those that trim takes off.
make_room-IsRoom :
    (fuel : ℕ) (r : Ring) (n : ℕ)
    → r.tail ≤ r.head
    → r.head ≤ r.tail + 131072
    → r.head < 18446744073709551616
    → n ≤ 131072
    → IsRoom r (trim fuel (131072 - n) (text r)) (make_room fuel r n)
unfolding make_room trim
make_room-IsRoom zero r n l room small fits = record {
  head_kept = refl;
  bytes_kept = refl;
  later = omega arith;
  within = l;
  is_left = refl;
}
make_room-IsRoom (suc fuel) r n l room small fits =
    let at = gone_at r l room small in
    let rest =
      make_room-IsRoom fuel (one_gone r l room small) n (gone_order r l room small)
        (omega (arith, at)) small fits in
    same_branch (λ q t. IsRoom r t q) (ltb 131072 (r.head + n - r.tail))
      (ltb (131072 - n) (length (text r))) _ r _ (text r)
      (same_test r.head r.tail n (length (text r)) (size r l room small) l fits)
      (λ _. one_gone-IsRoom r l room small fuel (131072 - n) _ rest)
      (record {
        head_kept = refl;
        bytes_kept = refl;
        later = omega arith;
        within = l;
        is_left = refl;
      })

module _ (r : Ring) (s : List ℕ) (log : IsLog r) (fits : length s ≤ 131072)
    (small : r.head + length s < 18446744073709551616) where
  abbrev room : Ring
  room = make_room (r.head - r.tail) r (length s)

  abbrev left : List ℕ
  left = trim (r.head - r.tail) (131072 - length s) (text r)

  roomy : IsRoom r left room
  roomy = make_room-IsRoom (r.head - r.tail) r (length s) log.order log.room (omega arith) fits

  left_fits : r.head + length s ≤ room.tail + 131072
  left_fits =
      let trimmed =
        length-trim (131072 - length s) (r.head - r.tail) (text r)
          (omega (arith, length-view r.bytes r.tail (r.head - r.tail))) in
      omega (
        arith,
        trimmed,
        ap length roomy.is_left,
        length-view r.bytes room.tail (r.head - room.tail),
        roomy.within,
        fits,
      )

  -- From a place that has not given way on, the text gets longer by s.
  pub view-ring_put :
      (at : ℕ)
      → (ring_put r s).tail ≤ at
      → at ≤ r.head
      → view (ring_put r s).bytes at ((ring_put r s).head - at) ≡ view r.bytes at (r.head - at) ++ s
  unfolding ring_put
  view-ring_put at l m =
      let w = written r.bytes r.head s in
      let n = length s in
      let old =
        map-agree (λ p. w (offset p)) (λ p. r.bytes (offset p)) at at (r.head - at)
          (λ i k.
            written-before r.bytes r.head s fits (at + i) (omega arith)
              (omega (arith, left_fits, l))) in
      ap (λ h. view w at (h - at)) (add64-small r.head n small)
      ∙ view-append w at (r.head - at) (r.head + n - at) (omega arith)
      ∙ ap (λ v. v ++ view w (at + (r.head - at)) (r.head + n - at - (r.head - at))) old
      ∙ ap (λ a. view r.bytes at (r.head - at) ++ view w a (r.head + n - at - (r.head - at)))
          (omega (arith, m))
      ∙ ap (λ k. view r.bytes at (r.head - at) ++ view w r.head k) (omega (arith, m))
      ∙ ap (λ v. view r.bytes at (r.head - at) ++ v) (view-written r.bytes r.head s fits)

  -- Logging s puts it at the end of the text, whose oldest lines give way, no more of them than
  -- the room for s needs.
  pub text-ring_put : text (ring_put r s) ≡ trim (length (text r)) (131072 - length s) (text r) ++ s
  unfolding ring_put
  text-ring_put =
      view-ring_put room.tail (omega arith) roomy.within
      ∙ ap (λ v. v ++ s) roomy.is_left
      ∙ ap (λ k. trim k (131072 - length s) (text r) ++ s)
          (sym (length-view r.bytes r.tail (r.head - r.tail)))

  pub ring_put-IsLog : are_lines 0 s ≡ true → IsLog (ring_put r s)
  unfolding ring_put
  ring_put-IsLog e = record {
    order = omega (arith, roomy.within, add64-small r.head (length s) small);
    room = omega (arith, left_fits, add64-small r.head (length s) small);
    lines =
        ap (are_lines 0) text-ring_put
        ∙ are_lines-append 0 (trim (length (text r)) (131072 - length s) (text r)) s
            (trim-are_lines (131072 - length s) (length (text r)) (text r) log.lines)
        ∙ e;
  }
