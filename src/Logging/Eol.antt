-- ===== src/Logging/Eol.antt =====
-- The end of a line in the ring: ring_eol finds it over its segments (src/logging.c).
use ninit.Prelude.{
  ℕ, zero, suc, ◌+◌, ◌-◌, ◌<◌, ◌≤◌, ◌≡◌, refl, sym, subst, ap, ◌∙◌, Bool, true, false, Bool-cases,
  inl, inr, Option, none, some, List, ◌++◌, map, range, ◌==◌, ltb, if◌then◌else◌, arith,
}
use ninit.Logging.{Ring, find_newline, offset, segment, ring_eol, add64}
use ninit.Logging.Cells.{view, view-append, view-cells, length-view, segment-le, segment-positive}
use ninit.Logging.Lines.{line_length, line_length-le}

found_next :
    (q : Bool) (o : Option ℕ) (m n k : ℕ)
    → m ≡ elim o [ some i ↦ i + 1 | none ↦ n + k ]
    → (if q then 1 else suc m)
      ≡ elim (if◌then◌else◌ {A = Option ℕ} q
          (some 0)
          (elim o [ some i ↦ some (i + 1) | none ↦ none ])) [ some i ↦ i + 1 | none ↦ suc n + k ]
found_next true o m n k e = refl
found_next false (some i) m n k e = omega arith
found_next false none m n k e = omega arith

-- memchr finds the end of the first line, or none of the bytes ends it.
line_length-find :
    (b : ℕ → ℕ) (off n : ℕ) (t : List ℕ)
    → line_length (map b (range off n) ++ t)
      ≡ elim (find_newline b off n) [ some i ↦ i + 1 | none ↦ n + line_length t ]
unfolding find_newline line_length
line_length-find b off zero t = omega arith
line_length-find b off (suc n) t =
    found_next (b off == 10) (find_newline b (off + 1) n) _ n (line_length t)
      (line_length-find b (off + 1) n t)

eol_here :
    (o : Option ℕ) (at seg l rest whole : ℕ)
    → whole ≡ elim o [ some i ↦ i + 1 | none ↦ seg + l ]
    → rest ≡ at + seg + l
    → at + whole < 18446744073709551616
    → elim o [ some i ↦ add64 (at + i) 1 | none ↦ rest ] ≡ at + whole
eol_here (some i) at seg l rest whole e q small = omega arith
eol_here none at seg l rest whole e q small = omega arith

eol_at_end : (fuel : ℕ) (r : Ring) (at : ℕ) → at ≡ r.head → ring_eol fuel r at ≡ at
unfolding ring_eol find_newline
eol_at_end zero r at e = refl
eol_at_end (suc fuel) r at e =
    let le = segment-le at (r.head - at) in
    let none_left : segment at (r.head - at) ≡ 0 = omega (arith, le.0) in
    let here : at + 0 ≡ at = omega arith in
    subst
      (λ k.
        elim (find_newline r.bytes (offset at) k) [
          | some i ↦ add64 (at + i) 1
          | none ↦ ring_eol fuel r (at + k)
        ]
        ≡ at)
      (sym none_left) (eol_at_end fuel r (at + 0) (here ∙ e) ∙ here)

-- ring_eol goes past the first newline, where one segment does not have it too.
pub ring_eol-text :
    (fuel : ℕ) (r : Ring) (at : ℕ)
    → at ≤ r.head
    → r.head < 18446744073709551616
    → r.head - at < fuel
    → ring_eol fuel r at ≡ at + line_length (view r.bytes at (r.head - at))
unfolding ring_eol
ring_eol-text zero r at l small enough = absurd (omega arith)
ring_eol-text (suc fuel) r at l small enough =
    let m = r.head - at in
    let seg = segment at m in
    let le = segment-le at m in
    let after = view r.bytes (at + seg) (m - seg) in
    let whole =
      ap line_length (
        view-append r.bytes at seg m le.0
        ∙ ap (λ s. s ++ after) (sym (view-cells r.bytes at seg le.1)))
      ∙ line_length-find r.bytes (offset at) seg after in
    let bound = line_length-le (view r.bytes at m) in
    let rest : ring_eol fuel r (at + seg) ≡ at + seg + line_length after =
      elim (Bool-cases (ltb 0 m)) [
        | inl some_left ↦
            let left : r.head - (at + seg) ≡ m - seg = omega (arith, le) in
            ring_eol-text fuel r (at + seg) (omega (arith, le)) small
              (omega (arith, le, segment-positive at m (grind (arith, some_left))))
            ∙ ap (λ k. at + seg + line_length (view r.bytes (at + seg) k)) left
        | inr none_left ↦
            let at_end : r.head ≤ at = grind (arith, none_left) in
            eol_at_end fuel r (at + seg) (omega (arith, le, at_end))
            ∙ omega
                (arith, le, at_end, line_length-le after, length-view r.bytes (at + seg) (m - seg))
      ] in
    eol_here (find_newline r.bytes (offset at) seg) at seg (line_length after) _
      (line_length (view r.bytes at m)) whole rest (omega (arith, bound, length-view r.bytes at m))
