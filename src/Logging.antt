-- ===== src/Logging.antt =====
-- The log (src/logging.c). Here: the ring of logged text, its writer and its readers.
pub mod Console
pub mod Whole
pub mod Shown
pub mod Repeat
pub mod Cells
pub mod Lines
pub mod Eol
pub mod Text
pub mod Readers
use ninit.Prelude.{
  ℕ, zero, suc, ◌+◌, ◌-◌, ◌%◌, List, [], ◌∷◌, ◌++◌, take, drop, map, Option, none, some, ◌==◌, ltb,
  leb, length, if◌then◌else◌, range, update,
}

abbrev pub log_ring_size : ℕ
log_ring_size = 131072

-- an addition on uint64_t
abbrev pub add64 : ℕ → ℕ → ℕ
add64 x n = (x + n) % 18446744073709551616

-- log_ring, ring_head and ring_tail
pub record Ring : Type 0 where
  pub bytes : ℕ → ℕ
  pub head : ℕ
  pub tail : ℕ

-- memchr for a newline in the n bytes from off: its distance
unfoldable pub find_newline : (ℕ → ℕ) → ℕ → ℕ → Option ℕ
find_newline b off zero = none
find_newline b off (suc n) =
    if b off == 10
    then some 0
    else elim (find_newline b (off + 1) n) [ some i ↦ some (i + 1) | none ↦ none ]

-- memcpy to off
unfoldable pub copy_to : (ℕ → ℕ) → ℕ → List ℕ → ℕ → ℕ
copy_to b off [] = b
copy_to b off (x ∷ xs) = copy_to (update b off x) (off + 1) xs

-- at & (LOG_RING - 1)
abbrev pub offset : ℕ → ℕ
offset at = at % log_ring_size

-- the bytes from at on that stand before the end of the array, n at most
abbrev pub segment : ℕ → ℕ → ℕ
segment at n = if ltb n (log_ring_size - offset at) then n else log_ring_size - offset at

unfoldable pub ring_eol : ℕ → Ring → ℕ → ℕ
ring_eol zero r at = at
ring_eol (suc fuel) r at =
    let seg = segment at (r.head - at) in
    let rest = ring_eol fuel r (at + seg) in
    elim (find_newline r.bytes (offset at) seg) [ some i ↦ add64 (at + i) 1 | none ↦ rest ]

-- The `while` loop of ring_put: the lines that give way to n bytes.
unfoldable pub make_room : ℕ → Ring → ℕ → Ring
make_room zero r n = r
make_room (suc fuel) r n =
    let rest = make_room fuel (record r { tail = ring_eol (log_ring_size + 1) r r.tail }) n in
    if ltb log_ring_size (r.head + n - r.tail) then rest else r

-- ring_put, without the call of ring_feed: what it serves are readers, and it leaves the ring alone.
unfoldable pub ring_put : Ring → List ℕ → Ring
ring_put r s =
    let n = length s in
    let k = segment r.head n in
    let room = make_room (r.head - r.tail) r n in
    record room {
      bytes = copy_to (copy_to r.bytes (offset r.head) (take k s)) 0 (drop k s);
      head = add64 r.head n;
    }

unfoldable pub ring_get : Ring → ℕ → ℕ → List ℕ
ring_get r at n =
    let k = segment at n in map r.bytes (range (offset at) k) ++ map r.bytes (range 0 (n - k))

unfoldable pub log_first : Ring → ℕ
log_first r = r.tail

unfoldable pub log_end : Ring → ℕ
log_end r = r.head

-- log_line, with the notice to a reader that the ring has overtaken as `skipped`; it gives
-- where the reader stands next and the bytes copied.
module _ (skipped : ℕ → List ℕ) where
  unfoldable pub log_line : Ring → ℕ → ℕ × List ℕ
  log_line r at =
      if ltb at r.tail
      then (r.tail, skipped (r.tail - at))
      else if leb r.head at
      then (at, [])
      else (let end = ring_eol (log_ring_size + 1) r at in (end, ring_get r at (end - at)))
