-- ===== src/Logging/Readers.antt =====
-- Readers of the ring: log_line gives a whole line, and the next one after it (src/logging.c).
use ninit.Prelude.{ℕ, zero, suc, ◌+◌, ◌-◌, ◌<◌, ◌≤◌, ◌≡◌, true, List, [], ◌∷◌, ◌++◌, length}
use ninit.Logging.{Ring, log_line}
use ninit.Logging.Cells.{view}
use ninit.Logging.Lines.{line_length, are_lines}
use ninit.Logging.Text.{IsLog}

-- A reader that stands at `at` has whole lines before it.
pub record IsReader (r : Ring) (at : ℕ) : Type 0 where
  pub place : at ≤ r.head
  pub ahead : are_lines 0 (view r.bytes at (r.head - at)) ≡ true

-- What one call of log_line gives a reader at `at`: a line that fits its buffer.
pub record IsNext (r : Ring) (at : ℕ) (step : ℕ × List ℕ) : Type 0 where
  pub advances : step.0 ≡ at + length step.1
  pub some_bytes : 0 < length step.1
  pub fits : length step.1 ≤ 1024
  pub one_line : line_length step.1 ≡ length step.1
  pub text_is : view r.bytes at (r.head - at) ≡ step.1 ++ view r.bytes step.0 (r.head - step.0)
  pub reader : IsReader r step.0

module _ (skipped : ℕ → List ℕ) (r : Ring) (at : ℕ) (log : IsLog r) (reader : IsReader r at)
    (small : r.head < 18446744073709551616) where
  abbrev ahead : List ℕ
  ahead = view r.bytes at (r.head - at)

-- The lines that a reader gets from `at` on, one call of log_line after the other.
unfoldable pub read_lines : ℕ → Ring → ℕ → List (List ℕ)
read_lines zero r at = []
read_lines (suc fuel) r at =
    let step = log_line (λ n. []) r at in
    let rest = read_lines fuel r step.0 in elim step.1 [ [] ↦ [] | x ∷ xs ↦ (x ∷ xs) ∷ rest ]

abbrev pub joined : List (List ℕ) → List ℕ
joined [] = []
joined (v ∷ vs) = v ++ joined vs
