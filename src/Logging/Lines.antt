-- ===== src/Logging/Lines.antt =====
-- The text of the ring as a list of bytes: its lines, and the oldest lines giving way to room
-- (the abstract view of log_ring in src/logging.c).
use ninit.Prelude.{
  ℕ, zero, suc, ◌+◌, ◌<◌, ◌≤◌, ◌≡◌, refl, ap, Bool, true, false, ◌&&◌, List, [], ◌∷◌, ◌++◌, drop,
  length, length-drop, ◌==◌, ==_iff, ltb, if◌then◌else◌, if_keeps, arith,
}

-- the bytes up to the first newline and with it
unfoldable pub line_length : List ℕ → ℕ
line_length [] = 0
line_length (x ∷ xs) = if x == 10 then 1 else suc (line_length xs)

-- Every line ends in a newline and has 1024 bytes (LOG_LINE) at most, after u bytes of the first.
unfoldable pub are_lines : ℕ → List ℕ → Bool
are_lines u [] = u == 0
are_lines u (x ∷ xs) = ltb u 1024 && (if x == 10 then are_lines 0 xs else are_lines (u + 1) xs)

-- The oldest lines go until `limit` bytes are left at most.
unfoldable pub trim : ℕ → ℕ → List ℕ → List ℕ
trim zero limit t = t
trim (suc fuel) limit t =
    let rest = trim fuel limit (drop (line_length t) t) in if ltb limit (length t) then rest else t

pub line_length-le : (t : List ℕ) → line_length t ≤ length t
unfolding line_length
line_length-le [] = omega arith
line_length-le (x ∷ xs) =
    if_keeps (λ n. n ≤ suc (length xs)) (x == 10) _ _ (λ _. omega arith)
      (λ _. omega (arith, line_length-le xs))

pub line_length-positive : (t : List ℕ) → 0 < length t → 0 < line_length t
unfolding line_length
line_length-positive [] l = absurd (omega arith)
line_length-positive (x ∷ xs) l =
    if_keeps (λ n. 0 < n) (x == 10) _ _ (λ _. omega arith) (λ _. omega arith)

pub both : (a b : Bool) → (a && b) ≡ true → (a ≡ true) × (b ≡ true)
both true b e = (refl, e)
both false b e = absurd (grind arith)

-- What follows from the test of a branch follows from that of the conditional.
either {κ} :
    {A : Type κ} (P : A → Type κ) (b p q : Bool) (x y : A)
    → (if b then p else q) ≡ true
    → (p ≡ true → P x)
    → (q ≡ true → P y)
    → P (if b then x else y)
either P true p q x y e h k = h e
either P false p q x y e h k = k e

pub are_lines-append :
    (u : ℕ) (s t : List ℕ) → are_lines u s ≡ true → are_lines u (s ++ t) ≡ are_lines 0 t
unfolding are_lines
are_lines-append u [] t e = ap (λ k. are_lines k t) ((==_iff u 0).0 e)
are_lines-append u (x ∷ xs) t e =
    let parts = both (ltb u 1024) _ e in
    rw parts.0 (
      either (λ b. b ≡ are_lines 0 t) (x == 10) (are_lines 0 xs) (are_lines (u + 1) xs) _ _ parts.1
        (are_lines-append 0 xs t) (are_lines-append (u + 1) xs t))

-- Without its first line the text is lines still, and that line is not too long.
pub are_lines-drop :
    (u : ℕ) (t : List ℕ)
    → are_lines u t ≡ true
    → 0 < u + length t
    → (u + line_length t ≤ 1024) × (are_lines 0 (drop (line_length t) t) ≡ true)
unfolding are_lines line_length
are_lines-drop u [] e l = absurd (omega (arith, (==_iff u 0).0 e, l))
are_lines-drop u (x ∷ xs) e l =
    let parts = both (ltb u 1024) _ e in
    let below : u < 1024 = grind (arith, parts.0) in
    either (λ n. (u + n ≤ 1024) × (are_lines 0 (drop n (x ∷ xs)) ≡ true)) (x == 10) (are_lines 0 xs)
      (are_lines (u + 1) xs) 1 (suc (line_length xs)) parts.1 (λ h. (omega arith, h))
      (λ h. let rest = are_lines-drop (u + 1) xs h (omega arith) in (omega (arith, rest.0), rest.1))

module _ (limit : ℕ) where
  pub length-trim : (fuel : ℕ) (t : List ℕ) → length t ≤ fuel → length (trim fuel limit t) ≤ limit
  unfolding trim
  length-trim zero t l = omega arith
  length-trim (suc fuel) t l =
      if_keeps (λ s. length s ≤ limit) (ltb limit (length t)) _ t
        (λ e.
          length-trim fuel (drop (line_length t) t) (
            omega
              (arith, line_length-positive t (grind (arith, e)), length-drop (line_length t) t)))
        (λ e. grind (arith, e))

  pub trim-are_lines :
      (fuel : ℕ) (t : List ℕ) → are_lines 0 t ≡ true → are_lines 0 (trim fuel limit t) ≡ true
  unfolding trim
  trim-are_lines zero t e = e
  trim-are_lines (suc fuel) t e =
      if_keeps (λ s. are_lines 0 s ≡ true) (ltb limit (length t)) _ _
        (λ long.
          trim-are_lines fuel (drop (line_length t) t)
            (are_lines-drop 0 t e (grind (arith, long))).1)
        (λ _. e)
