-- ===== src/Text/Unescape.antt =====
-- The mount table's escapes are undone (src/shutdown.c).
use ninit.Prelude.{
  ℕ, zero, suc, ◌+◌, ◌-◌, ◌*◌, ◌/◌, ◌%◌, ◌≤◌, ◌<◌, ◌≡◌, refl, ap, ◌∙◌, Bool, true, false, List, [],
  ◌∷◌, All, Option, none, some, ◌==◌, if◌then◌else◌, Bool-cases, inl, inr, arith, length,
}
use native.Mathlib.Decide.{ℕ_discrete}
use ninit.Text.{is_octal, octal_at, unescape_from, unescape_mount}

-- How the kernel writes a path into the mount table: the bytes of a set as a backslash and three
-- octal digits.
unfoldable pub escape : (ℕ → Bool) → List ℕ → List ℕ
escape special [] = []
escape special (c ∷ cs) =
    let rest = escape special cs in
    if special c then 92 ∷ (48 + c / 64) ∷ (48 + c / 8 % 8) ∷ (48 + c % 8) ∷ rest else c ∷ rest

octal_byte :
    (c : ℕ)
    → c < 256
    → (rest : List ℕ) → octal_at ((48 + c / 64) ∷ (48 + c / 8 % 8) ∷ (48 + c % 8) ∷ rest) ≡ some c
unfolding octal_at
octal_byte c l rest =
    let low : (d : ℕ) → d < 8 → is_octal (48 + d) ≡ true = λ d m. ground (arith, m) in
    let high : c / 64 < 8 = omega arith in
    let middle : c / 8 % 8 < 8 = omega arith in
    let last : c % 8 < 8 = omega arith in
    let value : ((48 + c / 64 - 48) * 64 + (48 + c / 8 % 8 - 48) * 8 + (48 + c % 8 - 48)) % 256
        ≡ c =
      omega arith in
    rw (low (c / 64) high, low (c / 8 % 8) middle, low (c % 8) last) (ap some value)

unescape-escaped :
    (rest : List ℕ) (v : ℕ)
    → octal_at rest ≡ some v
    → unescape_from 0 (92 ∷ rest) ≡ v ∷ unescape_from 3 rest
unfolding unescape_from
unescape-escaped rest v e = rw (unescape_from, e) refl

unescape-plain :
    (c : ℕ) (rest : List ℕ)
    → (c == 92) ≡ false
    → unescape_from 0 (c ∷ rest) ≡ c ∷ unescape_from 0 rest
unfolding unescape_from
unescape-plain c rest e = rw (unescape_from, e) refl

-- Where the kernel escapes the backslash, whatever else it escapes, unescape_mount gives back the
-- path that it wrote.
pub unescape_mount-escape :
    (special : ℕ → Bool) (path : List ℕ)
    → special 92 ≡ true
    → All (λ c. c < 256) path
    → unescape_mount (escape special path) ≡ path
unfolding unescape_from escape
unescape_mount-escape special [] back l = refl
unescape_mount-escape special (c ∷ cs) back l =
    let after = ap (λ xs. c ∷ xs) (unescape_mount-escape special cs back l.1) in
    elim (Bool-cases (special c)) [
      | inl e ↦ rw e (
          unescape-escaped ((48 + c / 64) ∷ (48 + c / 8 % 8) ∷ (48 + c % 8) ∷ escape special cs) c
            (octal_byte c l.0 (escape special cs))
          ∙ after)
      | inr e ↦
          let plain : (c == 92) ≡ false = elim (ℕ_discrete c 92) [
            | yes q ↦ absurd (ground (arith, ap special q, back, e))
            | no other ↦ ground (arith, other)
          ] in
          rw e (unescape-plain c (escape special cs) plain ∙ after)
    ]

-- The path that is left is no longer than the line that was read, so it can be written in place.
pub unescape_from-length : (skip : ℕ) (s : List ℕ) → length (unescape_from skip s) ≤ length s
unfolding unescape_from
unescape_from-length skip [] = omega arith
unescape_from-length (suc skip) (c ∷ cs) = omega (arith, unescape_from-length skip cs)
unescape_from-length zero (c ∷ cs) =
    go (if c == 92 then octal_at cs else none) (unescape_from-length 3 cs)
      (unescape_from-length 0 cs)
  where
    go :
        (o : Option ℕ)
        → length (unescape_from 3 cs) ≤ length cs
        → length (unescape_from 0 cs) ≤ length cs
        → length (elim o [ some v ↦ v ∷ unescape_from 3 cs | none ↦ c ∷ unescape_from 0 cs ])
          ≤ suc (length cs)
    go none a b = omega arith
    go (some v) a b = omega arith
