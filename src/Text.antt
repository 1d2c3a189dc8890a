-- ===== src/Text.antt =====
-- Text that pid 1 decodes and prints: the escapes of the mount table (src/shutdown.c) and the
-- numbers in what a child of pid 1 writes (src/spawn.c). A byte is its number.
pub mod Unescape
pub mod Digits
use ninit.Prelude.{
  ℕ, zero, suc, ◌+◌, ◌-◌, ◌*◌, ◌/◌, ◌%◌, Bool, ◌&&◌, List, [], ◌∷◌, ◌++◌, Option, none, some, ◌==◌,
  leb, if◌then◌else◌,
}

-- between '0' and '7'
abbrev pub is_octal : ℕ → Bool
is_octal c = leb 48 c && leb c 55

-- the three octal digits at the start, as the byte that they are converted to
unfoldable pub octal_at : List ℕ → Option ℕ
octal_at (a ∷ b ∷ c ∷ rest) =
    if is_octal a && is_octal b && is_octal c
    then some (((a - 48) * 64 + (b - 48) * 8 + (c - 48)) % 256)
    else none
octal_at _ = none

-- unescape_mount, with the bytes to be skipped by `s += 3`
unfoldable pub unescape_from : ℕ → List ℕ → List ℕ
unescape_from skip [] = []
unescape_from (suc skip) (c ∷ cs) = unescape_from skip cs
unescape_from zero (c ∷ cs) = elim (if c == 92 then octal_at cs else none) [
  | some v ↦ v ∷ unescape_from 3 cs
  | none ↦ c ∷ unescape_from 0 cs
]

abbrev pub unescape_mount : List ℕ → List ℕ
unescape_mount s = unescape_from 0 s

-- the `do` loop of put_num: the digits, from the last to the first
unfoldable pub digits : ℕ → ℕ → List ℕ
digits zero v = []
digits (suc fuel) v =
    let rest = digits fuel (v / 10) in (48 + v % 10) ∷ (if v / 10 == 0 then [] else rest)

-- the second loop
unfoldable pub put_back : List ℕ → List ℕ → List ℕ
put_back dst [] = dst
put_back dst (d ∷ ds) = put_back dst ds ++ d ∷ []

-- put_num: the digits behind what is there
abbrev pub put_num : List ℕ → ℕ → List ℕ
put_num dst v = put_back dst (digits 11 v)
