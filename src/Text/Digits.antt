-- ===== src/Text/Digits.antt =====
-- The numbers that put_num prints are read back, and fit its buffer (src/spawn.c).
use ninit.Prelude.{
  ℕ, zero, suc, ◌+◌, ◌-◌, ◌*◌, ◌/◌, ◌%◌, ◌^◌, ◌≤◌, ◌<◌, ◌≡◌, refl, sym, ap, ◌∙◌, List, [], ◌∷◌,
  ◌++◌, ◌==◌, ◌&&◌, ltb, leb, if◌then◌else◌, true, false, Option, some, none, All, ◌≢◌, if_keeps,
  arith, length,
}
use mathlib.Core.List.{append-nil, append_assoc}
use native.Mathlib.Nat.{pow-suc}
use ninit.Text.{digits, put_back, put_num}

-- the decimal digits as they are read, from the first on: none of another byte
unfoldable pub read_digits : ℕ → List ℕ → Option ℕ
read_digits acc [] = some acc
read_digits acc (d ∷ ds) =
    let rest = read_digits (acc * 10 + (d - 48)) ds in if leb 48 d && leb d 57 then rest else none

-- a decimal number as it is read: none of the empty text, and none of a leading zero but in "0"
unfoldable pub read_decimal : List ℕ → Option ℕ
read_decimal [] = none
read_decimal (d ∷ ds) = if d == 48 && ltb 0 (length ds) then none else read_digits 0 (d ∷ ds)

-- the value of digits, from the first on
unfoldable value : ℕ → List ℕ → ℕ
value acc [] = acc
value acc (d ∷ ds) = value (acc * 10 + (d - 48)) ds

-- the same from the last digit on
unfoldable from_last : List ℕ → ℕ
from_last [] = 0
from_last (d ∷ ds) = (d - 48) + from_last ds * 10

value-append :
    (acc : ℕ) (ds : List ℕ) (d : ℕ) → value acc (ds ++ d ∷ []) ≡ value acc ds * 10 + (d - 48)
unfolding value
value-append acc [] d = refl
value-append acc (x ∷ ds) d = value-append (acc * 10 + (x - 48)) ds d

value-put_back : (ds : List ℕ) → value 0 (put_back [] ds) ≡ from_last ds
unfolding value put_back from_last
value-put_back [] = refl
value-put_back (d ∷ ds) = value-append 0 (put_back [] ds) d ∙ omega (arith, value-put_back ds)

tenth : (v f : ℕ) → v < 10 ^ suc f → v / 10 < 10 ^ f
tenth v f l = omega (arith, pow-suc 10 f)

digits-from_last : (fuel v : ℕ) → v < 10 ^ fuel → from_last (digits fuel v) ≡ v
unfolding digits from_last
digits-from_last zero v l = omega arith
digits-from_last (suc fuel) v l =
    let rest = digits-from_last fuel (v / 10) (tenth v fuel l) in
    if_keeps (λ ds. (48 + v % 10 - 48) + from_last ds * 10 ≡ v) (v / 10 == 0) []
      (digits fuel (v / 10)) (λ e. ground (arith, e)) (λ _. omega (arith, rest))

digits-length : (fuel k v : ℕ) → v < 10 ^ suc k → length (digits fuel v) ≤ suc k
unfolding digits
digits-length zero k v l = omega arith
digits-length (suc fuel) zero v l =
    if_keeps (λ ds. suc (length ds) ≤ 1) (v / 10 == 0) [] (digits fuel (v / 10)) (λ _. omega arith)
      (λ e. absurd (ground (arith, l, e)))
digits-length (suc fuel) (suc k) v l =
    let rest = digits-length fuel k (v / 10) (tenth v (suc k) l) in
    if_keeps (λ ds. suc (length ds) ≤ suc (suc k)) (v / 10 == 0) [] (digits fuel (v / 10))
      (λ _. omega arith) (λ _. omega (arith, rest))

put_back-append : (dst ds : List ℕ) → put_back dst ds ≡ dst ++ put_back [] ds
unfolding put_back
put_back-append dst [] = sym (append-nil dst)
put_back-append dst (d ∷ ds) =
    ap (λ xs. xs ++ d ∷ []) (put_back-append dst ds) ∙ append_assoc dst (put_back [] ds) (d ∷ [])

abbrev IsDigit : ℕ → Type 0
IsDigit d = (48 ≤ d) × (d ≤ 57)

digits-IsDigit : (fuel v : ℕ) → All IsDigit (digits fuel v)
unfolding digits
digits-IsDigit zero v = tt
digits-IsDigit (suc fuel) v = (
  (omega arith, omega arith),
  if_keeps (All IsDigit) (v / 10 == 0) [] (digits fuel (v / 10)) (λ _. tt)
      (λ _. digits-IsDigit fuel (v / 10)),
)

All-append : (xs : List ℕ) (d : ℕ) → All IsDigit xs → IsDigit d → All IsDigit (xs ++ d ∷ [])
All-append [] d a k = (k, tt)
All-append (x ∷ xs) d a k = (a.0, All-append xs d a.1 k)

put_back-IsDigit : (ds : List ℕ) → All IsDigit ds → All IsDigit (put_back [] ds)
unfolding put_back
put_back-IsDigit [] a = tt
put_back-IsDigit (d ∷ ds) a = All-append (put_back [] ds) d (put_back-IsDigit ds a.1) a.0

read_digits-value :
    (acc : ℕ) (ds : List ℕ) → All IsDigit ds → read_digits acc ds ≡ some (value acc ds)
unfolding read_digits value
read_digits-value acc [] a = refl
read_digits-value acc (d ∷ ds) a =
    let test : (leb 48 d && leb d 57) ≡ true = ground (arith, a.0.0, a.0.1) in
    rw test (read_digits-value (acc * 10 + (d - 48)) ds a.1)

-- a text with a first byte, which is no zero
abbrev Starts : List ℕ → Type 0
Starts [] = ⊥
Starts (d ∷ ds) = d ≢ 48

Starts-append : (xs : List ℕ) (d : ℕ) → Starts xs → Starts (xs ++ d ∷ [])
Starts-append [] d h = absurd h
Starts-append (x ∷ xs) d h = h

digits-Starts : (fuel v : ℕ) → v < 10 ^ fuel → v ≢ 0 → Starts (put_back [] (digits fuel v))
unfolding digits put_back
digits-Starts zero v l ne = absurd (ne (omega arith))
digits-Starts (suc fuel) v l ne =
    if_keeps (λ ds. Starts (put_back [] ds ++ (48 + v % 10) ∷ [])) (v / 10 == 0) []
      (digits fuel (v / 10)) (λ e z. ground (arith, e, z, ne))
      (λ e.
        Starts-append (put_back [] (digits fuel (v / 10))) (48 + v % 10)
          (digits-Starts fuel (v / 10) (tenth v fuel l) (λ z. absurd (ground (arith, e, z)))))

read_decimal-Starts :
    (ds : List ℕ) → Starts ds → All IsDigit ds → read_decimal ds ≡ some (value 0 ds)
unfolding read_decimal
read_decimal-Starts [] h a = absurd h
read_decimal-Starts (d ∷ ds) h a =
    let test : (d == 48 && ltb 0 (length ds)) ≡ false = ground (arith, h) in
    rw test (read_digits-value 0 (d ∷ ds) a)

read_decimal-digits :
    (fuel v : ℕ) → v < 10 ^ suc fuel → read_decimal (put_back [] (digits (suc fuel) v)) ≡ some v
unfolding digits put_back read_digits read_decimal
read_decimal-digits fuel zero l = refl
read_decimal-digits fuel (suc n) l =
    let v = suc n in
    read_decimal-Starts (put_back [] (digits (suc fuel) v))
      (digits-Starts (suc fuel) v l (λ z. absurd (omega (arith, z))))
      (put_back-IsDigit (digits (suc fuel) v) (digits-IsDigit (suc fuel) v))
    ∙ ap some (value-put_back (digits (suc fuel) v) ∙ digits-from_last (suc fuel) v l)

-- A number of 32 bits that put_num prints is put behind what is there. It is printed in decimal, 0
-- as well: one digit at least, no other bytes, no leading zero but in "0", and the number is read
-- back. Its digits fit the buffer of 10 bytes.
pub read_decimal-put_num :
    (dst : List ℕ) (v : ℕ)
    → v < 4294967296
    → (put_num dst v ≡ dst ++ put_num [] v)
      × (read_decimal (put_num [] v) ≡ some v)
      × (length (digits 11 v) ≤ 10)
read_decimal-put_num dst v l = (
  put_back-append dst (digits 11 v),
  read_decimal-digits 10 v (omega arith),
  digits-length 11 9 v (omega arith),
)
