-- ===== src/Examples/Text.antt =====
-- A path with a space, and a pid.
use ninit.Prelude.{ℕ, ◌≡◌, refl, List, [], ◌∷◌, ◌==◌, ◌||◌, arith, some, none, length, ◌≤◌}
use ninit.Text.{octal_at, unescape_from, unescape_mount, digits, put_num}
use ninit.Text.Unescape.{escape, unescape_mount-escape}
use ninit.Text.Digits.{read_digits, read_decimal, read_decimal-put_num}

-- "/a b"
abbrev spaced : List ℕ
spaced = 47 ∷ 97 ∷ 32 ∷ 98 ∷ []

unescape_mount-escape_example : unescape_mount (escape (λ c. c == 92 || c == 32) spaced) ≡ spaced
unescape_mount-escape_example =
    unescape_mount-escape (λ c. c == 92 || c == 32) spaced refl
      (omega arith, (omega arith, (omega arith, (omega arith, tt))))

-- what is no escape stays, and a value past a byte is cut
odd_escapes : unescape_mount (92 ∷ 48 ∷ 56 ∷ 92 ∷ 55 ∷ 55 ∷ 55 ∷ []) ≡ 92 ∷ 48 ∷ 56 ∷ 255 ∷ []
unfolding unescape_from octal_at
odd_escapes = refl

read_decimal-put_num_example :
    (put_num (112 ∷ []) 4294967295 ≡ 112 ∷ put_num [] 4294967295)
    × (read_decimal (put_num [] 4294967295) ≡ some 4294967295)
    × (length (digits 11 4294967295) ≤ 10)
read_decimal-put_num_example = read_decimal-put_num (112 ∷ []) 4294967295 (omega arith)

-- what is no decimal number
no_decimals :
    (read_decimal [] ≡ none)
    × (read_decimal (48 ∷ 49 ∷ []) ≡ none)
    × (read_decimal (49 ∷ 58 ∷ []) ≡ none)
unfolding read_digits read_decimal
no_decimals = (refl, refl, refl)

-- "\040"
abbrev escaped_space : List ℕ
escaped_space = 92 ∷ 48 ∷ 52 ∷ 48 ∷ []
