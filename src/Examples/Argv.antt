-- ===== src/Examples/Argv.antt =====
-- The argv of "/bin/d -f".
use ninit.Prelude.{
  ℕ, ◌+◌, ◌≤◌, ◌≡◌, refl, List, [], ◌∷◌, All, none, some, leb, length, if◌then◌else◌, arith,
}
use ninit.Argv.{
  max_exec_args, too_many, str_len, str_at, str_skip, str_fits, direct_args, direct_problem,
  argv_of, encode,
}
use ninit.Argv.Bounded.{direct_problem-argv}
use ninit.Argv.Decoded.{IsWord, argv_of-encode, direct_problem-encode}

abbrev command : List ℕ
command = 47 ∷ 98 ∷ 105 ∷ 110 ∷ 47 ∷ 100 ∷ []

abbrev flag : List ℕ
flag = 45 ∷ 102 ∷ []

-- the next string of the table stands behind it
abbrev table : List ℕ
table = encode (command ∷ flag ∷ []) (120 ∷ 0 ∷ [])

accepted : direct_problem table ≡ none
unfolding direct_problem direct_args str_fits str_len str_at str_skip encode
accepted = refl

direct_problem-argv_example :
    (1 + length (argv_of 9 table) + 1 ≤ max_exec_args + 2)
    × All (λ a. length a ≤ 4096) (argv_of 9 table)
direct_problem-argv_example = direct_problem-argv table 9 accepted

nonzero : {c : ℕ} → 1 ≤ c → c ≡ 0 → ⊥
nonzero l e = absurd (omega (arith, l, e))

command-IsWord : IsWord command
command-IsWord = (
  nonzero (omega arith),
  (
    nonzero (omega arith),
    (
      nonzero (omega arith),
      (nonzero (omega arith), (nonzero (omega arith), (nonzero (omega arith), tt))),
    ),
  ),
)

flag-IsWord : IsWord flag
flag-IsWord = (nonzero (omega arith), (nonzero (omega arith), tt))

argv_of-encode_example : argv_of 9 table ≡ command ∷ flag ∷ []
argv_of-encode_example =
    argv_of-encode (command ∷ flag ∷ []) (120 ∷ 0 ∷ []) 9 (command-IsWord, (flag-IsWord, tt))
      (omega arith)

direct_problem-encode_example :
    direct_problem (encode (command ∷ flag ∷ []) [])
    ≡ (if leb (length (command ∷ flag ∷ [])) max_exec_args then none else some too_many)
direct_problem-encode_example =
    direct_problem-encode command (flag ∷ []) [] command-IsWord (flag-IsWord, tt) (omega arith) refl
      (omega arith, tt)
