-- ===== src/Argv.antt =====
-- The argument lists of a direct exec in the image's string table: what ng_verify asks of one
-- (src/ngraph.c), and what the child makes of it (src/spawn.c). A text is the rest of the table
-- from its offset on, as its bytes.
pub mod Strings
pub mod Bounded
pub mod Decoded
use ninit.Prelude.{
  ℕ, zero, suc, ◌+◌, Bool, true, false, not, ◌&&◌, ◌||◌, List, [], ◌∷◌, ◌++◌, Option, none, some,
  ◌==◌, ltb, leb, length, if◌then◌else◌,
}

-- strlen, where the text has an end
unfoldable pub str_len : List ℕ → Option ℕ
str_len [] = none
str_len (c ∷ cs) =
    if c == 0 then some 0 else elim (str_len cs) [ none ↦ none | some k ↦ some (suc k) ]

-- the string, and what stands behind its end
unfoldable pub str_at : List ℕ → List ℕ
str_at [] = []
str_at (c ∷ cs) = let rest = str_at cs in if c == 0 then [] else (c ∷ rest)

unfoldable pub str_skip : List ℕ → List ℕ
str_skip [] = []
str_skip (c ∷ cs) = let rest = str_skip cs in if c == 0 then cs else rest

-- str_fits, at an offset within the table
unfoldable pub str_fits : List ℕ → ℕ → Bool
str_fits s cap = elim (str_len s) [ none ↦ false | some k ↦ leb k cap ]

-- *p == 0, or the end of the table
abbrev pub ends_here : List ℕ → Bool
ends_here [] = true
ends_here (c ∷ cs) = c == 0

abbrev pub is_nil : List ℕ → Bool
is_nil [] = true
is_nil (c ∷ cs) = false

unfoldable pub has_slash : List ℕ → Bool
has_slash [] = false
has_slash (c ∷ cs) = c == 47 || has_slash cs

abbrev pub max_interp : ℕ
max_interp = 255

abbrev pub max_exec_args : ℕ
max_exec_args = 16

abbrev pub max_exec_arg : ℕ
max_exec_arg = 4096

-- what direct_problem answers
pub data ArgvProblem : Type 0 where
  out_of_range empty command_long slash_inside run_past too_many arg_long : ArgvProblem

-- the loop of direct_problem
unfoldable pub direct_args : ℕ → ℕ → List ℕ → Option ArgvProblem
direct_args zero args s = some run_past
direct_args (suc fuel) args s =
    let rest = str_skip s in
    let more = direct_args fuel (args + 1) rest in
    if is_nil rest
    then some run_past
    else if ends_here rest
    then none
    else if ltb max_exec_args (args + 1)
    then some too_many
    else if not (str_fits rest max_exec_arg)
    then some arg_long
    else more

-- the text begins with a slash
abbrev pub is_absolute : List ℕ → Bool
is_absolute [] = false
is_absolute (c ∷ cs) = c == 47

unfoldable pub direct_problem : List ℕ → Option ArgvProblem
direct_problem s =
    if is_nil s
    then some out_of_range
    else if ends_here s
    then some empty
    else if not (str_fits s max_interp)
    then some command_long
    else if not (is_absolute s) && has_slash (str_at s)
    then some slash_inside
    else direct_args (length s) 1 s

-- the loop of child_exec over a direct argv
unfoldable pub argv_of : ℕ → List ℕ → List (List ℕ)
argv_of zero p = []
argv_of (suc fuel) p =
    let rest = argv_of fuel (str_skip p) in if ends_here p then [] else str_at p ∷ rest

-- what ninitctl adds to the table for a direct argv, with what it adds behind it: the strings with
-- their ends, and an empty one (ctl/image.c)
unfoldable pub encode : List (List ℕ) → List ℕ → List ℕ
encode [] rest = 0 ∷ rest
encode (a ∷ tl) rest = a ++ 0 ∷ encode tl rest
