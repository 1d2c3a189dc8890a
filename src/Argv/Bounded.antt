-- ===== src/Argv/Bounded.antt =====
-- A direct argv that ng_verify accepts fits the array of the child (src/ngraph.c, src/spawn.c).
use ninit.Prelude.{
  ℕ, zero, suc, ◌+◌, ◌≤◌, ◌≡◌, true, not, ◌&&◌, List, [], ◌∷◌, All, Option, none, some, ltb, length,
  if_keeps, arith,
}
use ninit.Argv.{
  str_at, str_skip, str_fits, ends_here, is_nil, has_slash, max_interp, max_exec_args, max_exec_arg,
  ArgvProblem, out_of_range, empty, command_long, slash_inside, run_past, too_many, arg_long,
  direct_args, is_absolute, direct_problem, argv_of,
}
use ninit.Argv.Strings.{str_fits-length}

-- with `args` strings before them: no more than 16 in all, and none too long
pub record IsBounded (args : ℕ) (argv : List (List ℕ)) : Type 0 where
  pub few : args + length argv ≤ 16
  pub short : All (λ a. length a ≤ 4096) argv

-- what a refusal does not answer
refused : {P : Type 0} (p : ArgvProblem) → Path (Option ArgvProblem) (some p) none → P
refused p e = absurd (ground (arith, e))

stop :
    (args fuel : ℕ) (s : List ℕ) → args ≤ 16 → ends_here s ≡ true → IsBounded args (argv_of fuel s)
unfolding argv_of
stop args zero s l e = record { few = omega arith; short = tt }
stop args (suc fuel) s l e = rw e (record { few = omega arith; short = tt })

go_on :
    (args fuel : ℕ) (s : List ℕ)
    → args ≤ 16
    → length (str_at s) ≤ 4096
    → ((k : ℕ) → IsBounded (args + 1) (argv_of k (str_skip s)))
    → args + 1 ≤ 16
    → IsBounded args (argv_of fuel s)
unfolding argv_of
go_on args zero s l m h n = record { few = omega arith; short = tt }
go_on args (suc fuel) s l m h n =
    if_keeps (IsBounded args) (ends_here s) [] (str_at s ∷ argv_of fuel (str_skip s))
      (λ _. record { few = omega arith; short = tt })
      (λ _. record { few = omega (arith, (h fuel).few); short = (m, (h fuel).short) })

direct_args-IsBounded :
    (fuel args : ℕ) (s : List ℕ)
    → args ≤ 16
    → direct_args fuel args s ≡ none
    → (k : ℕ) → IsBounded args (argv_of k (str_skip s))
unfolding direct_args
direct_args-IsBounded zero args s l e k = refused run_past e
direct_args-IsBounded (suc fuel) args s l e k =
    let rest = str_skip s in
    let Goal = λ (o : Option ArgvProblem). (o ≡ none → IsBounded args (argv_of k rest)) in
    if_keeps Goal (is_nil rest) _ _ (λ _ q. refused run_past q)
      (λ _.
        if_keeps Goal (ends_here rest) _ _ (λ z q. stop args k rest l z)
          (λ _.
            if_keeps Goal (ltb max_exec_args (args + 1)) _ _ (λ _ q. refused too_many q)
              (λ few.
                if_keeps Goal (not (str_fits rest max_exec_arg)) _ _ (λ _ q. refused arg_long q)
                  (λ fits q.
                    let more : args + 1 ≤ 16 = ground (arith, few) in
                    go_on args k rest l (str_fits-length rest 4096 (ground (arith, fits)))
                      (direct_args-IsBounded fuel (args + 1) rest more q) more))))
      e

-- Where ng_verify finds no problem with a direct argv, the child fills no more than the 18 places
-- of its array, the one before the argv and the closing NULL included, and no string is longer
-- than 4096 bytes.
pub direct_problem-argv :
    (s : List ℕ) (fuel : ℕ)
    → direct_problem s ≡ none
    → (1 + length (argv_of fuel s) + 1 ≤ max_exec_args + 2)
      × All (λ a. length a ≤ 4096) (argv_of fuel s)
unfolding direct_problem
direct_problem-argv s fuel e =
    let Goal = λ (o : Option ArgvProblem). (o ≡ none → IsBounded 0 (argv_of fuel s)) in
    let h =
      if_keeps Goal (is_nil s) _ _ (λ _ q. refused out_of_range q)
        (λ _.
          if_keeps Goal (ends_here s) _ _ (λ _ q. refused empty q)
            (λ _.
              if_keeps Goal (not (str_fits s max_interp)) _ _ (λ _ q. refused command_long q)
                (λ fits.
                  if_keeps Goal (not (is_absolute s) && has_slash (str_at s)) _ _
                    (λ _ q. refused slash_inside q)
                    (λ _ q.
                      let first = str_fits-length s 255 (ground (arith, fits)) in
                      go_on 0 fuel s (omega arith) (omega (arith, first))
                        (direct_args-IsBounded (length s) 1 s (omega arith) q) (omega arith)))))
        e in
    (omega (arith, h.few), h.short)
