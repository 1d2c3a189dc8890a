-- ===== src/Argv/Decoded.antt =====
-- A direct argv as ninitctl writes it (ctl/image.c) is what the child reads, and what ng_verify
-- says of it depends only on the number of strings (src/spawn.c, src/ngraph.c).
use ninit.Prelude.{
  ℕ, zero, suc, ◌+◌, ◌≤◌, ◌<◌, ◌≡◌, inl, inr, refl, ap, ◌∙◌, true, false, not, ◌&&◌, ◌||◌, List, [],
  ◌∷◌, ◌++◌, All, Option, none, some, ltb, leb, length, length-append, if◌then◌else◌, arith,
  Bool-cases,
}
use ninit.Argv.{
  str_fits, ends_here, is_nil, has_slash, max_exec_args, ArgvProblem, too_many, direct_args,
  is_absolute, direct_problem, argv_of, encode,
}
use ninit.Argv.Strings.{IsText, not_zero, str_at-append, str_skip-append, str_len-append}

-- a string that is not empty
abbrev pub IsWord : List ℕ → Type 0
IsWord [] = ⊥
IsWord (c ∷ cs) = IsText (c ∷ cs)

word-IsText : (a : List ℕ) → IsWord a → IsText a
word-IsText [] h = absurd h
word-IsText (c ∷ cs) h = h

goes_on :
    (a rest : List ℕ)
    → IsWord a
    → (is_nil (a ++ 0 ∷ rest) ≡ false) × (ends_here (a ++ 0 ∷ rest) ≡ false)
goes_on [] rest h = absurd h
goes_on (c ∷ cs) rest h = (refl, not_zero c h.0)

-- With more rounds than there are strings, and no empty one among them, the child reads back
-- exactly the strings that were written.
pub argv_of-encode :
    (args : List (List ℕ)) (rest : List ℕ) (fuel : ℕ)
    → All IsWord args
    → length args < fuel
    → argv_of fuel (encode args rest) ≡ args
unfolding encode argv_of
argv_of-encode args rest zero h l = absurd (omega arith)
argv_of-encode [] rest (suc fuel) h l = refl
argv_of-encode (a ∷ tl) rest (suc fuel) h l =
    let text = word-IsText a h.0 in
    rw
      (
        (goes_on a (encode tl rest) h.0).1,
        str_at-append a (encode tl rest) text,
        str_skip-append a (encode tl rest) text,
      )
      (ap (λ xs. a ∷ xs) (argv_of-encode tl rest fuel h.1 (omega arith)))

fits :
    (a rest : List ℕ) (most : ℕ) → IsText a → length a ≤ most → str_fits (a ++ 0 ∷ rest) most ≡ true
unfolding str_fits
fits a rest most h l = rw (str_fits, str_len-append a rest h) (ground (arith, l))

no_inner_slash :
    (a rest : List ℕ)
    → IsWord a
    → (is_absolute a || not (has_slash a)) ≡ true
    → (not (is_absolute (a ++ 0 ∷ rest)) && has_slash a) ≡ false
no_inner_slash [] rest h e = absurd h
no_inner_slash (c ∷ cs) rest h e = ground (arith, e)

abbrev limit : ℕ → Option ArgvProblem
limit k = if leb k max_exec_args then none else some too_many

direct_args-encode :
    (tl : List (List ℕ)) (a rest : List ℕ) (fuel k : ℕ)
    → All IsWord tl
    → All (λ b. length b ≤ 4096) tl
    → IsText a
    → length tl < fuel
    → k ≤ 16
    → direct_args fuel k (a ++ 0 ∷ encode tl rest) ≡ limit (k + length tl)
unfolding direct_args encode
direct_args-encode tl a rest zero k h s t l few = absurd (omega arith)
direct_args-encode [] a rest (suc fuel) k h s t l few =
    let within : leb (k + 0) 16 ≡ true = ground (arith, few) in
    rw (str_skip-append a (0 ∷ rest) t, within) refl
direct_args-encode (b ∷ bs) a rest (suc fuel) k h s t l few =
    let tail = encode bs rest in
    let on = goes_on b tail h.0 in
    let text = word-IsText b h.0 in
    elim (Bool-cases (ltb 16 (k + 1))) [
      | inl e ↦
          let over : leb (k + suc (length bs)) 16 ≡ false = ground (arith, e) in
          rw (str_skip-append a (b ++ 0 ∷ tail) t, on.0, on.1, e, over) refl
      | inr e ↦
          let more : k + 1 ≤ 16 = ground (arith, e) in
          rw (str_skip-append a (b ++ 0 ∷ tail) t, on.0, on.1, e, fits b tail 4096 text s.0)
            (direct_args-encode bs b rest fuel (k + 1) h.1 s.1 text (omega arith) more
              ∙ ap limit (omega arith))
    ]

encode-length : (tl : List (List ℕ)) (rest : List ℕ) → length tl < length (encode tl rest)
unfolding encode
encode-length [] rest = omega arith
encode-length (a ∷ tl) rest =
    omega (arith, length-append a (0 ∷ encode tl rest), encode-length tl rest)

-- For a command of at most 255 bytes that has a slash only if it begins with one, and arguments
-- of at most 4096 bytes, none empty, ng_verify accepts the argv that is written if it has at most 16 strings,
-- and answers else that there are too many.
pub direct_problem-encode :
    (a : List ℕ) (tl : List (List ℕ)) (rest : List ℕ)
    → IsWord a
    → All IsWord tl
    → length a ≤ 255
    → (is_absolute a || not (has_slash a)) ≡ true
    → All (λ b. length b ≤ 4096) tl
    → direct_problem (encode (a ∷ tl) rest)
      ≡ (if leb (length (a ∷ tl)) max_exec_args then none else some too_many)
unfolding direct_problem encode
direct_problem-encode a tl rest w ws l path s =
    let behind = encode tl rest in
    let text = word-IsText a w in
    let on = goes_on a behind w in
    let enough : length tl < length (a ++ 0 ∷ behind) =
      omega (arith, length-append a (0 ∷ behind), encode-length tl rest) in
    rw
      (
        direct_problem,
        on.0,
        on.1,
        fits a behind 255 text l,
        str_at-append a behind text,
        no_inner_slash a behind w path,
      )
      (direct_args-encode tl a rest (length (a ++ 0 ∷ behind)) 1 ws s text enough (omega arith)
        ∙ ap limit (omega arith))
