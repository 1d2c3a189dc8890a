-- ===== src/Argv/Strings.antt =====
-- The strings of the image's table, as memchr and strlen see them (src/ngraph.c).
use ninit.Prelude.{
  ℕ, suc, ◌≤◌, ◌≡◌, ◌≢◌, refl, ap, subst, ◌∙◌, true, false, List, [], ◌∷◌, ◌++◌, All, Option, none,
  some, ◌==◌, leb, length, if◌then◌else◌, arith, Bool-cases, inl, inr,
}
use mathlib.Core.Option.{some-injective}
use ninit.Argv.{str_len, str_at, str_skip, str_fits}

pub not_zero : (c : ℕ) → c ≢ 0 → (c == 0) ≡ false
not_zero c ne = ground (arith, ne)

-- the string is as long as strlen says
str_at-length : (s : List ℕ) (k : ℕ) → str_len s ≡ some k → length (str_at s) ≡ k
unfolding str_len str_at
str_at-length [] k e = absurd (ground (arith, e))
str_at-length (c ∷ cs) k e = elim (Bool-cases (c == 0)) [
  | inl z ↦
      let same : some 0 ≡ some k =
        subst
          (λ b.
            (if b then some 0 else elim (str_len cs) [ none ↦ none | some j ↦ some (suc j) ])
            ≡ some k)
          z e in
      rw z (some-injective 0 k same)
  | inr nz ↦ rw nz (
      go (str_len cs) (str_at-length cs) (
        subst
          (λ b.
            (if b then some 0 else elim (str_len cs) [ none ↦ none | some j ↦ some (suc j) ])
            ≡ some k)
          nz e))
]
  where
    go :
        (o : Option ℕ)
        → ((j : ℕ) → o ≡ some j → length (str_at cs) ≡ j)
        → elim o [ none ↦ none | some j ↦ some (suc j) ] ≡ some k
        → suc (length (str_at cs)) ≡ k
    go none h q = absurd (ground (arith, q))
    go (some j) h q = ap suc (h j refl) ∙ some-injective (suc j) k q

-- A string that fits is no longer than the limit.
pub str_fits-length : (s : List ℕ) (cap : ℕ) → str_fits s cap ≡ true → length (str_at s) ≤ cap
unfolding str_fits
str_fits-length s cap e = go (str_len s) (str_at-length s) e
  where
    go :
        (o : Option ℕ)
        → ((k : ℕ) → o ≡ some k → length (str_at s) ≡ k)
        → elim o [ none ↦ false | some k ↦ leb k cap ] ≡ true
        → length (str_at s) ≤ cap
    go none h q = absurd (ground (arith, q))
    go (some k) h q =
        let long = h k refl in let few : k ≤ cap = ground (arith, q) in omega (arith, long, few)

-- bytes that are not the end of a string
abbrev pub IsText : List ℕ → Type 0
IsText a = All (λ c. c ≢ 0) a

pub str_at-append : (a rest : List ℕ) → IsText a → str_at (a ++ 0 ∷ rest) ≡ a
unfolding str_at
str_at-append [] rest h = refl
str_at-append (c ∷ cs) rest h =
    let nz : (c == 0) ≡ false = not_zero c h.0 in
    rw nz (ap (λ xs. c ∷ xs) (str_at-append cs rest h.1))

pub str_skip-append : (a rest : List ℕ) → IsText a → str_skip (a ++ 0 ∷ rest) ≡ rest
unfolding str_skip
str_skip-append [] rest h = refl
str_skip-append (c ∷ cs) rest h =
    let nz : (c == 0) ≡ false = not_zero c h.0 in rw nz (str_skip-append cs rest h.1)

pub str_len-append : (a rest : List ℕ) → IsText a → str_len (a ++ 0 ∷ rest) ≡ some (length a)
unfolding str_len
str_len-append [] rest h = refl
str_len-append (c ∷ cs) rest h =
    let nz : (c == 0) ≡ false = not_zero c h.0 in rw (nz, str_len-append cs rest h.1) refl
