-- ===== src/Examples/Names.antt =====
-- Three services whose names are numbers, and their order by name.
use ninit.Prelude.{ℕ, ◌<◌, ◌≡◌, refl, some, ltb, ◌==◌, if◌then◌else◌, arith}
use ninit.Names.{Sign, below, same, above, IsComparison, lookup, lookup-finds}

abbrev compare_numbers : ℕ → ℕ → Sign
compare_numbers x y = if ltb x y then below else if x == y then same else above

compare_numbers-IsComparison : IsComparison compare_numbers
compare_numbers-IsComparison = record {
  equal = λ x y e. ground (arith, e);
  itself = λ x. ground arith;
  turned = λ x y e. ground (arith, e);
}

-- the names 20, 0 and 10
abbrev name_of : ℕ → ℕ
name_of i = if i == 0 then 20 else if i == 1 then 0 else 10

abbrev by_name : ℕ → ℕ
by_name k = if k == 0 then 1 else if k == 1 then 2 else 0

lookup-finds_example :
    ((k : ℕ)
      → k < 3
      → name_of (by_name k) ≡ 10
      → lookup compare_numbers name_of by_name 10 3 0 3 ≡ some (by_name k))
    × ((s : ℕ) → lookup compare_numbers name_of by_name 10 3 0 3 ≡ some s → name_of s ≡ 10)
lookup-finds_example =
    lookup-finds compare_numbers name_of by_name 3 10 compare_numbers-IsComparison
      (λ i j l m. ground (arith, l, m))

ten_found : lookup compare_numbers name_of by_name 10 3 0 3 ≡ some 2
unfolding lookup
ten_found = refl
