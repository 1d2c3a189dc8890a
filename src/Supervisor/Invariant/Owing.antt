-- ===== src/Supervisor/Invariant/Owing.antt =====
-- How the two sums of IsLinked change by one flag or one entry of a work list.
use ninit.Prelude.{
  ℕ, ◌+◌, ◌*◌, ◌<◌, ◌≡◌, refl, ap, Bool, true, false, not, List, [], ◌∷◌, ◌++◌, arith, bit, count,
  update, update_self, update_ne, sum-change,
}
use ninit.Graph.{Graph, dependents}
use ninit.Supervisor.Invariant.Defs.{unreleased, owing}

module _ (g : Graph) (d : ℕ) where
  pub owing-append : (xs ys : List ℕ) → owing g (xs ++ ys) d ≡ owing g xs d + owing g ys d
  unfolding owing
  owing-append [] ys = omega arith
  owing-append (x ∷ xs) ys = omega (arith, owing-append xs ys)

  pub owing-one : (j : ℕ) → owing g (j ∷ []) d ≡ count d (dependents g j)
  unfolding owing
  owing-one j = omega arith

  pub owing-cons :
      (j : ℕ) (js : List ℕ) → owing g (j ∷ js) d ≡ count d (dependents g j) + owing g js d
  unfolding owing
  owing-cons j js = refl

  pub owing-nil : owing g [] d ≡ 0
  unfolding owing
  owing-nil = refl

  -- one flag changes the sum by the edges of its service
  flag_change :
      (released : ℕ → Bool) (i : ℕ) (v : Bool)
      → i < g.n_svc
      → unreleased g (update released i v) d + bit (not (released i)) * count d (dependents g i)
        ≡ unreleased g released d + bit (not v) * count d (dependents g i)
  flag_change released i v l =
      let weight = λ (b : Bool). λ (j : ℕ). bit (not b) * count d (dependents g j) in
      let change =
        sum-change g.n_svc i (λ j. weight (update released i v j) j) (λ j. weight (released j) j) l
          (λ j ne. ap (λ b. weight b j) (update_ne released i v ne)) in
      omega (arith, change, ap (λ b. weight b i) (update_self released i v))

  pub unreleased-lower :
      (released : ℕ → Bool) (i : ℕ)
      → i < g.n_svc
      → released i ≡ true
      → unreleased g (update released i false) d
        ≡ unreleased g released d + count d (dependents g i)
  unreleased-lower released i l e =
      omega
        (arith, flag_change released i false l, ap (λ b. bit (not b) * count d (dependents g i)) e)

  pub unreleased-raise :
      (released : ℕ → Bool) (i : ℕ)
      → i < g.n_svc
      → released i ≡ false
      → unreleased g (update released i true) d + count d (dependents g i) ≡ unreleased g released d
  unreleased-raise released i l e =
      omega
        (arith, flag_change released i true l, ap (λ b. bit (not b) * count d (dependents g i)) e)
