-- ===== src/Names.antt =====
-- The search for a service by its name when ninitctl links a graph (ctl/graph.c). strcmp is the C
-- library's: a parameter, with what it promises.
use ninit.Prelude.{
  ℕ, zero, suc, ◌+◌, ◌-◌, ◌/◌, ◌≤◌, ◌<◌, ◌≡◌, ◌⊎◌, inl, inr, refl, sym, ap, subst, ◌∙◌, true,
  Bool-cases, not, Option, none, some, ltb, if◌then◌else◌, if_keeps, arith,
}
use mathlib.Core.Option.{some-injective}

-- the sign of what strcmp gives
pub data Sign : Type 0 where
  below same above : Sign

place : (x y : ℕ) → (x < y) ⊎ ((x ≡ y) ⊎ (y < x))
place x y = elim (Bool-cases (ltb x y)) [
  | inl e ↦ inl (ground (arith, e))
  | inr e ↦ elim (Bool-cases (ltb y x)) [
    | inl f ↦ inr (inr (ground (arith, f)))
    | inr f ↦ inr (inl (ground (arith, e, f)))
  ]
]

module _ {Name : Type 0} (strcmp : Name → Name → Sign) where
  -- strcmp orders the names.
  pub record IsComparison : Type 0 where
    pub equal : (x y : Name) → strcmp x y ≡ same → x ≡ y
    pub itself : (x : Name) → strcmp x x ≡ same
    pub turned : (x y : Name) → strcmp x y ≡ below → strcmp y x ≡ above

  module _ (name_of : ℕ → Name) (byname : ℕ → ℕ) (name : Name) where
    -- the loop of lookup(); UINT32_MAX is `none`
    unfoldable pub lookup : ℕ → ℕ → ℕ → Option ℕ
    lookup zero lo hi = none
    lookup (suc fuel) lo hi =
        let mid = lo + (hi - lo) / 2 in
        let right = lookup fuel (mid + 1) hi in
        let left = lookup fuel lo mid in
        if not (ltb lo hi) then none else elim (strcmp (name_of (byname mid)) name) [
          | same ↦ some (byname mid)
          | below ↦ right
          | above ↦ left
        ]

    -- what is found has the name
    lookup_sound : IsComparison → (fuel lo hi s : ℕ) → lookup fuel lo hi ≡ some s → name_of s ≡ name
    unfolding lookup
    lookup_sound cmp zero lo hi s e = absurd (ground (arith, e))
    lookup_sound cmp (suc fuel) lo hi s e =
        let mid = lo + (hi - lo) / 2 in
        let Goal = λ (o : Option ℕ). (o ≡ some s → name_of s ≡ name) in
        if_keeps Goal (not (ltb lo hi)) none
          (elim (strcmp (name_of (byname mid)) name) [
            | same ↦ some (byname mid)
            | below ↦ lookup fuel (mid + 1) hi
            | above ↦ lookup fuel lo mid
          ])
          (λ _ q. absurd (ground (arith, q)))
          (λ _.
            go mid (strcmp (name_of (byname mid)) name) refl (lookup_sound cmp fuel (mid + 1) hi s)
              (lookup_sound cmp fuel lo mid s))
          e
      where
        go :
            (mid : ℕ) (c : Sign)
            → strcmp (name_of (byname mid)) name ≡ c
            → (lookup fuel (mid + 1) hi ≡ some s → name_of s ≡ name)
            → (lookup fuel lo mid ≡ some s → name_of s ≡ name)
            → elim c [
              | same ↦ some (byname mid)
              | below ↦ lookup fuel (mid + 1) hi
              | above ↦ lookup fuel lo mid
            ]
              ≡ some s
            → name_of s ≡ name
        go mid same c r l q =
            ap name_of (sym (some-injective (byname mid) s q))
            ∙ cmp.equal (name_of (byname mid)) name c
        go mid below c r l q = r q
        go mid above c r l q = l q

    lookup_complete :
        IsComparison
        → (n : ℕ)
        → ((i j : ℕ) → i < j → j < n → strcmp (name_of (byname i)) (name_of (byname j)) ≡ below)
        → (k : ℕ) → name_of (byname k) ≡ name
        → (fuel lo hi : ℕ) → lo ≤ k
        → k < hi
        → hi ≤ n
        → hi ≤ lo + fuel
        → lookup fuel lo hi ≡ some (byname k)
    unfolding lookup
    lookup_complete cmp n sorted k e zero lo hi l m h f = absurd (omega arith)
    lookup_complete cmp n sorted k e (suc fuel) lo hi l m h f =
        let mid = lo + (hi - lo) / 2 in
        let open_ : ltb lo hi ≡ true = ground (arith, l, m) in
        let less : mid < hi = omega (arith, l, m) in
        rw open_ (
          go mid less (omega arith) (strcmp (name_of (byname mid)) name) refl
            (λ b. lookup_complete cmp n sorted k e fuel (mid + 1) hi b m h (omega arith))
            (λ b. lookup_complete cmp n sorted k e fuel lo mid l b (omega arith) (omega arith)))
      where
        -- how the name in the middle compares, by its place
        before : (mid : ℕ) → mid < k → strcmp (name_of (byname mid)) name ≡ below
        before mid b =
            subst (λ x. strcmp (name_of (byname mid)) x ≡ below) e (sorted mid k b (omega arith))

        behind : (mid : ℕ) → mid < hi → k < mid → strcmp (name_of (byname mid)) name ≡ above
        behind mid less b =
            subst (λ x. strcmp (name_of (byname mid)) x ≡ above) e
              (cmp.turned _ _ (sorted k mid b (omega arith)))

        there : (mid : ℕ) → mid ≡ k → strcmp (name_of (byname mid)) name ≡ same
        there mid q =
            subst (λ x. strcmp (name_of (byname x)) name ≡ same) (sym q)
              (subst (λ x. strcmp x name ≡ same) (sym e) (cmp.itself name))

        go :
            (mid : ℕ)
            → mid < hi
            → lo ≤ mid
            → (c : Sign) → strcmp (name_of (byname mid)) name ≡ c
            → (mid + 1 ≤ k → lookup fuel (mid + 1) hi ≡ some (byname k))
            → (k < mid → lookup fuel lo mid ≡ some (byname k))
            → elim c [
              | same ↦ some (byname mid)
              | below ↦ lookup fuel (mid + 1) hi
              | above ↦ lookup fuel lo mid
            ]
              ≡ some (byname k)
        go mid less low same q r s = elim (place mid k) [
          | inl b ↦ absurd (ground (arith, sym q ∙ before mid b))
          | inr (inl at) ↦ ap (λ x. some (byname x)) at
          | inr (inr b) ↦ absurd (ground (arith, sym q ∙ behind mid less b))
        ]
        go mid less low below q r s = elim (place mid k) [
          | inl b ↦ r (omega arith)
          | inr (inl at) ↦ absurd (ground (arith, sym q ∙ there mid at))
          | inr (inr b) ↦ absurd (ground (arith, sym q ∙ behind mid less b))
        ]
        go mid less low above q r s = elim (place mid k) [
          | inl b ↦ absurd (ground (arith, sym q ∙ before mid b))
          | inr (inl at) ↦ absurd (ground (arith, sym q ∙ there mid at))
          | inr (inr b) ↦ s b
        ]

-- Where strcmp orders the names and byname lists the services in that order, lookup() finds every
-- name that a service has, and what it finds has the name.
pub lookup-finds :
    {Name : Type 0} (strcmp : Name → Name → Sign) (name_of : ℕ → Name) (byname : ℕ → ℕ) (n : ℕ)
    (name : Name)
    → IsComparison strcmp
    → ((i j : ℕ) → i < j → j < n → strcmp (name_of (byname i)) (name_of (byname j)) ≡ below)
    → ((k : ℕ)
        → k < n
        → name_of (byname k) ≡ name
        → lookup strcmp name_of byname name n 0 n ≡ some (byname k))
      × ((s : ℕ) → lookup strcmp name_of byname name n 0 n ≡ some s → name_of s ≡ name)
lookup-finds strcmp name_of byname n name cmp sorted = (
  λ k l e.
      lookup_complete strcmp name_of byname name cmp n sorted k e n 0 n (omega arith) l
        (omega arith) (omega arith),
  lookup_sound strcmp name_of byname name cmp n 0 n,
)
