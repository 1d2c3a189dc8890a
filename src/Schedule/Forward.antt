-- ===== src/Schedule/Forward.antt =====
-- The services are numbered so that every edge runs forward, as ng_verify wants it (ctl/graph.c).
use ninit.Prelude.{
  ℕ, ◌≤◌, ◌<◌, ◌≡◌, ◌≢◌, refl, sym, ap, subst, ◌∙◌, List, [], ◌∷◌, All, some, ◌==◌, arith, bit,
  update, update_self, update_ne, count, counts, length, sum-ext, sum_ones,
}
use native.Mathlib.Decide.{ℕ_discrete}
use ninit.Schedule.{Linked, successors, schedule, places, Edge, renumber}
use ninit.Schedule.Steps.{IsLinked, IsTopological}
use ninit.Schedule.Whole.{IsOrder, schedule-IsOrder, sorted-below}

-- a service of the order has a place in it
places-below : (order : List ℕ) (d : ℕ) → count d order ≢ 0 → places order d < length order
unfolding places count
places-below [] d ne = absurd (ne refl)
places-below (b ∷ rest) d ne = elim (ℕ_discrete d b) [
  | yes e ↦ omega (
    arith,
    ap (update (places rest) b (length rest)) e,
    update_self (places rest) b (length rest),
  )
  | no other ↦
      let z : bit (b == d) ≡ 0 = ground (arith, other) in
      let rest_has : count d rest ≢ 0 = λ q. ne (omega (arith, z, q)) in
      omega (arith, update_ne (places rest) b (length rest) other, places-below rest d rest_has)
]

module _ (g : Linked) where
  -- what comes before a service of the order is in it
  before_in :
      (order : List ℕ) (a b : ℕ)
      → IsTopological g order
      → a < g.n
      → count b (successors g a) ≢ 0
      → count b order ≢ 0
      → count a order ≢ 0
  unfolding count
  before_in [] a b t l edge ne = absurd (ne refl)
  before_in (h ∷ rest) a b t l edge ne = elim (ℕ_discrete b h) [
    | yes e ↦
        let there = t.0.1 a l (subst (λ x. count x (successors g a) ≢ 0) e edge) in
        λ q. there (omega (arith, q))
    | no other ↦
        let z : bit (h == b) ≡ 0 = ground (arith, other) in
        let there = before_in rest a b t.1 l edge (λ q. ne (omega (arith, z, q))) in
        λ q. there (omega (arith, q))
  ]

  places-forward :
      (order : List ℕ) (a b : ℕ)
      → IsTopological g order
      → ((d : ℕ) → d < g.n → count d order ≤ 1)
      → a < g.n
      → count b (successors g a) ≢ 0
      → count b order ≢ 0
      → places order a < places order b
  unfolding places count
  places-forward [] a b t once l edge ne = absurd (ne refl)
  places-forward (h ∷ rest) a b t once l edge ne =
      let u = places rest in
      let single : (d : ℕ) → d < g.n → count d rest ≤ 1 = λ d m. omega (arith, once d m) in
      -- a service of the rest is not the first of the list
      let not_first : count a rest ≢ 0 → a ≢ h = λ has e.
        let one : bit (h == a) ≡ 1 = ground (arith, e) in has (omega (arith, once a l, one)) in
      elim (ℕ_discrete b h) [
        | yes e ↦
            let there = t.0.1 a l (subst (λ x. count x (successors g a) ≢ 0) e edge) in
            omega (
              arith,
              update_ne u h (length rest) (not_first there),
              ap (update u h (length rest)) e,
              update_self u h (length rest),
              places-below rest a there,
            )
        | no other ↦
            let z : bit (h == b) ≡ 0 = ground (arith, other) in
            let has_b : count b rest ≢ 0 = λ q. ne (omega (arith, z, q)) in
            let there = before_in rest a b t.1 l edge has_b in
            omega (
              arith,
              update_ne u h (length rest) (not_first there),
              update_ne u h (length rest) other,
              places-forward rest a b t.1 single l edge has_b,
            )
      ]

-- an edge that link_graph has put into the lists
pub record IsEdge (g : Linked) (e : Edge) : Type 0 where
  pub from : e.a < g.n
  pub to : e.b < g.n
  pub listed : count e.b (successors g e.a) ≢ 0

-- After order_graph has renumbered the edges by the order that schedule() gives, every edge runs
-- from a lower to a higher number below the number of services.
pub renumber-forward :
    (g : Linked) (order : List ℕ) (edges : List Edge)
    → IsLinked g
    → schedule g ≡ some order
    → All (IsEdge g) edges
    → All (λ e. (e.a < e.b) × (e.b < g.n)) (renumber (places order) edges)
unfolding renumber
renumber-forward g order edges wf e h = go edges h
  where
    ordered : IsOrder g order
    ordered = schedule-IsOrder g order wf e

    long : length order ≡ g.n
    long =
        sym (counts g.n order (sorted-below g wf order ordered.sorted))
        ∙ sum-ext g.n (λ d. count d order) (λ d. 1) ordered.complete
        ∙ sum_ones g.n

    present : (d : ℕ) → d < g.n → count d order ≢ 0
    present d l z = absurd (omega (arith, z, ordered.complete d l))

    go :
        (es : List Edge)
        → All (IsEdge g) es
        → All (λ x. (x.a < x.b) × (x.b < g.n)) (renumber (places order) es)
    go [] k = tt
    go (x ∷ xs) k = (
      (
        places-forward g order x.a x.b ordered.sorted (λ d m. omega (arith, ordered.complete d m))
            k.0.from k.0.listed (present x.b k.0.to),
        omega (arith, places-below order x.b (present x.b k.0.to), long),
      ),
      go xs k.1,
    )
