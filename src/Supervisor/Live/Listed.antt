-- ===== src/Supervisor/Live/Listed.antt =====
-- The live list is a set (src/pidmap.c): each slot's service knows its slot.
use ninit.Prelude.{
  ℕ, ◌+◌, ◌-◌, ◌<◌, ◌≡◌, ◌≢◌, ap, sym, ◌∙◌, true, false, inl, inr, Bool-cases, arith, update_self,
  update_ne,
}
use native.Mathlib.Decide.{ℕ_discrete}
use ninit.Supervisor.Sys.{Run, Sys}
use ninit.Supervisor.Live.{live_add, live_has, live_del}

-- the service in a slot has the slot as its live_pos
pub record IsListed (s : Sys) : Type 0 where
  pub slots : (k : ℕ) → k < s.n_live → (s.runs (s.live k)).live_pos ≡ k

-- live_has, as a fact
has-place :
    (i : ℕ) (s : Sys)
    → live_has i s ≡ true
    → ((s.runs i).live_pos < s.n_live) × (s.live (s.runs i).live_pos ≡ i)
unfolding live_has
has-place i s e = ground arith

place-has :
    (i : ℕ) (s : Sys)
    → (s.runs i).live_pos < s.n_live
    → s.live (s.runs i).live_pos ≡ i
    → live_has i s ≡ true
unfolding live_has
place-has i s l e = ground arith

abbrev place : Run → ℕ
place r = r.live_pos

-- A service that is not in the list is in it once it is added, and the slots stay right.
pub live_add-IsListed :
    (i : ℕ) (s : Sys)
    → live_has i s ≡ false
    → IsListed s
    → IsListed (live_add i s) × (live_has i (live_add i s) ≡ true)
unfolding live_add
live_add-IsListed i s e h = (record { slots = slot }, has)
  where
    t : Sys
    t = live_add i s

    own : place (t.runs i) ≡ s.n_live
    own = ap place (update_self s.runs i _)

    at_end : t.live s.n_live ≡ i
    at_end = update_self s.live s.n_live i

    has : live_has i t ≡ true
    has = place-has i t (omega (arith, own)) (ap t.live own ∙ at_end)

    absent : (k : ℕ) → k < s.n_live → s.live k ≢ i
    absent k l q =
        let where_is : place (s.runs i) ≡ k = ap (λ j. place (s.runs j)) (sym q) ∙ h.slots k l in
        let found = place-has i s (omega arith) (ap s.live where_is ∙ q) in
        absurd (ground (arith, found, e))

    slot : (k : ℕ) → k < s.n_live + 1 → place (t.runs (t.live k)) ≡ k
    slot k l = elim (ℕ_discrete k s.n_live) [
      | yes q ↦
          ap (λ m. place (t.runs (t.live m))) q ∙ ap (λ j. place (t.runs j)) at_end ∙ own ∙ sym q
      | no other ↦
          let inside : k < s.n_live = omega arith in
          ap (λ j. place (t.runs j)) (update_ne s.live s.n_live i other)
          ∙ ap place (update_ne s.runs i _ (absent k inside))
          ∙ h.slots k inside
    ]

-- A service that is in the list is out of it once it is dropped, and the slots stay right.
pub live_del-IsListed :
    (i : ℕ) (s : Sys)
    → live_has i s ≡ true
    → IsListed s
    → IsListed (live_del i s) × (live_has i (live_del i s) ≡ false)
unfolding live_del
live_del-IsListed i s e h = (record { slots = slot }, gone)
  where
    t : Sys
    t = live_del i s

    pos : ℕ
    pos = place (s.runs i)

    inside : pos < s.n_live
    inside = (has-place i s e).0

    here : s.live pos ≡ i
    here = (has-place i s e).1

    last : ℕ
    last = s.live (s.n_live - 1)

    moved : place (t.runs last) ≡ pos
    moved = ap place (update_self s.runs last _)

    slot : (k : ℕ) → k < s.n_live - 1 → place (t.runs (t.live k)) ≡ k
    slot k l = elim (ℕ_discrete k pos) [
      | yes q ↦
          ap (λ m. place (t.runs (t.live m))) q
          ∙ ap (λ j. place (t.runs j)) (update_self s.live pos last)
          ∙ moved
          ∙ sym q
      | no other ↦
          let kept : k < s.n_live = omega arith in
          let apart : s.live k ≢ last = λ q.
            let same : k ≡ s.n_live - 1 =
              sym (h.slots k kept)
              ∙ ap (λ j. place (s.runs j)) q
              ∙ h.slots (s.n_live - 1) (omega arith) in
            absurd (omega arith) in
          ap (λ j. place (t.runs j)) (update_ne s.live pos last other)
          ∙ ap place (update_ne s.runs last _ apart)
          ∙ h.slots k kept
    ]

    gone : live_has i t ≡ false
    gone = elim (Bool-cases (live_has i t)) [
      | inr absent ↦ absent
      | inl present ↦
          let found = has-place i t present in
          elim (ℕ_discrete i last) [
            | yes q ↦
                let end : pos ≡ s.n_live - 1 =
                  ap (λ j. place (s.runs j)) q ∙ h.slots (s.n_live - 1) (omega arith) in
                let back : place (t.runs i) ≡ pos = ap (λ j. place (t.runs j)) q ∙ moved in
                absurd (omega (arith, found.0))
            | no other ↦
                let stays : place (t.runs i) ≡ pos = ap place (update_ne s.runs last _ other) in
                absurd (other (sym found.1 ∙ ap t.live stays ∙ update_self s.live pos last))
          ]
    ]
