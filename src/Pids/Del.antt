-- ===== src/Pids/Del.antt =====
-- Deleting a pid from the table (src/pidmap.c).
use ninit.Prelude.{
  inl, inr, ℕ, zero, suc, ◌+◌, ◌≤◌, ◌<◌, ◌≡◌, ◌≢◌, refl, sym, ap, subst, ◌∙◌, not, ◌==◌, ==_iff,
  if_keeps, arith, bit, update, update_self, update_ne, tally-update,
}
use native.Mathlib.Decide.{ℕ_discrete}
use ninit.Pids.{Table, slots, pid_hash, next, slot_of, leaves_gap, close_gap, pid_del}
use ninit.Pids.Distance.{dist, next-cases, dist-below, dist_self, dist_same}
use ninit.Pids.Find.{IsPassed, used, IsTable, free_slot, slot_of-IsSlot, slot_of-entry, Has, Lacks}
use ninit.Pids.Gap.{
  IsGapped, onto, closed, on_looked, moved, moved-IsGapped, moved-Has, moved_adds_none, moved-used,
}

-- what closing a gap does: the same entries, and every search finds its own
record IsClosed (t t' : Table) : Type 0 where
  table : IsTable t'
  keeps : (p v : ℕ) → p ≢ 0 → Has t p v → Has t' p v
  adds_none : (p v : ℕ) → p ≢ 0 → Has t' p v → Has t p v
  count : used t' ≡ used t

dist-step : (m j e : ℕ) → j ≤ m → e ≤ m → j ≢ e → dist m (next m j) e + 1 ≡ dist m j e
dist-step m j e l k ne = elim (next-cases m j l) [
  | inl s ↦ ground (arith, ne, s)
  | inr s ↦ ground (arith, ne, s)
]

not_end : (t : Table) (i j e : ℕ) → IsGapped t i j e → j ≢ e
not_end t i j e h q = elim (ℕ_discrete j i) [
  | yes r ↦ h.apart (sym q ∙ r)
  | no r ↦ h.looked_at j h.at_below r (omega arith) (ap t.key q ∙ h.end)
]

-- The loop ends within its rounds, at a free slot, and nothing is lost.
close_gap-IsClosed :
    (fuel i j e : ℕ) (t : Table)
    → IsGapped t i j e
    → used t ≤ t.mask
    → dist t.mask j e ≤ fuel
    → IsClosed t (close_gap fuel i j t)
unfolding close_gap
close_gap-IsClosed zero i j e t h room few =
    absurd (omega (arith, few, dist-step t.mask j e h.at_below h.end_below (not_end t i j e h)))
close_gap-IsClosed (suc fuel) i j e t h room few =
    let o = onto t i j e h in
    let step = dist-step t.mask j e h.at_below h.end_below (not_end t i j e h) in
    let less : dist t.mask o e ≤ fuel = omega (arith, few, step) in
    if_keeps (IsClosed t) (t.key o == 0) _ _
      (λ z. record {
        table = record {
          probed = closed t i j e h ((==_iff _ _).0 z);
          unique = h.unique;
          room = room;
        };
        keeps = λ p v np a. a;
        adds_none = λ p v np a. a;
        count = refl;
      })
      (λ f.
        let ne : t.key o ≢ 0 = λ z. absurd (ground (arith, f, z)) in
        if_keeps (IsClosed t) (leaves_gap i o (pid_hash t.mask (t.key o))) _ _
          (λ b.
            let u = moved-used t i j e h ne b in
            let rest =
              close_gap-IsClosed fuel o o e (moved t i j e h) (moved-IsGapped t i j e h ne b)
                (omega (arith, u, room)) less in
            record {
              table = rest.table;
              keeps = λ p v np a. rest.keeps p v np (moved-Has t i j e h ne b p v np a);
              adds_none =
                  λ p v np a. moved_adds_none t i j e h ne b p v np (rest.adds_none p v np a);
              count = rest.count ∙ u;
            })
          (λ b. close_gap-IsClosed fuel i o e t (on_looked t i j e h ne b) room less))

module _ (t : Table) (h : IsTable t) (pid : ℕ) (ne : pid ≢ 0) where
  abbrev at : ℕ
  at = slot_of t pid

  abbrev opened : Table
  opened = record t { key = update t.key at 0 }

  opened_other : (x : ℕ) → x ≢ at → opened.key x ≡ t.key x
  opened_other x other = update_ne t.key at 0 other

  opened_at : opened.key at ≡ 0
  opened_at = update_self t.key at 0

  module _ (held : t.key at ≡ pid) where
    at_below : at ≤ t.mask
    at_below = (slot_of-IsSlot t pid h.room).below

    opened-used : used opened + 1 ≡ used t
    opened-used =
        let change =
          tally-update (λ k. not (k == 0)) (slots t) t.key at 0 (omega (arith, at_below)) in
        let one : bit (not (t.key at == 0)) ≡ 1 = ground (arith, held, ne) in
        omega (arith, change, one)

    opened-only_gap :
        (x s : ℕ)
        → x ≤ t.mask
        → s ≤ t.mask
        → opened.key x ≢ 0
        → IsPassed t.mask (opened.key x) s x
        → opened.key s ≡ 0
        → (s ≡ at) × (dist t.mask at at < dist t.mask at x)
    opened-only_gap x s l m nx p z =
        let not_at : x ≢ at = λ q. nx (ap opened.key q ∙ opened_at) in
        let k = opened_other x not_at in
        let ahead : dist t.mask at x ≢ dist t.mask at at =
          λ q. not_at (dist_same t.mask at x at l at_below at_below q) in
        (
          elim (ℕ_discrete s at) [
            | yes q ↦ q
            | no other ↦ absurd (
                h.probed x s l m (λ q. nx (k ∙ q)) (subst (λ y. IsPassed t.mask y s x) k p)
                  (sym (opened_other s other) ∙ z))
          ],
          grind (arith, ahead, dist_self t.mask at),
        )

    opened_unique :
        (x y : ℕ) → x ≤ t.mask → y ≤ t.mask → opened.key x ≢ 0 → opened.key x ≡ opened.key y → x ≡ y
    opened_unique x y l m nx q =
        let not_x : x ≢ at = λ r. nx (ap opened.key r ∙ opened_at) in
        let not_y : y ≢ at = λ r. nx (q ∙ ap opened.key r ∙ opened_at) in
        let kx = opened_other x not_x in
        h.unique x y l m (λ r. nx (kx ∙ r)) (sym kx ∙ q ∙ opened_other y not_y)

    opened-IsGapped : IsGapped opened at at (free_slot t h.room).0
    opened-IsGapped =
        let (e, l, z) = free_slot t h.room in
        let other : e ≢ at = λ q. ne (sym held ∙ ap t.key (sym q) ∙ z) in
        record {
          gap_below = at_below;
          at_below = at_below;
          end_below = l;
          gap = opened_at;
          end = opened_other e other ∙ z;
          apart = other;
          looked_at = λ s l other near. absurd (
              other (
                dist_same t.mask at s at l at_below at_below
                  (omega (arith, near, dist_self t.mask at))));
          only_gap = opened-only_gap;
          unique = opened_unique;
        }

    opened-IsClosed : IsClosed opened (close_gap (slots t) at at opened)
    opened-IsClosed =
        let far = dist-below t.mask at (free_slot t h.room).0 at_below (free_slot t h.room).1 in
        close_gap-IsClosed (slots t) at at (free_slot t h.room).0 opened opened-IsGapped
          (omega (arith, opened-used, h.room)) (omega (arith, far))

    dropped : (p v : ℕ) → p ≢ pid → Has t p v → Has opened p v
    dropped p v other a =
        let not_at : a.slot ≢ at = λ q. other (sym a.keyed ∙ ap t.key q ∙ held) in
        record {
          slot = a.slot;
          below = a.below;
          keyed = opened_other a.slot not_at ∙ a.keyed;
          valued = a.valued;
        }

    undropped : (p v : ℕ) → p ≢ 0 → Has opened p v → Has t p v
    undropped p v np a =
        let not_at : a.slot ≢ at = λ q. np (sym a.keyed ∙ ap opened.key q ∙ opened_at) in
        record {
          slot = a.slot;
          below = a.below;
          keyed = sym (opened_other a.slot not_at) ∙ a.keyed;
          valued = a.valued;
        }

    opened_lacks : (v : ℕ) → Has opened pid v → t.key at ≡ 0
    opened_lacks v a =
        let not_at : a.slot ≢ at = λ q. ne (sym a.keyed ∙ ap opened.key q ∙ opened_at) in
        absurd (
          not_at (
            sym (
              slot_of-entry t h pid a.slot a.below ne
                (sym (opened_other a.slot not_at) ∙ a.keyed))))

-- what deleting a pid does
pub record IsDeleted (t : Table) (pid : ℕ) (t' : Table) : Type 0 where
  pub table : IsTable t'
  pub keeps : (p v : ℕ) → p ≢ pid → p ≢ 0 → Has t p v → Has t' p v
  pub adds_none : (p v : ℕ) → p ≢ 0 → Has t' p v → Has t p v
  pub lacks : Lacks t' pid
  pub fewer : used t' ≤ used t

pub pid_del-IsDeleted :
    (t : Table) → IsTable t → (pid : ℕ) → pid ≢ 0 → IsDeleted t pid (pid_del pid t)
unfolding pid_del
pid_del-IsDeleted t h pid ne =
    if_keeps (IsDeleted t pid) (t.key (slot_of t pid) == 0) _ _
      (λ b.
        let free : t.key (slot_of t pid) ≡ 0 = (==_iff _ _).0 b in
        record {
          table = h;
          keeps = λ p v other np a. a;
          adds_none = λ p v np a. a;
          lacks = λ x l q. ne (sym q ∙ ap t.key (sym (slot_of-entry t h pid x l ne q)) ∙ free);
          fewer = omega arith;
        })
      (λ b.
        let held : t.key (slot_of t pid) ≡ pid = elim (slot_of-IsSlot t pid h.room).stops [
          | inl z ↦ absurd (ground (arith, b, z))
          | inr q ↦ q
        ] in
        let done = opened-IsClosed t h pid ne held in
        record {
          table = done.table;
          keeps = λ p v other np a. done.keeps p v np (dropped t h pid ne held p v other a);
          adds_none = λ p v np a. undropped t h pid ne held p v np (done.adds_none p v np a);
          lacks = λ x l q.
              let back =
                done.adds_none pid _ ne
                  (record { slot = x; below = l; keyed = q; valued = refl }) in
              ne (sym held ∙ opened_lacks t h pid ne held _ back);
          fewer = omega (arith, done.count, opened-used t h pid ne held);
        })
