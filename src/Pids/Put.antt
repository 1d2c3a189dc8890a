-- ===== src/Pids/Put.antt =====
-- Putting a pid into the table (src/pidmap.c).
use ninit.Prelude.{
  inl, inr, ℕ, ◌≤◌, ◌<◌, ◌≡◌, ◌≢◌, sym, ap, subst, ◌∙◌, not, ◌==◌, arith, bit, update, update_self,
  update_ne, tally-update,
}
use native.Mathlib.Decide.{ℕ_discrete}
use ninit.Pids.{Table, slots, slot_of, pid_put}
use ninit.Pids.Find.{IsPassed, used, IsTable, slot_of-IsSlot, slot_of-entry, Has}

module _ (t : Table) (h : IsTable t) (pid svc : ℕ) (ne : pid ≢ 0) where
  abbrev at : ℕ
  at = slot_of t pid

  abbrev put_key : ℕ → ℕ
  put_key = update t.key at pid

  -- only the slot of the pid has it
  no_other : (y : ℕ) → y ≤ t.mask → y ≢ at → t.key y ≢ pid
  no_other y l other q = other (sym (slot_of-entry t h pid y l ne q))

  put_probed :
      (x s : ℕ)
      → x ≤ t.mask
      → s ≤ t.mask
      → put_key x ≢ 0
      → IsPassed t.mask (put_key x) s x
      → put_key s ≢ 0
  put_probed x s l m nx p z = elim (ℕ_discrete s at) [
    | yes same ↦ ne (sym (ap put_key same ∙ update_self t.key at pid) ∙ z)
    | no other ↦
        let zs : t.key s ≡ 0 = sym (update_ne t.key at pid other) ∙ z in
        elim (ℕ_discrete x at) [
          | yes here ↦
              let k : put_key x ≡ pid = ap put_key here ∙ update_self t.key at pid in
              let passed = subst (λ y. IsPassed t.mask y s x) k p in
              ((slot_of-IsSlot t pid h.room).before s m
                  (subst (λ y. IsPassed t.mask pid s y) here passed)).0
                zs
          | no there ↦
              let k : put_key x ≡ t.key x = update_ne t.key at pid there in
              h.probed x s l m (λ q. nx (k ∙ q)) (subst (λ y. IsPassed t.mask y s x) k p) zs
        ]
  ]

  put_unique : (x y : ℕ) → x ≤ t.mask → y ≤ t.mask → put_key x ≢ 0 → put_key x ≡ put_key y → x ≡ y
  put_unique x y l m nx e = elim (ℕ_discrete x at) [
    | yes here ↦
        let kx : put_key x ≡ pid = ap put_key here ∙ update_self t.key at pid in
        elim (ℕ_discrete y at) [
          | yes too ↦ here ∙ sym too
          | no other ↦ absurd (no_other y m other (sym (update_ne t.key at pid other) ∙ sym e ∙ kx))
        ]
    | no there ↦
        let kx : put_key x ≡ t.key x = update_ne t.key at pid there in
        elim (ℕ_discrete y at) [
          | yes too ↦
              let ky : put_key y ≡ pid = ap put_key too ∙ update_self t.key at pid in
              absurd (no_other x l there (sym kx ∙ e ∙ ky))
          | no other ↦
              h.unique x y l m (λ q. nx (kx ∙ q)) (sym kx ∙ e ∙ update_ne t.key at pid other)
        ]
  ]

  pub pid_put-IsTable : used t < t.mask → IsTable (pid_put pid svc t)
  unfolding pid_put
  pid_put-IsTable room =
      let below = (slot_of-IsSlot t pid h.room).below in
      let change = tally-update (λ k. not (k == 0)) (slots t) t.key at pid (omega arith) in
      let one : bit (not (pid == 0)) ≡ 1 = ground (arith, ne) in
      record { probed = put_probed; unique = put_unique; room = omega (arith, change, one, room) }

  pub pid_put-Has : Has (pid_put pid svc t) pid svc
  unfolding pid_put
  pid_put-Has = record {
    slot = at;
    below = (slot_of-IsSlot t pid h.room).below;
    keyed = update_self t.key at pid;
    valued = update_self t.val at svc;
  }

  -- the other pids keep their services
  pub put_keeps : (p v : ℕ) → p ≢ pid → p ≢ 0 → Has t p v → Has (pid_put pid svc t) p v
  unfolding pid_put
  put_keeps p v other np e =
      let apart : e.slot ≢ at = λ q. elim (slot_of-IsSlot t pid h.room).stops [
        | inl z ↦ np (sym e.keyed ∙ ap t.key q ∙ z)
        | inr k ↦ other (sym e.keyed ∙ ap t.key q ∙ k)
      ] in
      record {
        slot = e.slot;
        below = e.below;
        keyed = update_ne t.key at pid apart ∙ e.keyed;
        valued = update_ne t.val at svc apart ∙ e.valued;
      }

  pub put_adds_none : (p v : ℕ) → p ≢ pid → Has (pid_put pid svc t) p v → Has t p v
  unfolding pid_put
  put_adds_none p v other e =
      let apart : e.slot ≢ at =
        λ q. other (sym e.keyed ∙ ap put_key q ∙ update_self t.key at pid) in
      record {
        slot = e.slot;
        below = e.below;
        keyed = sym (update_ne t.key at pid apart) ∙ e.keyed;
        valued = sym (update_ne t.val at svc apart) ∙ e.valued;
      }
