-- ===== src/Pids/Refines.antt =====
-- The table of pids is a finite map (src/pidmap.c).
use ninit.Prelude.{
  ◌-◌, sum_none, ℕ, ◌+◌, ◌<◌, ◌≡◌, ◌≢◌, refl, ◌∙◌, sym, subst, List, [], ◌∷◌, Option, none, some,
  arith, update, update_self, update_ne,
}
use native.Mathlib.Decide.{ℕ_discrete}
use ninit.Pids.{Table, table_size, pid_put, pid_del, find, new_table}
use ninit.Pids.Find.{used, IsTable, find-Has, find-Lacks, find-same}
use ninit.Pids.Put.{pid_put-IsTable, pid_put-Has, put_keeps, put_adds_none}
use ninit.Pids.Del.{pid_del-IsDeleted}

-- a change of the table
pub data Change : Type 0 where
  put : ℕ → ℕ → Change
  del : ℕ → Change

unfoldable pub change : Change → Table → Table
change (put pid svc) t = pid_put pid svc t
change (del pid) t = pid_del pid t

unfoldable pub changes : List Change → Table → Table
changes [] t = t
changes (c ∷ cs) t = changes cs (change c t)

-- the same on the services of pids, as a map
unfoldable pub map_change : Change → (ℕ → Option ℕ) → ℕ → Option ℕ
map_change (put pid svc) m = update m pid (some svc)
map_change (del pid) m = update m pid none

unfoldable pub map_changes : List Change → (ℕ → Option ℕ) → ℕ → Option ℕ
map_changes [] m = m
map_changes (c ∷ cs) m = map_changes cs (map_change c m)

-- A pid is not 0, and is put only where a slot is left free behind it.
abbrev pub Fits1 : Change → Table → Type 0
Fits1 (put pid svc) t = (pid ≢ 0) × (used t < t.mask)
Fits1 (del pid) t = pid ≢ 0

abbrev pub Fits : List Change → Table → Type 0
Fits [] t = Unit
Fits (c ∷ cs) t = Fits1 c t × Fits cs (change c t)

-- what is found in the table is what the map has
pub record Stands (t : Table) (m : ℕ → Option ℕ) : Type 0 where
  pub table : IsTable t
  pub finds : (p : ℕ) → p ≢ 0 → find t p ≡ m p

change-Stands :
    (c : Change) (t : Table) (m : ℕ → Option ℕ)
    → Fits1 c t
    → Stands t m
    → Stands (change c t) (map_change c m)
unfolding change map_change
change-Stands (put pid svc) t m fits h =
    let after = pid_put-IsTable t h.table pid svc fits.0 fits.1 in
    record {
      table = after;
      finds = λ p np. elim (ℕ_discrete p pid) [
        | yes q ↦
            subst (λ x. find (pid_put pid svc t) x ≡ update m pid (some svc) x) (sym q)
              (find-Has (pid_put pid svc t) after pid fits.0 svc
                  (pid_put-Has t h.table pid svc fits.0)
                ∙ sym (update_self m pid (some svc)))
        | no other ↦
            find-same t (pid_put pid svc t) p h.table after np
              (λ v. put_keeps t h.table pid svc fits.0 p v other np)
              (λ v. put_adds_none t h.table pid svc fits.0 p v other)
            ∙ h.finds p np
            ∙ sym (update_ne m pid (some svc) other)
      ];
    }
change-Stands (del pid) t m fits h =
    let d = pid_del-IsDeleted t h.table pid fits in
    record {
      table = d.table;
      finds = λ p np. elim (ℕ_discrete p pid) [
        | yes q ↦
            subst (λ x. find (pid_del pid t) x ≡ update m pid none x) (sym q)
              (find-Lacks (pid_del pid t) d.table pid fits d.lacks ∙ sym (update_self m pid none))
        | no other ↦
            find-same t (pid_del pid t) p h.table d.table np (λ v. d.keeps p v other np)
              (λ v. d.adds_none p v np)
            ∙ h.finds p np
            ∙ sym (update_ne m pid none other)
      ];
    }

changes-Stands :
    (cs : List Change) (t : Table) (m : ℕ → Option ℕ)
    → Fits cs t
    → Stands t m
    → Stands (changes cs t) (map_changes cs m)
unfolding changes map_changes
changes-Stands [] t m fits h = h
changes-Stands (c ∷ cs) t m fits h =
    changes-Stands cs (change c t) (map_change c m) fits.1 (change-Stands c t m fits.0 h)

new_lacks : (n x p : ℕ) → (new_table n).key x ≡ p → p ≡ 0
unfolding new_table
new_lacks n x p q = sym q

new_table-IsTable : (n : ℕ) → IsTable (new_table n)
unfolding new_table
new_table-IsTable n = record {
  probed = λ x s l m nx p z. nx refl;
  unique = λ x y l m nx e. absurd (nx refl);
  room = omega (arith, sum_none (table_size 10 n 64 - 1 + 1));
}

-- After any changes of a new table, within its room, the table has for each pid the service that
-- the same changes give a finite map.
pub changes-finds :
    (n : ℕ) (cs : List Change) (pid : ℕ)
    → Fits cs (new_table n)
    → pid ≢ 0
    → find (changes cs (new_table n)) pid ≡ map_changes cs (λ p. none) pid
changes-finds n cs pid fits ne =
    (changes-Stands cs (new_table n) (λ p. none) fits
        (record {
          table = new_table-IsTable n;
          finds = λ p np.
              find-Lacks (new_table n) (new_table-IsTable n) p np (λ x l q. np (new_lacks n x p q));
        })).finds
      pid ne
