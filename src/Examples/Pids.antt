-- ===== src/Examples/Pids.antt =====
-- Two pids that share a slot of the table of pids, and the first one deleted.
use ninit.Prelude.{
  ℕ, ◌*◌, ◌^◌, ◌≤◌, ◌<◌, ◌≡◌, ◌≢◌, refl, none, some, List, [], ◌∷◌, arith, sum, update, update_ne,
  sym, ap, ◌∙◌, inl, inr, if◌then◌else◌, ◌==◌,
}
use ninit.Pids.{
  Table, slots, pid_hash, probe, pid_put, close_gap, pid_del, find, table_size, new_table,
}
use mathlib.Core.Option.{some-injective}
use native.Mathlib.Decide.{ℕ_discrete}
use ninit.Supervisor.Sys.{Sys}
use ninit.Supervisor.Boot.{boot_run, boot_sys}
use ninit.Supervisor.Lookup.{Tracks, find_pid, find_pid-agrees, some-none}
use ninit.Examples.{sample_graph}
use ninit.Pids.Find.{used}
use ninit.Pids.Refines.{
  Change, put, del, change, changes, map_change, map_changes, Fits, changes-finds,
}
use ninit.Pids.Size.{new_table-size}

abbrev clash : List Change
clash = put 5 1 ∷ put 69 2 ∷ del 5 ∷ []

clash_first : used (new_table 2) < (new_table 2).mask
unfolding new_table table_size sum
clash_first =
    let e : used (new_table 2) ≡ 0 = refl in
    let m : (new_table 2).mask ≡ 63 = refl in omega (arith, e, m)

clash_second : used (change (put 5 1) (new_table 2)) < (new_table 2).mask
unfolding new_table table_size sum change pid_put probe pid_hash
clash_second =
    let e : used (change (put 5 1) (new_table 2)) ≡ 1 = refl in
    let m : (new_table 2).mask ≡ 63 = refl in omega (arith, e, m)

clash-Fits : Fits clash (new_table 2)
unfolding change pid_put
clash-Fits = (
  (λ e. absurd (omega (arith, e)), clash_first),
  (((λ e. absurd (omega (arith, e))), clash_second), ((λ e. absurd (omega (arith, e))), tt)),
)

changes-finds_example : find (changes clash (new_table 2)) 69 ≡ map_changes clash (λ p. none) 69
changes-finds_example = changes-finds 2 clash 69 clash-Fits (λ e. absurd (omega (arith, e)))

found : find (changes clash (new_table 2)) 69 ≡ some 2
unfolding changes change pid_put pid_del close_gap probe pid_hash find new_table table_size
found = refl

new_table-size_example :
    (4 * 2000 ≤ slots (new_table 2000))
    × (slots (new_table 2000) ≤ 32768)
    × ((k : ℕ) × (slots (new_table 2000) ≡ 2 ^ k))
new_table-size_example = new_table-size 2000 (omega arith)

-- One service is live, with the pid 5.
abbrev one_live : Sys
one_live = record (boot_sys sample_graph) {
  runs = λ i. record boot_run { pid = if i == 1 then 5 else 0 };
  live = λ k. 1;
  n_live = 1;
}

abbrev one_pid : Table
one_pid = changes (put 5 1 ∷ []) (new_table 2)

one_finds : (pid : ℕ) → pid ≢ 0 → find one_pid pid ≡ update (λ p. none) 5 (some 1) pid
unfolding map_changes map_change
one_finds pid ne =
    changes-finds 2 (put 5 1 ∷ []) pid ((λ e. absurd (omega (arith, e)), clash_first), tt) ne

one_tracked : Tracks one_pid one_live
one_tracked = record {
  holds = λ k pid l ne m. elim m [
    | inl e ↦ one_finds pid ne ∙ ap (update (λ p. none) 5 (some 1)) (sym e)
    | inr e ↦ absurd (ne (sym e))
  ];
  only = λ pid j ne e. elim (ℕ_discrete pid 5) [
    | yes q ↦
        let found_one : some 1 ≡ some j =
          sym (ap (update (λ p. none) 5 (some 1)) q) ∙ sym (one_finds pid ne) ∙ e in
        let same = some-injective 1 j found_one in
        (0, omega arith, same, inl (ap (λ x. if x == 1 then 5 else 0) (sym same) ∙ sym q))
    | no other ↦
        absurd (some-none (sym e ∙ one_finds pid ne ∙ update_ne (λ p. none) 5 (some 1) other))
  ];
}

find_pid-agrees_example : find_pid (some one_pid) one_live 5 ≡ find_pid none one_live 5
find_pid-agrees_example =
    find_pid-agrees one_pid one_live one_tracked 5 (λ e. absurd (omega (arith, e)))
