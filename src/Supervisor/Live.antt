-- ===== src/Supervisor/Live.antt =====
-- The list of live services (src/pidmap.c): an array without order, and each service's place in it.
pub mod Listed
use ninit.Prelude.{ℕ, ◌+◌, ◌-◌, Bool, ◌&&◌, ◌==◌, ltb, update}
use ninit.Supervisor.Sys.{Sys}

unfoldable pub live_add : ℕ → Sys → Sys
live_add i s = record s {
  runs = update s.runs i (record (s.runs i) { live_pos = s.n_live });
  live = update s.live s.n_live i;
  n_live = s.n_live + 1;
}

unfoldable pub live_has : ℕ → Sys → Bool
live_has i s = ltb (s.runs i).live_pos s.n_live && s.live (s.runs i).live_pos == i

unfoldable pub live_del : ℕ → Sys → Sys
live_del i s =
    let pos = (s.runs i).live_pos in
    let last = s.live (s.n_live - 1) in
    record s {
      n_live = s.n_live - 1;
      live = update s.live pos last;
      runs = update s.runs last (record (s.runs last) { live_pos = pos });
    }
