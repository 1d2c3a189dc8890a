-- ===== src/Supervisor/Keeps/Cores.antt =====
-- The operations on runs, descriptors and the live list leave the states, flags and counts alone.
use ninit.Prelude.{
  ℕ, zero, suc, ◌≡◌, refl, ◌∙◌, Bool, false, ◌&&◌, List, [], ◌∷◌, ◌==◌, ltb, if_keeps, arith, inl,
  inr, Bool-cases,
}
use ninit.Graph.{Graph}
use ninit.Supervisor.Sys.{Sys, World, Read, Launch, asked, set_run, is_no_op}
use ninit.Supervisor.Live.{live_add, live_has, live_del}
use ninit.Supervisor.Output.{Sink}
use ninit.Supervisor.Drain.{
  sigkill, signal_group, kill_group, svc_abandon, close_fds, is_idle, maybe_free, put_notes,
  take_sink, drain_read, drain_out,
}
use ninit.Supervisor.Start.{
  clear_retry, clear_retries, bury, retry_later, launch_reset, launch_cgroup, launched, launch,
}

abbrev pub SameCore : Sys → Sys → Type 0
SameCore s t = t.core ≡ s.core

pub live_add-core : (i : ℕ) (s : Sys) → SameCore s (live_add i s)
unfolding live_add
live_add-core i s = refl

pub live_del-core : (i : ℕ) (s : Sys) → SameCore s (live_del i s)
unfolding live_del
live_del-core i s = refl

pub signal_group-core : (w : World) (i sig : ℕ) (s : Sys) → SameCore s (signal_group w i sig s)
unfolding signal_group
signal_group-core w i sig s = ground arith

pub kill_group-core : (w : World) (i : ℕ) (s : Sys) → SameCore s (kill_group w i s)
unfolding kill_group
kill_group-core w i s = signal_group-core w i sigkill s

pub svc_abandon-core : (i : ℕ) (s : Sys) → SameCore s (svc_abandon i s)
unfolding svc_abandon
svc_abandon-core i s = ground arith

pub close_fds-core : (i : ℕ) (s : Sys) → SameCore s (close_fds i s)
unfolding close_fds
close_fds-core i s = refl

pub maybe_free-core : (i : ℕ) (s : Sys) → SameCore s (maybe_free i s)
unfolding maybe_free
maybe_free-core i s =
    if_keeps (SameCore s) (is_idle (s.runs i) && live_has i s) _ _ (λ _. live_del-core i (asked s))
      (λ _. refl)

put_notes-core : (i : ℕ) (ls : List (List ℕ)) (s : Sys) → SameCore s (put_notes i ls s)
unfolding put_notes
put_notes-core i [] s = refl
put_notes-core i (l ∷ ls) s = put_notes-core i ls _

take_sink-core : (i : ℕ) (k : Sink) (s : Sys) → SameCore s (take_sink i k s)
unfolding take_sink
take_sink-core i k s = put_notes-core i k.notes _

drain_read-core :
    (w : World) (i : ℕ) (budgeted : Bool) (s : Sys) → SameCore s (drain_read w i budgeted s).0
unfolding drain_read
drain_read-core w i budgeted s = go (w.read s.tick) refl
  where
    go : (r : Read) → w.read s.tick ≡ r → SameCore s (drain_read w i budgeted s).0
    go (Read.bytes bs) e =
        rw (e, drain_read)
          (if_keeps (SameCore s) budgeted _ _ (λ _. take_sink-core i _ _)
            (λ _. take_sink-core i _ _))
    go Read.interrupted e = rw (e, drain_read) refl
    go Read.again e = rw (e, drain_read) refl
    go Read.closed e = rw (e, drain_read) (take_sink-core i _ _)

pub drain_out-core :
    (w : World) (i chunks : ℕ) (budgeted : Bool) (s : Sys)
    → SameCore s (drain_out w i chunks budgeted s)
unfolding drain_out
drain_out-core w i zero budgeted s = refl
drain_out-core w i (suc chunks) budgeted s = ground (
  arith,
  drain_read-core w i budgeted s,
  drain_out-core w i chunks budgeted (drain_read w i budgeted s).0,
)

pub clear_retry-core : (d : ℕ) (s : Sys) → SameCore s (clear_retry d s)
unfolding clear_retry
clear_retry-core d s = ground (
  arith,
  maybe_free-core d (set_run d (record (s.runs d) { restart_at = 0; stale_hold = false }) s),
)

pub clear_retries-core : (fuel k : ℕ) (s : Sys) → SameCore s (clear_retries fuel k s)
unfolding clear_retries
clear_retries-core zero k s = refl
clear_retries-core (suc fuel) k s = elim (Bool-cases (ltb k s.n_live)) [
  | inl e ↦
      rw (e, clear_retries)
        (clear_retries-core fuel _ (clear_retry (s.live k) s) ∙ clear_retry-core (s.live k) s)
  | inr e ↦ rw (e, clear_retries) refl
]

module _ (g : Graph) (w : World) (i : ℕ) (s : Sys) where
  pub bury-core : SameCore s (bury g w i s)
  unfolding bury
  bury-core =
      let s0 = kill_group w i s in
      let s1 = close_fds i (drain_out w i 64 false s0) in
      let s2 = svc_abandon i (set_run i (record (s1.runs i) { starting = false }) s1) in
      let same : SameCore s s2 =
        svc_abandon-core i _
        ∙ close_fds-core i _
        ∙ drain_out-core w i 64 false s0
        ∙ kill_group-core w i s in
      if_keeps (SameCore s) (live_has i s2 && (s2.runs i).stale_pid == 0 && is_no_op (s2.runs i).op)
        _ _ (λ _. live_del-core i s2 ∙ same) (λ _. same)

  pub retry_later-core : SameCore s (retry_later g w i s)
  unfolding retry_later
  retry_later-core = if_keeps (SameCore s) (live_has i s) _ _ (λ _. refl) (λ _. live_add-core i s)

  launch_cgroup-core : SameCore s (launch_cgroup g w i s)
  unfolding launch_cgroup
  launch_cgroup-core = ground arith

  launched-core : (p : ℕ) → SameCore s (launched g w i p s)
  unfolding launched
  launched-core p = if_keeps (SameCore s) (live_has i _) _ _ (λ _. refl) (λ _. live_add-core i _)

pub launch-core : (g : Graph) (w : World) (i : ℕ) (s : Sys) → SameCore s (launch g w i s).0
unfolding launch launch_reset
launch-core g w i s = go (w.launch s.tick) refl
  where
    go : (l : Launch) → w.launch s.tick ≡ l → SameCore s (launch g w i s).0
    go Launch.no_pipe e = rw (e, launch) refl
    go Launch.no_fork e = rw (e, launch) (launch_cgroup-core g w i _)
    go (Launch.child p) e = rw (e, launch) (launched-core g w i _ p ∙ launch_cgroup-core g w i _)
