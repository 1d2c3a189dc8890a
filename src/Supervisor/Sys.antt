-- ===== src/Supervisor/Sys.antt =====
-- The supervisor's variables (src/ninit.c, src/run.h) and what the kernel answers it.
use ninit.Prelude.{ℕ, ◌+◌, Bool, true, false, List, ◌∷◌, Option, update}
use ninit.Supervisor.Core.{Core}

-- SVC_OP_*
pub data Op : Type 0 where
  no_op term kill start : Op

abbrev pub is_no_op : Op → Bool
is_no_op no_op = true
is_no_op _ = false

-- a wait status, as far as the code looks into it, and the two FAIL_ST_* values
pub data Status : Type 0 where
  exited : ℕ → Status
  signaled : ℕ → Status
  stopped : Status
  notify_hup : Status
  timeout : Status

-- struct run. A pid of 0 is none, and a descriptor is only open or not.
pub record Run : Type 0 where
  pub pid : ℕ
  pub pgid : ℕ
  pub stale_pid : ℕ
  pub out_fd : Bool
  pub ntf_fd : Bool
  pub live_pos : ℕ
  pub restart_at : ℕ
  pub burst : ℕ
  pub cg_killed : Bool
  pub stale_hold : Bool
  pub attempt : ℕ
  pub hup : Bool
  pub timedout : Bool
  pub starting : Bool
  pub ntf_exec : Bool
  pub op : Op
  pub op_restart : Bool
  pub started : ℕ
  pub op_at : ℕ
  pub tail : List ℕ
  pub line : List ℕ

-- what leaves pid 1: the signals, the log lines of a service, the emergency shell, and how an
-- operation that a client asked for has ended
pub data Output : Type 0 where
  signal : ℕ → ℕ → Output
  note : ℕ → List ℕ → Output
  shell : ℕ → Output
  op_ended : ℕ → Bool → Output

pub record Sys : Type 0 where
  pub core : Core
  pub runs : ℕ → Run
  pub live : ℕ → ℕ  -- live[0 .. n_live)
  pub n_live : ℕ
  pub n_ops : ℕ
  pub drain_left : ℕ
  pub drain_rotor : ℕ
  pub tick : ℕ  -- the number of questions put to the kernel
  pub sent : List Output  -- the newest first

-- what read() gives: bytes, EINTR, EAGAIN, or the end or an error
pub data Read : Type 0 where
  bytes : List ℕ → Read
  interrupted again closed : Read

-- how the system calls of launch() end; `child p` is a child with the pid p + 1
pub data Launch : Type 0 where
  no_pipe no_fork : Launch
  child : ℕ → Launch

-- The kernel: its answer to the question with a given number. It is arbitrary.
pub record World : Type 0 where
  pub now : ℕ → ℕ  -- CLOCK_MONOTONIC in ms
  pub cg_ok : Bool  -- services have cgroups
  pub cg_kill : ℕ → Bool  -- cgroup.kill was written
  pub populated : ℕ → Option Bool  -- cgroup_populated, `none` for -1
  pub cg_drop : ℕ → Bool  -- cgroup_drop removed the directory
  pub launch : ℕ → Launch
  pub read : ℕ → Read

-- one question more
abbrev pub asked : Sys → Sys
asked s = record s { tick = s.tick + 1 }

abbrev pub set_run : ℕ → Run → Sys → Sys
set_run i r s = record s { runs = update s.runs i r }

abbrev pub put : Output → Sys → Sys
put o s = record s { sent = o ∷ s.sent }
