-- ===== src/Supervisor.antt =====
-- The supervisor of pid 1 (src/state.c, src/reap.c, src/spawn.c, src/drain.c, src/command.c).
pub mod Core
pub mod Invariant
pub mod Sys
pub mod Live
pub mod Lookup
pub mod Output
pub mod Drain
pub mod Start
pub mod Release
pub mod Exit
pub mod Notify
pub mod Ops
pub mod Boot
pub mod Steps
pub mod Due
pub mod Keeps
pub mod Promises
