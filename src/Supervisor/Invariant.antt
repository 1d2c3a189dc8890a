-- ===== src/Supervisor/Invariant.antt =====
-- The invariant of the supervisor's shared state, and that the operations of src/state.c keep it.
pub mod Defs
mod Owing
pub mod Marks
pub mod Reclaim
pub mod GoDown
pub mod Sound
pub mod Poison
pub mod Fail
pub mod Raise
