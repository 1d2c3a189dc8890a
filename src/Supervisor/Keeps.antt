-- ===== src/Supervisor/Keeps.antt =====
-- The operations of the supervisor keep the invariant of the shared state.
pub mod Cores
pub mod Starts
pub mod Releases
pub mod Exits
pub mod Notifies
pub mod Requests
pub mod Carried
pub mod Undone
pub mod Drains
pub mod Ends
pub mod Settled
pub mod Boots
pub mod Events
