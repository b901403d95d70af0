-- ===== src/System.antt =====
-- The requests of the API that write, served one after the other.
pub mod Accounts
pub mod Changes
pub mod Frames
pub mod Invariant
pub mod Review
pub mod Run
pub mod Life
