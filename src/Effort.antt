-- ===== src/Effort.antt =====
-- src/obs_agent/effort.py: which effort a session gets, and how a request carries it.
pub mod Levels
pub mod Body
pub mod Kept
pub mod Inheritance
mod Tests
