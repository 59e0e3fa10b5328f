-- ===== src/Readiness.antt =====
-- src/obs_agent/cache_readiness.py and src/obs_agent/fork_model.py: whether waking a session is dear, and
-- on which model a fork runs.
pub mod Families
pub mod Calls
pub mod Forks
pub mod Laws
mod Tests
