-- ===== src/Health.antt =====
-- src/obs_agent/jsonl_health.py: whether a transcript can be resumed as it is.
pub mod Chains
pub mod Entries
pub mod Boundaries
pub mod Recovered
pub mod Analysis
pub mod Above
pub mod Inherited
pub mod Resolve
pub mod Resolved
pub mod Verdict
pub mod Marked
pub mod Equal
mod Tests
