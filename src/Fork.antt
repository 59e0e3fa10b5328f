-- ===== src/Fork.antt =====
-- src/obs_agent/jsonl_fork.py: which rows of a transcript a fork starts with.
pub mod Copy
pub mod Kept
pub mod Equal
mod Tests
