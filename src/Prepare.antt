-- ===== src/Prepare.antt =====
-- src/obs_agent/jsonl_replay.py: the preparation of a transcript with damage that it has inherited.
pub mod Legacy
pub mod Window
pub mod Opaque
mod Tests
