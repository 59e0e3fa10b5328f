-- ===== src/Replay.antt =====
-- src/obs_agent/jsonl_replay.py: what of a transcript is replayed, and the repair of its ancestry.
pub mod Torn
pub mod Tails
pub mod Whole
pub mod Rows
pub mod Select
pub mod Overlays
pub mod Maps
pub mod Chain
pub mod Ends
pub mod Sound
pub mod Complete
pub mod Inversion
pub mod Repair
pub mod Again
pub mod Samples
mod Tests
