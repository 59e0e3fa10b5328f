-- ===== src/CacheGate.antt =====
-- src/obs_agent/cache_gate.py: no restart or merge of cache-sensitive code without a passing report.
pub mod Reports
pub mod Rerun
pub mod Rule
pub mod Matching
pub mod Search
pub mod Order
pub mod Verdict
mod Tests
