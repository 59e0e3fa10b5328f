-- ===== src/Watchdog.antt =====
-- src/obs_agent/spark_watchdog.py: the liveness watchdog of the local inference pair.
pub mod Detector
pub mod Ranks
pub mod Loop
pub mod Liveness
pub mod Backoff
pub mod Events
mod Tests
