-- ===== src/AppendScan.antt =====
-- src/obs_agent/append_scan.py: folds over files that grow, read incrementally.
pub mod Lines
pub mod Scan
pub mod Whole
pub mod Ended
pub mod Blocks
pub mod Rescan
pub mod Store
pub mod Writers
pub mod Runs
pub mod Limits
mod Tests
