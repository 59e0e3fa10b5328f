-- ===== src/CreditLimit.antt =====
-- src/obs_agent/credit_limit.py: failures for want of credit, and when the run is tried again.
pub mod Clock
pub mod Rearm
pub mod Bounds
mod Tests
