-- ===== src/ScheduleScope.antt =====
-- src/obs_agent/schedule_scope.py: who owns a schedule, and what a sweep spares.
pub mod Ownership
pub mod Sparing
mod Tests
