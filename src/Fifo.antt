-- ===== src/Fifo.antt =====
-- deploy/obs-transcription/gpu_lease_runner.py: transcription workers take turns by tickets.
pub mod Directory
pub mod Admission
pub mod Release
pub mod Workers
pub mod Queue
pub mod Order
pub mod Holding
pub mod Exclusion
pub mod Blocking
pub mod Line
pub mod Liveness
mod Tests
