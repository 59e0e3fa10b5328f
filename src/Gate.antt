-- ===== src/Gate.antt =====
-- deploy/llm-inference/gate.py: the serialized streaming gate and the GPU handoff.
pub mod State
pub mod Requests
pub mod Demands
pub mod Coordinator
pub mod Recovery
pub mod Threads
pub mod Queues
pub mod Turns
pub mod Holding
pub mod Safety
pub mod Evolves
pub mod Admission
pub mod Sync
pub mod Exclusion
pub mod Interleaving
pub mod Nvml
pub mod Reachable
pub mod Detached
pub mod Failure
mod Tests
mod DeviceTests
