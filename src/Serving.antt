-- ===== src/Serving.antt =====
-- src/minigpt/serving.py: the engine that schedules requests over the K/V pool.
pub mod Types
pub mod Valid
pub mod Construct
pub mod State
pub mod Admission
pub mod Execute
pub mod Commit
pub mod Pressure
pub mod Chunks
pub mod Tick
pub mod Live
mod Tests
