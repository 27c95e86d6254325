-- ===== src/Operations.antt =====
-- custom_components/home_lighting_manager/operations.py: homeowner operations as transactions over
-- the engine.
pub mod Record
pub mod Effect
pub mod Transaction
pub mod Outcome
pub mod Admitted
pub mod Stable
pub mod Plain
pub mod Atomic
pub mod Overtakes
pub mod Sound
pub mod Memory
pub mod Replay
pub mod Bounds
