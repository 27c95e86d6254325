-- ===== src/Engine.antt =====
-- custom_components/home_lighting_manager/engine.py: the deterministic ownership engine.
pub mod State
pub mod Groups
pub mod Families
pub mod Stack
pub mod Off
pub mod Scope
pub mod Invariant
pub mod Frame
pub mod Sound
pub mod Reachable
pub mod Exposure
pub mod Overtaken
pub mod Disarmed
pub mod Renewal
pub mod TwoStep
pub mod Ended
