-- ===== src/Shadow.antt =====
-- custom_components/home_lighting_manager/shadow.py: the non-commanding runtime around the engine.
pub mod Runtime
pub mod Restore
pub mod Kept
pub mod Once
pub mod Counted
