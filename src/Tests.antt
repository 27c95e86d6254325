-- ===== src/Tests.antt =====
-- Concrete runs of the model, and each theorem with hypotheses at an input that meets them.
pub mod Program
pub mod Data
mod Runs
mod Witnesses
mod EngineWitnesses
mod ShadowWitnesses
mod StoreWitnesses
mod SessionWitnesses
mod ReconciliationWitnesses
mod ObserverWitnesses
mod PromotionWitnesses
