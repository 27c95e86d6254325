-- ===== src/Persistence.antt =====
-- custom_components/home_lighting_manager/persistence.py: the storage schema of the shadow state.
-- An exception of a single record only drops the record, so a parser answers with an Option.
pub mod Encode
pub mod Decode
pub mod Payload
pub mod RoundTrip
pub mod Trusted
pub mod Recovered
