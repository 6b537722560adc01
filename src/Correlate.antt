-- ===== src/Correlate.antt =====
-- internal/core/correlate: the signals of a source gathered into one event.
pub mod State
pub mod Intake
pub mod Emission
pub mod Flushing
pub mod Corroborated
pub mod Soundness
pub mod Adding
pub mod Running
pub mod Settling
