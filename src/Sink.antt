-- ===== src/Sink.antt =====
-- internal/core/sink: where published events go.
pub mod Broadcast
pub mod Resilient
