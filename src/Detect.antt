-- ===== src/Detect.antt =====
-- internal/core/detect: the detectors of log and metric anomalies.
pub mod Glob
pub mod Room
pub mod Log
pub mod Metric
