-- ===== src/Incident.antt =====
-- internal/core/incident: the events of a burst of anomalies assembled into incidents.
pub mod Report
pub mod Grouping
pub mod Told
pub mod Placement
pub mod Closing
pub mod Story
