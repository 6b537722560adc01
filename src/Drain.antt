-- ===== src/Drain.antt =====
-- internal/core/drain: log templates mined by the DRAIN algorithm.
pub mod Cache
pub mod Template
pub mod Tree
pub mod Learn
pub mod Settle
pub mod Snapshot
pub mod Miner
