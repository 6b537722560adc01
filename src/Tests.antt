-- ===== src/Tests.antt =====
-- Every property at a concrete input.
mod Samples
mod Mining
mod Pipeline
mod Damping
mod Detecting
mod Processing
mod Persisting
mod Tokenizing
