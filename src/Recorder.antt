-- ===== src/Recorder.antt =====
-- The recorder of public events, gto_event_collector.py.
pub mod Observation
pub mod Anchor
pub mod Infer
pub mod Advance
pub mod Probe
pub mod Shows
pub mod Commits
pub mod Moves
pub mod Statuses
pub mod Trail
pub mod Tests
