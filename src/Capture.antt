-- ===== src/Capture.antt =====
-- The capture of keyframes, live_capture.py: the detector of keyframes, and the ring between
-- the capture and its consumer.
pub mod Ring
pub mod Trace
pub mod Retention
pub mod Calls
pub mod Valid
pub mod Ledger
pub mod Guard
pub mod Merge
pub mod Ranges
pub mod Detector
pub mod Rising
pub mod Watch
mod Tests
mod Scenes
