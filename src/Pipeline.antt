-- ===== src/Pipeline.antt =====
-- public_history_pipeline.py: the coordinator that orders decoded observations by frame.
pub mod State
pub mod Process
pub mod Coordinator
pub mod Readiness
mod Names
mod Accepts
pub mod Steady
mod Keeps
mod Gaps
mod Loop
pub mod Valid
pub mod Calls
mod Promises
mod Ready
mod Answers
mod Lost
mod Recovery
mod Tests
