-- ===== src/Preflop.antt =====
-- The preflop histories of the blueprint, preflop_history.py.
pub mod Machine
pub mod Run
pub mod Cards
pub mod Classes
mod Pairs
mod Combos
pub mod Counts
pub mod Queue
pub mod Rounds
pub mod Keeps
mod Reading
mod Keys
mod Given
pub mod Histories
mod Tests
