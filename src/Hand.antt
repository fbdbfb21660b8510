-- ===== src/Hand.antt =====
-- The public hand history, gto_hand_history.py.
pub mod Types
pub mod Seating
pub mod Header
pub mod Machine
pub mod Actions
pub mod Deals
pub mod View
pub mod Order
pub mod Invariant
pub mod Turns
pub mod Ensures
pub mod Pay
pub mod Steps
pub mod Events
pub mod Run
pub mod Equality
pub mod Start
pub mod Tables
pub mod Totals
pub mod Soundness
pub mod Legal
pub mod Extend
pub mod Offers
pub mod Tests
