-- ===== src/Manipulation.antt =====
-- `manipulation/types` and `manipulation/service`: what a user sets up to disturb the frames that
-- are sent, and the handler that applies it.
pub mod Types
pub mod Random
pub mod Triggers
pub mod Effects
pub mod Handler
