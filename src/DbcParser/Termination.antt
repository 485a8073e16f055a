-- ===== src/DbcParser/Termination.antt =====
-- The loops of the parser end: each function returns with a file that is no longer than before, and
-- the rounds of a loop that go on shorten it.
pub mod Rules
pub mod Tokens
pub mod Loops
pub mod Parts
pub mod Sections
pub mod Values
pub mod Whole
