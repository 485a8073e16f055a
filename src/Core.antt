-- ===== src/Core.antt =====
-- The shared data of the program (`src/core`).
pub mod Float
pub mod Dto
pub mod Sample
