-- ===== src/Tests.antt =====
-- Concrete runs of the definitions, and the theorems at concrete inputs.
pub mod Words
pub mod Texts
pub mod Tournament
pub mod Play
pub mod Dialogue
pub mod Ending
pub mod Match
pub mod Race
