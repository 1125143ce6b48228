-- ===== src/Fuzz.antt =====
-- The fuzz drivers of scripts/.
pub mod Body
pub mod Pieces
pub mod Work
pub mod Mutate
pub mod Compare
pub mod Seeds
pub mod Iteration
mod Tests
mod DriverTests
