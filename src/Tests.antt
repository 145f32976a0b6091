-- ===== src/Tests.antt =====
-- Concrete inputs for the theorems.
pub mod Samples
pub mod Dialogue
pub mod Basics
pub mod Board
pub mod Table
pub mod Services
pub mod Menus
pub mod Threads
pub mod Machine
