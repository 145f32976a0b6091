-- ===== src/ListChecker.antt =====
-- listchecker/listchecker.cxx: the process that brings the table of issues in line with the board.
pub mod Table
pub mod Monad
pub mod Cards
pub mod Pass
pub mod Row
pub mod Runs
pub mod Managed
pub mod OneCard
pub mod After
pub mod Sweep
pub mod Refines
pub mod Loop
pub mod Stable
pub mod Settled
