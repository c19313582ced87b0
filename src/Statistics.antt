-- ===== src/Statistics.antt =====
-- The preregistered rules of statistics.py: the conclusion from an interval and the adjustment of
-- p-values for multiple tests.
pub mod Numbers
pub mod Adjust
pub mod Rejection
pub mod Order
pub mod Sorting
pub mod Critical
pub mod Written
pub mod Rounds
pub mod Holm
pub mod Effects
pub mod Mirror
mod Tests
