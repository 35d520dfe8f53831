-- ===== src/Examples.antt =====
-- The theorems at concrete inputs.
mod Rows
mod Runs
mod Operations
mod Scheduling
mod Rules
mod Reviews
mod Plans
mod Routes
mod Fairness
mod Ledgers
mod Upkeep
mod Desks
