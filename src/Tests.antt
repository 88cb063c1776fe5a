-- ===== src/Tests.antt =====
-- Runs of the definitions at concrete inputs, and the theorems at inputs that meet their hypotheses.
mod Clock
mod Epoch
mod Records
mod Rules
mod Settings
mod Timelock
mod Unapplied
mod Voting
