-- ===== src/Timelock.antt =====
-- The contest window between a decision and its effect, src/governance/timelock.ts.
-- What a settings proposal writes, the hold and the application are in the modules below.
pub mod Merge
pub mod Objections
pub mod Apply
pub mod Override
