-- ===== src/Tests.antt =====
-- Runs on small inputs, and the theorems at such inputs, module by module.
mod Data
mod Accounting
mod Replays
mod Gates
mod Proposals
mod Settling
mod Grouping
mod Producing
mod Importing
mod Classifying
