-- ===== src/RoutedLedger.antt =====
-- The append-only ledger of routed wagers and their settlements, which the destinations share
-- (contract/edge_finder_contract/routed_ledger.py). `Values` are the values of a row, `Rules` what a
-- row must be, `Fields` its fields, `Imports` the two importers on rows, `Texts` the files with
-- what reads and writes them, `Whole` the check of a whole ledger.
pub mod Values
pub mod Rules
pub mod Fields
pub mod Imports
pub mod Texts
pub mod Whole
pub mod Keyed
pub mod Filed
pub mod Built
pub mod Sound
pub mod Extended
pub mod ReadBack
pub mod Reached
pub mod Again
pub mod Alike
pub mod Written
pub mod Runs
pub mod Twice
