-- ===== src/Production.antt =====
-- The production filter (kalshi_router/production.py): which orders become wagers of a destination.
-- `Keys` is the identity of an order, `Finality` whether it can still change, `Gates` the gates of one
-- order, `Diagnostics` the counts of a run, `Filter` the run over all orders.
pub mod Keys
pub mod Finality
pub mod Gates
pub mod Diagnostics
pub mod Filter
