-- ===== src/Schemas.antt =====
-- src/tacorank/schemas.py: the records and enumerations that the ledger carries.
pub mod Runs
pub mod Judgements
pub mod Statuses
pub mod Records
pub mod Scores
pub mod Events
