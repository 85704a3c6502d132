-- ===== src/Examples.antt =====
-- Runs at small concrete values, over scores that are natural numbers: the ledger of one experiment
-- whose execution fails, is retried, and becomes the best, up to the checked submission, and that of
-- an experiment that is repaired after its confirmation.
mod Run
mod Laws
mod Refused
mod Recoveries
mod Stops
mod Samples
mod Failures
mod Decisions
mod Ledgers
