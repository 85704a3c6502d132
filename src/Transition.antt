-- ===== src/Transition.antt =====
-- src/tacorank/orchestrator/state_machine.py: which payload may follow which ledger. Each event
-- type's branch of `validate_transition` is a function; `Validate` puts them together.
pub mod Views
pub mod Evidence
pub mod Planning
pub mod Patching
pub mod Executing
pub mod Recovering
pub mod Evaluating
pub mod Deciding
pub mod Closing
pub mod Validate
