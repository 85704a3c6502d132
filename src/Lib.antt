-- ===== src/Lib.antt =====
-- TacoRank runs experiments on a ranking model: a planner proposes, a coding agent patches, gates
-- check, a sandbox executes, an evaluator scores, and a controller decides. Everything that happens
-- is an event of one append-only ledger. The state of a run is the projection of its ledger, and an
-- event is appended only where the state machine accepts it after the events before it. This library
-- models that core: the ledger's records and its file, the projection, the state machine, replay, the
-- stop rules, and the two policies whose decisions the state machine checks, recovery and evaluation.
--
-- The modules and the code they model:
-- - Schemas: src/tacorank/schemas.py, the enumerations, records, payloads and the event envelope, and
--   the statuses of src/tacorank/orchestrator/state.py. A field that no modelled function reads is
--   left out, and so are the field validators.
-- - State, Accounting: orchestrator/state.py and accounting.py under src/tacorank. Dict is Python's
--   `dict` with string keys, in insertion order.
-- - Projection: src/tacorank/memory/projections.py. Each branch of the loop in `project` is a function
--   `on_<event>`; `dispatch` is the chain of tests on the event's type, `step` one turn of the loop,
--   `run_events` the loop, `conclude` what follows it.
-- - Transition: src/tacorank/orchestrator/state_machine.py. Each branch of `validate_transition` is a
--   function `check_<event>`; `check_status` holds the guards on the status of the run.
-- - Ledger: what the two promise together. A ledger is `Legal` if each event was accepted after those
--   before it, and `Grows` relates a ledger to its continuations. Ledger.Replay is
--   src/tacorank/memory/replay.py.
-- - Store: src/tacorank/memory/event_store.py, over the bytes of the file. Store.Lines splits and repairs
--   them, Store.Reading is `_read_locked` and Store.Appending is `append`. JSON, SHA-256 and the formats
--   of ids and keys are the record `Codec`, whose documented behaviour, that decoding gives back what was
--   encoded on one canonical line, is the hypothesis `Encodes` of the theorems that need it. The lock
--   makes an append one step from a file to a file.
-- - Evaluation: src/tacorank/evaluation. Evaluation.Seeds is stability.py; Evaluation.Trust and
--   Evaluation.Assess are `assess_trust` of trust.py, whose early returns are the stages joined by
--   `orelse`; Evaluation.Choosing and Evaluation.Decisions are `decide` of decisions.py, on the context
--   that src/tacorank/orchestrator/live.py builds.
-- - Recovery: src/tacorank/recovery/runtime_adjustments.py (Recovery.Adjustments) and `RecoveryManager`
--   of src/tacorank/recovery/policy.py (Recovery.Policy), whose `_route` is the sequence of tests
--   `early_route` and then `repair_route`. Recovery.Agreement and Recovery.Exhausted have the context
--   and the budgets that `_recover` of src/tacorank/orchestrator/router.py hands to it.
--   Recovery.Classifier and Recovery.Classifying are `classify_failure` of
--   src/tacorank/recovery/classifier.py, its first draft and the steps that adjust it, over the
--   operations of `str` as parameters.
-- - Health: src/tacorank/sre, the window of samples, the detectors on it, the policy and its observer. The
--   search of patterns in the output is a parameter.
-- - Convergence: src/tacorank/orchestrator/convergence.py, the stop rules of the controller.
-- - Prelude, Result, Float: tests and searches, Python's exceptions as values, and `float`.
-- - Examples: a run at concrete values; Examples.Refused is a second run, with a repair after its
--   confirmation.
--
-- Conventions. A function that may raise returns a `Result`; the errors keep their kind, and the text
-- of a failed requirement. Times are whole microseconds. `float` is a parameter (`Floats`) with the
-- two laws of `<` that are used, irreflexivity and transitivity, which hold of every IEEE value. A
-- mutated node is a new node stored under the same key. Every loop is a structural recursion on a
-- list, so no fuel is needed.
--
-- Not modelled: the adapters (coding agents, providers, git, the sandbox, data access), which only
-- produce payloads; the hash that fingerprints a failure; prompt texts and reports; numerical metrics
-- and the choice of the next proposal; the lock of the ledger.
pub mod Prelude
pub mod Result
pub mod Float
pub mod Schemas
pub mod Dict
pub mod Accounting
pub mod State
pub mod Projection
pub mod Transition
pub mod Ledger
pub mod Recovery
pub mod Evaluation
pub mod Store
pub mod Convergence
pub mod Health
pub mod Examples
