-- ===== src/Projection.antt =====
-- src/tacorank/memory/projections.py: the reducer from events to the run's state, in four parts.
pub mod Run
pub mod Experiment
pub mod Recovery
pub mod Fold
