-- ===== src/Evaluation.antt =====
-- src/tacorank/evaluation: from the scores of a run to the decision on its experiment.
pub mod Seeds
pub mod Trust
pub mod Assess
pub mod Consistency
pub mod Release
pub mod Choosing
pub mod Decisions
pub mod Choices
pub mod Agreement
