-- ===== src/Recovery.antt =====
-- src/tacorank/recovery: the bounded recovery policy.
pub mod Adjustments
pub mod Policy
pub mod Bounds
pub mod Classifier
pub mod Classifying
pub mod Ownership
pub mod Agreement
pub mod Exhausted
