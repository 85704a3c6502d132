-- ===== src/Health.antt =====
-- src/tacorank/sre: the samples of a running process, and the directives on them.
pub mod Window
pub mod Slices
pub mod Detectors
pub mod Policy
pub mod Observer
pub mod Current
pub mod Verdicts
