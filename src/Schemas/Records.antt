-- ===== src/Schemas/Records.antt =====
-- The records of src/tacorank/schemas.py that hold no score. A field that the modelled code never
-- reads (artifacts' paths, free text, resource limits) is left out; every other field keeps its
-- name. Identifiers, commit names and digests are texts, as in the source.
use tacorank.Prelude.{ℕ, ℤ, Bool, Option, List, String}
use tacorank.Schemas.Runs.{Fidelity, RunOutcome, RecoveryAction, FailureStage, Role}
use tacorank.Schemas.Judgements.{
  LessonOrigin, LessonCategory, ExperimentDecisionKind, TokenMeasurement,
}

pub record ArtifactRef : Type 0 where
  pub artifact_id : String

pub record ResourceDelta : Type 0 where
  pub llm_input_tokens : ℕ
  pub llm_output_tokens : ℕ
  pub token_measurement : TokenMeasurement
  pub wall_time_ms : ℕ
  pub cpu_time_ms : ℕ
  pub gpu_time_ms : ℕ
  pub gpu_count : ℕ
  pub peak_rss_mb : Option ℕ
  pub peak_gpu_memory_mb : Option ℕ
  pub manual_interventions : ℕ

pub record LessonCandidate : Type 0 where
  pub origin : LessonOrigin
  pub category : LessonCategory
  pub tags : List String
  pub summary : String
  pub source_event_ids : List String
  pub source_commit_shas : List String

-- with the fields of `ResearchProposal`, which it extends
pub record ExperimentSpec : Type 0 where
  pub run_id : String
  pub experiment_id : String
  pub parent_experiment_id : Option String
  pub parent_commit_sha : String
  pub context_id : String
  pub hypothesis : String
  pub family : String
  pub evidence_event_ids : List String
  pub duplicate_key : String

pub record PlannerOutput : Type 0 where
  pub spec : Option ExperimentSpec
  pub reason_code : String

pub record ContextDocument : Type 0 where
  pub context_id : String
  pub role : Role
  pub run_id : String
  pub experiment_id : Option String

pub record PatchCandidate : Type 0 where
  pub run_id : String
  pub experiment_id : String
  pub attempt : ℕ
  pub experiment_spec_event_id : String
  pub context_id : String
  pub base_commit_sha : String
  pub patch_commit_sha : String
  pub diff_sha256 : String

pub record PatchCheckResult : Type 0 where
  pub run_id : String
  pub experiment_id : String
  pub attempt : ℕ
  pub patch_commit_sha : String
  pub diff_sha256 : String
  pub accepted : Bool
  pub receipt_id : Option String

pub record RunRequest : Type 0 where
  pub run_id : String
  pub experiment_id : String
  pub attempt : ℕ
  pub fidelity : Fidelity
  pub command_id : String
  pub patch_commit_sha : String
  pub patch_receipt_id : String
  pub seed : ℤ

pub record RunResult : Type 0 where
  pub run_id : String
  pub experiment_id : String
  pub attempt : ℕ
  pub fidelity : Fidelity
  pub patch_commit_sha : String
  pub outcome : RunOutcome
  pub error_fingerprint : Option String
  pub prediction_artifact : Option ArtifactRef

pub record AdapterFailureResult : Type 0 where
  pub run_id : String
  pub experiment_id : String
  pub attempt : ℕ
  pub failure_stage : FailureStage
  pub outcome : RunOutcome
  pub error_fingerprint : String

pub record PlanningFailureResult : Type 0 where
  pub run_id : String
  pub context_id : String
  pub error_fingerprint : String

pub record OutputCheckResult : Type 0 where
  pub run_id : String
  pub experiment_id : String
  pub attempt : ℕ
  pub prediction_artifact : ArtifactRef
  pub accepted : Bool

pub record RecoveryDecision : Type 0 where
  pub run_id : String
  pub experiment_id : String
  pub failure_event_id : String
  pub repair_attempt : ℕ
  pub action : RecoveryAction
  pub reason_code : String
  pub same_error_count : ℕ
  pub remaining_repair_budget : ℕ

pub record ExperimentDecision : Type 0 where
  pub run_id : String
  pub experiment_id : String
  pub evaluation_event_id : Option String
  pub decision : ExperimentDecisionKind
  pub reason_code : String
  pub fidelity_completed : Fidelity
  pub parent_eligible : Bool
  pub best_eligible : Bool
  pub next_fidelity : Option Fidelity
  pub supporting_event_ids : List String
