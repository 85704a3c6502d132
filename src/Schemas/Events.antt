-- ===== src/Schemas/Events.antt =====
-- The event payloads and the event envelope of src/tacorank/schemas.py. `Event.validate_envelope`
-- makes an event's type that of its payload, so the type is a function of the payload.
use tacorank.Prelude.{ℤ, ℕ, String, Bool, Option, List}
use tacorank.Float.{Floats, Fl}
use tacorank.Schemas.Judgements.{LessonStatus}
use tacorank.Schemas.Records.{
  ResourceDelta, LessonCandidate, ExperimentSpec, PlannerOutput, ContextDocument, PatchCandidate,
  PatchCheckResult, RunRequest, RunResult, AdapterFailureResult, PlanningFailureResult,
  OutputCheckResult, RecoveryDecision, ExperimentDecision,
}
use tacorank.Schemas.Scores.{MetricSet, EvaluationResult}

pub data EventType : Type 0 where
  run_started contract_verified baseline_verified context_created planner_recommended : EventType
  planning_failed experiment_proposed patch_created patch_checked execution_started : EventType
  execution_finished adapter_failed recovery_decided output_checked : EventType
  evaluation_completed experiment_decided best_updated lesson_recorded : EventType
  lesson_status_changed manual_intervention run_stopped final_selected : EventType
  submission_checked : EventType

pub record ContractVerifiedPayload : Type 0 where
  pub contract_sha256 : String
  pub evaluator_sha256 : String

pub record LessonRecordedPayload : Type 0 where
  pub lesson_id : String
  pub candidate : LessonCandidate

pub record LessonStatusChangedPayload : Type 0 where
  pub lesson_id : String
  pub status : LessonStatus

pub record RunStoppedPayload : Type 0 where
  pub reason_code : String

pub record FinalSelectedPayload : Type 0 where
  pub experiment_id : String
  pub commit_sha : String
  pub reproduction_evaluation_event_id : String

pub record SubmissionCheckedPayload : Type 0 where
  pub accepted : Bool

module _ ⦃F : Floats⦄ where
  pub record RunStartedPayload : Type 0 where
    pub max_experiments : ℕ
    pub parallel_directions : ℕ
    pub synthesize_parallel_improvements : Bool
    pub wall_time_limit_seconds : ℕ
    pub token_limit : Option ℕ
    pub gpu_seconds_limit : Option ℕ
    pub max_repairs_per_experiment : ℕ
    pub max_confirmation_attempts : ℕ
    pub seed_schedule : List ℤ
    pub convergence_epsilon : Fl
    pub convergence_patience : ℕ

  pub record BaselineVerifiedPayload : Type 0 where
    pub experiment_id : String
    pub commit_sha : String
    pub metric_set : MetricSet
    pub evaluation : EvaluationResult

  pub record BestUpdatedPayload : Type 0 where
    pub experiment_id : String
    pub commit_sha : String
    pub primary_metric_name : String
    pub primary_score : Fl
    pub decision_event_id : String

  -- the union `EventPayload`; `LiteratureEvidence` and other nested documents are left out
  pub data EventPayload : Type 0 where
    run_started : RunStartedPayload → EventPayload
    contract_verified : ContractVerifiedPayload → EventPayload
    baseline_verified : BaselineVerifiedPayload → EventPayload
    context_created : ContextDocument → EventPayload
    planner_recommended : PlannerOutput → EventPayload
    planning_failed : PlanningFailureResult → EventPayload
    experiment_proposed : ExperimentSpec → EventPayload
    patch_created : PatchCandidate → EventPayload
    patch_checked : PatchCheckResult → EventPayload
    execution_started : RunRequest → EventPayload
    execution_finished : RunResult → EventPayload
    adapter_failed : AdapterFailureResult → EventPayload
    recovery_decided : RecoveryDecision → EventPayload
    output_checked : OutputCheckResult → EventPayload
    evaluation_completed : EvaluationResult → EventPayload
    experiment_decided : ExperimentDecision → EventPayload
    best_updated : BestUpdatedPayload → EventPayload
    lesson_recorded : LessonRecordedPayload → EventPayload
    lesson_status_changed : LessonStatusChangedPayload → EventPayload
    manual_intervention : EventPayload
    run_stopped : RunStoppedPayload → EventPayload
    final_selected : FinalSelectedPayload → EventPayload
    submission_checked : SubmissionCheckedPayload → EventPayload

  -- `timestamp` is in microseconds, the resolution of `datetime`.
  pub record Event : Type 0 where
    pub event_id : String
    pub seq : ℕ
    pub timestamp : ℕ
    pub run_id : String
    pub idempotency_key : String
    pub causation_event_id : Option String
    pub payload : EventPayload
    pub resource_delta : ResourceDelta
    pub prev_event_hash : String
    pub event_hash : String

  unfoldable pub event_type : EventPayload → EventType
  event_type (run_started _) = EventType.run_started
  event_type (contract_verified _) = EventType.contract_verified
  event_type (baseline_verified _) = EventType.baseline_verified
  event_type (context_created _) = EventType.context_created
  event_type (planner_recommended _) = EventType.planner_recommended
  event_type (planning_failed _) = EventType.planning_failed
  event_type (experiment_proposed _) = EventType.experiment_proposed
  event_type (patch_created _) = EventType.patch_created
  event_type (patch_checked _) = EventType.patch_checked
  event_type (execution_started _) = EventType.execution_started
  event_type (execution_finished _) = EventType.execution_finished
  event_type (adapter_failed _) = EventType.adapter_failed
  event_type (recovery_decided _) = EventType.recovery_decided
  event_type (output_checked _) = EventType.output_checked
  event_type (evaluation_completed _) = EventType.evaluation_completed
  event_type (experiment_decided _) = EventType.experiment_decided
  event_type (best_updated _) = EventType.best_updated
  event_type (lesson_recorded _) = EventType.lesson_recorded
  event_type (lesson_status_changed _) = EventType.lesson_status_changed
  event_type manual_intervention = EventType.manual_intervention
  event_type (run_stopped _) = EventType.run_stopped
  event_type (final_selected _) = EventType.final_selected
  event_type (submission_checked _) = EventType.submission_checked
