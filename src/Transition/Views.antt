-- ===== src/Transition/Views.antt =====
-- src/tacorank/orchestrator/state_machine.py: lookups in the ledger. A view selects one event type
-- and yields what its payload holds, which is the test on `event_type` and the access that follows.
use tacorank.Prelude.{
  if◌then◌else◌, ◌==◌, nat_eq, string_eq, option_eq, find_last, int_eq, String, Bool, true, false,
  ◌||◌, Option, none, some, List,
}
use tacorank.Float.{Floats}
use tacorank.Schemas.Events.{ContractVerifiedPayload, BaselineVerifiedPayload, EventPayload, Event}
use tacorank.Schemas.Judgements.{
  trust_verdict_eq, stability_eq, integrity_eq, experiment_decision_kind_eq, lesson_origin_eq,
  lesson_category_eq, lesson_status_eq, token_measurement_eq,
}
use tacorank.Schemas.Records.{
  ExperimentSpec, ContextDocument, PatchCandidate, PatchCheckResult, RunRequest, RunResult,
  OutputCheckResult, RecoveryDecision, ExperimentDecision,
}
use tacorank.Schemas.Runs.{
  fidelity_eq, run_outcome_eq, recovery_action_eq, population_eq, failure_stage_eq, role_eq,
}
use tacorank.Schemas.Scores.{EvaluationResult}
use tacorank.Schemas.Statuses.{run_status_eq, experiment_status_eq}

module _ ⦃F : Floats⦄ where
  abbrev pub View : Type 0 → Type 0
  View A = EventPayload → Option A

  unfoldable pub as_contract_verified : View ContractVerifiedPayload
  as_contract_verified (EventPayload.contract_verified p) = some p
  as_contract_verified _ = none

  unfoldable pub as_baseline_verified : View BaselineVerifiedPayload
  as_baseline_verified (EventPayload.baseline_verified p) = some p
  as_baseline_verified _ = none

  unfoldable pub as_context_created : View ContextDocument
  as_context_created (EventPayload.context_created p) = some p
  as_context_created _ = none

  unfoldable pub as_experiment_proposed : View ExperimentSpec
  as_experiment_proposed (EventPayload.experiment_proposed p) = some p
  as_experiment_proposed _ = none

  unfoldable pub as_patch_created : View PatchCandidate
  as_patch_created (EventPayload.patch_created p) = some p
  as_patch_created _ = none

  unfoldable pub as_patch_checked : View PatchCheckResult
  as_patch_checked (EventPayload.patch_checked p) = some p
  as_patch_checked _ = none

  unfoldable pub as_execution_started : View RunRequest
  as_execution_started (EventPayload.execution_started p) = some p
  as_execution_started _ = none

  unfoldable pub as_execution_finished : View RunResult
  as_execution_finished (EventPayload.execution_finished p) = some p
  as_execution_finished _ = none

  unfoldable pub as_recovery_decided : View RecoveryDecision
  as_recovery_decided (EventPayload.recovery_decided p) = some p
  as_recovery_decided _ = none

  unfoldable pub as_output_checked : View OutputCheckResult
  as_output_checked (EventPayload.output_checked p) = some p
  as_output_checked _ = none

  unfoldable pub as_evaluation_completed : View EvaluationResult
  as_evaluation_completed (EventPayload.evaluation_completed p) = some p
  as_evaluation_completed _ = none

  unfoldable pub as_experiment_decided : View ExperimentDecision
  as_experiment_decided (EventPayload.experiment_decided p) = some p
  as_experiment_decided _ = none

  -- what `_last_for_experiment` looks for in the dumped payload: the experiment of the payload or of
  -- a record in it
  unfoldable pub mentions : String → EventPayload → Bool
  mentions i (EventPayload.baseline_verified p) =
      p.experiment_id == i || p.evaluation.experiment_id == i
  mentions i (EventPayload.context_created c) = c.experiment_id == some i
  mentions i (EventPayload.experiment_proposed p) = p.experiment_id == i
  mentions i (EventPayload.patch_created p) = p.experiment_id == i
  mentions i (EventPayload.patch_checked p) = p.experiment_id == i
  mentions i (EventPayload.execution_started p) = p.experiment_id == i
  mentions i (EventPayload.execution_finished p) = p.experiment_id == i
  mentions i (EventPayload.adapter_failed p) = p.experiment_id == i
  mentions i (EventPayload.recovery_decided p) = p.experiment_id == i
  mentions i (EventPayload.output_checked p) = p.experiment_id == i
  mentions i (EventPayload.evaluation_completed p) = p.experiment_id == i
  mentions i (EventPayload.experiment_decided p) = p.experiment_id == i
  mentions i (EventPayload.best_updated p) = p.experiment_id == i
  mentions i (EventPayload.final_selected p) = p.experiment_id == i
  mentions i _ = false

  -- `_events_of(events, event_type)[-1]`
  unfoldable pub last_of : {A : Type 0} → View A → List Event → Option (Event × A)
  last_of view events = find_last (λ e. view e.payload) events

  -- bool(_events_of(events, event_type))
  unfoldable pub occurs : {A : Type 0} → View A → List Event → Bool
  unfolding last_of
  occurs view events = elim (last_of view events) [ none ↦ false | some _ ↦ true ]

  abbrev view_for : {A : Type 0} → View A → String → Event → Option A
  view_for view experiment_id e = if mentions experiment_id e.payload then view e.payload else none

  unfoldable pub last_for_experiment :
      {A : Type 0} → View A → List Event → String → Option (Event × A)
  last_for_experiment view events experiment_id = find_last (view_for view experiment_id) events
