-- ===== src/Transition/Validate.antt =====
-- src/tacorank/orchestrator/state_machine.py: `validate_transition`, the guards on the run's status
-- and the dispatch on the payload.
use tacorank.Prelude.{
  ◌==◌, nat_eq, string_eq, option_eq, int_eq, Bool, true, false, not, List, [], ◌∷◌,
}
use tacorank.Dict.{contains}
use tacorank.Float.{Floats}
use tacorank.Projection.Fold.{project}
use tacorank.Result.{Check, require, ok, err, transition_error, ◌>>=◌, ◌>>◌}
use tacorank.Schemas.Events.{EventPayload, Event}
use tacorank.Schemas.Judgements.{
  trust_verdict_eq, stability_eq, integrity_eq, experiment_decision_kind_eq, lesson_origin_eq,
  lesson_category_eq, lesson_status_eq, token_measurement_eq,
}
use tacorank.Schemas.Runs.{
  fidelity_eq, run_outcome_eq, recovery_action_eq, population_eq, failure_stage_eq, role_eq,
}
use tacorank.Schemas.Statuses.{RunStatus, run_status_eq, experiment_status_eq}
use tacorank.State.{RunState}
use tacorank.Transition.Closing.{check_lesson_recorded, check_run_stopped, check_final_selected}
use tacorank.Transition.Deciding.{check_experiment_decided, check_best_updated}
use tacorank.Transition.Evaluating.{check_evaluation_completed}
use tacorank.Transition.Executing.{
  check_execution_started, check_execution_finished, check_output_checked,
}
use tacorank.Transition.Patching.{check_patch_created, check_patch_checked, check_adapter_failed}
use tacorank.Transition.Planning.{
  check_contract_verified, check_baseline_verified, check_context_created,
  check_planner_recommended, check_planning_failed, check_experiment_proposed,
}
use tacorank.Transition.Recovering.{check_recovery_decided}

module _ ⦃F : Floats⦄ where
  unfoldable pub is_run_started : EventPayload → Bool
  is_run_started (EventPayload.run_started _) = true
  is_run_started _ = false

  -- the events that may follow run.stopped
  unfoldable pub is_finalization_evidence : EventPayload → Bool
  is_finalization_evidence (EventPayload.execution_started _) = true
  is_finalization_evidence (EventPayload.execution_finished _) = true
  is_finalization_evidence (EventPayload.output_checked _) = true
  is_finalization_evidence (EventPayload.evaluation_completed _) = true
  is_finalization_evidence (EventPayload.final_selected _) = true
  is_finalization_evidence _ = false

  unfoldable pub is_submission_checked : EventPayload → Bool
  is_submission_checked (EventPayload.submission_checked _) = true
  is_submission_checked _ = false

  unfoldable pub check_status : RunStatus → EventPayload → Check
  unfolding is_finalization_evidence is_submission_checked
  check_status RunStatus.finalized payload =
      err (transition_error "no events may follow a finalized run")
  check_status RunStatus.failed payload =
      err (transition_error "no events may follow a finalized run")
  check_status RunStatus.stopped payload =
      require (is_finalization_evidence payload)
        "only sealed finalization evidence may follow run.stopped"
  check_status RunStatus.finalizing payload =
      require (is_submission_checked payload) "only submission checking may follow final selection"
  check_status RunStatus.initializing payload = ok tt
  check_status RunStatus.ready payload = ok tt
  check_status RunStatus.running payload = ok tt

  -- the `if` chain on the event's type
  unfoldable pub check_payload : List Event → RunState → EventPayload → Check
  check_payload es s (EventPayload.run_started p) = ok tt
  check_payload es s (EventPayload.contract_verified p) = check_contract_verified es
  check_payload es s (EventPayload.baseline_verified p) = check_baseline_verified es p
  check_payload es s (EventPayload.context_created p) = check_context_created es s
  check_payload es s (EventPayload.planner_recommended p) = check_planner_recommended es
  check_payload es s (EventPayload.planning_failed p) = check_planning_failed es s p
  check_payload es s (EventPayload.experiment_proposed p) = check_experiment_proposed es s p
  check_payload es s (EventPayload.patch_created p) = check_patch_created es s p
  check_payload es s (EventPayload.patch_checked p) = check_patch_checked es s p
  check_payload es s (EventPayload.execution_started p) = check_execution_started es s p
  check_payload es s (EventPayload.execution_finished p) = check_execution_finished es s p
  check_payload es s (EventPayload.adapter_failed p) = check_adapter_failed es s p
  check_payload es s (EventPayload.recovery_decided p) = check_recovery_decided es s p
  check_payload es s (EventPayload.output_checked p) = check_output_checked es s p
  check_payload es s (EventPayload.evaluation_completed p) = check_evaluation_completed es s p
  check_payload es s (EventPayload.experiment_decided p) = check_experiment_decided es s p
  check_payload es s (EventPayload.best_updated p) = check_best_updated es s p
  check_payload es s (EventPayload.lesson_recorded p) = check_lesson_recorded es s p
  check_payload es s (EventPayload.lesson_status_changed p) =
      require (contains s.lessons p.lesson_id) "unknown lesson_id"
  check_payload es s EventPayload.manual_intervention = ok tt
  check_payload es s (EventPayload.run_stopped p) = check_run_stopped es s
  check_payload es s (EventPayload.final_selected p) = check_final_selected es s p
  check_payload es s (EventPayload.submission_checked p) =
      require (s.status == RunStatus.finalizing) "submission check requires final selection"

  unfoldable pub validate_transition : List Event → EventPayload → Check
  unfolding is_run_started check_status
  validate_transition [] payload =
      require (is_run_started payload) "the first event must be run.started"
  validate_transition (e ∷ es) payload = do
    require (not (is_run_started payload)) "run.started may occur only once"
    s ← project (e ∷ es)
    check_status s.status payload
    check_payload (e ∷ es) s payload
