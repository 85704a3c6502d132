-- ===== src/Projection/Recovery.antt =====
-- src/tacorank/memory/projections.py: the handlers of recovery and experiment decisions.
use tacorank.Prelude.{
  if◌then◌else◌, ◌==◌, nat_eq, string_eq, option_eq, filter, last?, int_eq, ◌+◌, max, String, Bool,
  true, false, Option, none, some, List,
}
use tacorank.Float.{Floats}
use tacorank.Projection.Experiment.{with_node}
use tacorank.Projection.Run.{clear_active}
use tacorank.Result.{Result}
use tacorank.Schemas.Events.{EventPayload, Event}
use tacorank.Schemas.Judgements.{
  trust_verdict_eq, stability_eq, integrity_eq, experiment_decision_kind_eq, lesson_origin_eq,
  lesson_category_eq, lesson_status_eq, token_measurement_eq,
}
use tacorank.Schemas.Records.{RecoveryDecision}
use tacorank.Schemas.Runs.{
  fidelity_eq, run_outcome_eq, RecoveryAction, recovery_action_eq, population_eq, FailureStage,
  failure_stage_eq, role_eq,
}
use tacorank.Schemas.Statuses.{run_status_eq, ExperimentStatus, experiment_status_eq}
use tacorank.State.{ExperimentNode, RunState}

module _ ⦃F : Floats⦄ where
  -- events_by_id.get(event_id): the last event written under that key
  unfoldable pub event_by_id : List Event → Option String → Option Event
  event_by_id events none = none
  event_by_id events (some event_id) = last? (filter (λ e. e.event_id == event_id) events)

  -- getattr(failed_result, "failure_stage", None); a planning failure's stage, "planner", meets no
  -- test of the source and is left out
  unfoldable pub failure_stage_of : Option Event → Option FailureStage
  failure_stage_of none = none
  failure_stage_of (some e) = elim e.payload [
    | EventPayload.adapter_failed r ↦ some r.failure_stage
    | _ ↦ none
  ]

  unfoldable pub is_evaluation_completed : Option Event → Bool
  is_evaluation_completed none = false
  is_evaluation_completed (some e) = elim e.payload [
    | EventPayload.evaluation_completed r ↦ true
    | _ ↦ false
  ]

  abbrev causation_of : Option Event → Option String
  causation_of none = none
  causation_of (some e) = e.causation_event_id

  -- where a retry of the same commit resumes: the node's status and the run's phase
  unfoldable pub resume_at : Option FailureStage → Bool → ExperimentStatus × String
  resume_at (some FailureStage.coding) evaluated = (ExperimentStatus.proposed, "coding")
  resume_at (some FailureStage.patch_gate) evaluated = (ExperimentStatus.patch_ready, "patch_gate")
  resume_at (some FailureStage.output_gate) evaluated =
      (ExperimentStatus.output_ready, "output_gate")
  resume_at (some FailureStage.evaluation) true = (ExperimentStatus.evaluated, "decision")
  resume_at (some FailureStage.evaluation) false = (ExperimentStatus.output_verified, "evaluation")
  resume_at (some FailureStage.execution) evaluated = (ExperimentStatus.ready_to_run, "execution")
  resume_at (some FailureStage.recovery) evaluated = (ExperimentStatus.ready_to_run, "execution")
  resume_at none evaluated = (ExperimentStatus.ready_to_run, "execution")

  -- the failure that a decision cites, and the event that caused it
  unfoldable pub retry_target : List Event → RecoveryDecision → ExperimentStatus × String
  unfolding event_by_id failure_stage_of is_evaluation_completed resume_at
  retry_target seen decision =
      let failure = event_by_id seen (some decision.failure_event_id) in
      resume_at (failure_stage_of failure)
        (is_evaluation_completed (event_by_id seen (causation_of failure)))

  abbrev pub consumes_repair : RecoveryAction → Bool
  consumes_repair RecoveryAction.trae_repair = true
  consumes_repair RecoveryAction.restart_from_trusted_parent = true
  consumes_repair _ = false

  -- the two counters of a node that a decision moves
  unfoldable pub count_recovery : RecoveryDecision → ExperimentNode → ExperimentNode
  count_recovery decision node = record node {
    repair_count =
        if consumes_repair decision.action
        then max node.repair_count decision.repair_attempt
        else node.repair_count;
    same_commit_retry_count =
        if decision.action == RecoveryAction.retry_same_commit
        then node.same_commit_retry_count + 1
        else node.same_commit_retry_count;
  }

  -- the statuses that an action leads to: of the node, and the run's phase
  unfoldable pub recovery_outcome :
      RecoveryAction → ExperimentStatus × String → ExperimentStatus × String
  recovery_outcome RecoveryAction.abandon target = (ExperimentStatus.invalid, "planning")
  recovery_outcome RecoveryAction.rollback target = (ExperimentStatus.invalid, "planning")
  recovery_outcome RecoveryAction.retry_same_commit target = target
  recovery_outcome RecoveryAction.adjust_approved_runtime_setting target =
      (ExperimentStatus.ready_to_run, "execution")
  recovery_outcome RecoveryAction.return_to_planner target = (ExperimentStatus.no_op, "planning")
  recovery_outcome RecoveryAction.trae_repair target = (ExperimentStatus.recovering, "recovery")
  recovery_outcome RecoveryAction.restart_from_trusted_parent target =
      (ExperimentStatus.recovering, "recovery")

  -- abandoning and rolling back leave no active experiment
  abbrev pub gives_up : RecoveryAction → Bool
  gives_up RecoveryAction.abandon = true
  gives_up RecoveryAction.rollback = true
  gives_up _ = false

  -- the actions that end an experiment stamp the event on its node
  abbrev pub is_terminal_action : RecoveryAction → Bool
  is_terminal_action RecoveryAction.return_to_planner = true
  is_terminal_action action = gives_up action

  unfoldable pub on_recovery_decided :
      List Event → String → RecoveryDecision → RunState → Result RunState
  unfolding with_node count_recovery recovery_outcome retry_target clear_active
  on_recovery_decided seen event_id decision s =
      let (status, phase) = recovery_outcome decision.action (retry_target seen decision) in
      with_node decision.experiment_id
        (λ node. record (count_recovery decision node) {
          status = status;
          terminal_event_id =
              if is_terminal_action decision.action then some event_id else node.terminal_event_id;
        })
        (record (if gives_up decision.action then clear_active s else s) { phase = phase })
