-- ===== src/Transition/Evidence.antt =====
-- src/tacorank/orchestrator/state_machine.py: what the ledger says of failures, duplicates and the
-- request behind an evaluation.
use tacorank.Prelude.{
  ltb, ◌==◌, nat_eq, string_eq, option_eq, length, all, filter, last?, int_eq, String, Bool, true,
  false, not, ◌&&◌, ◌||◌, Option, none, some, List, [], ◌∷◌,
}
use tacorank.Dict.{values}
use tacorank.Float.{Floats}
use tacorank.Projection.Recovery.{failure_stage_of}
use tacorank.Result.{Result, require, require_some, ok, ◌>>=◌, ◌>>◌}
use tacorank.Schemas.Events.{EventPayload, Event}
use tacorank.Schemas.Judgements.{
  TrustVerdict, trust_verdict_eq, stability_eq, integrity_eq, experiment_decision_kind_eq,
  lesson_origin_eq, lesson_category_eq, lesson_status_eq, token_measurement_eq,
}
use tacorank.Schemas.Records.{ExperimentSpec, RunRequest}
use tacorank.Schemas.Runs.{
  fidelity_eq, RunOutcome, run_outcome_eq, RecoveryAction, recovery_action_eq, population_eq,
  FailureStage, failure_stage_eq, role_eq,
}
use tacorank.Schemas.Scores.{EvaluationResult}
use tacorank.Schemas.Statuses.{run_status_eq, ExperimentStatus, experiment_status_eq}
use tacorank.State.{ExperimentNode, RunState}
use tacorank.Transition.Views.{
  as_execution_started, as_execution_finished, as_recovery_decided, as_output_checked,
  as_evaluation_completed, last_for_experiment,
}

module _ ⦃F : Floats⦄ where
  abbrev pub has_key : String → ExperimentNode → Bool
  has_key key node = node.duplicate_key == key

  -- `bool(... is None or ...)` on a lookup: the test of the record found
  abbrev pub holds : {A : Type 0} → Option (Event × A) → (A → Bool) → Bool
  holds none test = false
  holds (some (e, a)) test = test a

  -- Allow one planner-selected duplicate after bounded no-op recovery.
  unfoldable pub authorized_no_op_reimplementation : List Event → RunState → ExperimentSpec → Bool
  authorized_no_op_reimplementation events s spec =
      elim (filter (has_key spec.duplicate_key) (values s.experiments)) [
        | [] ↦ false
        | node ∷ others ↦ elim others [
          | _ ∷ _ ↦ false
          | [] ↦
              node.status == ExperimentStatus.no_op
              && holds (last_for_experiment as_recovery_decided events node.experiment_id) (λ d.
                d.action == RecoveryAction.return_to_planner
                && (d.reason_code == "NO_OP_RECOVERY_EXHAUSTED"
                    || d.reason_code == "NO_OP_REPAIR_WORKER_EXHAUSTED"))
              && holds (last_for_experiment as_evaluation_completed events node.experiment_id)
                  (λ r. r.trust.verdict == TrustVerdict.no_op)
              && spec.parent_experiment_id == node.parent_experiment_id
              && spec.family == node.family
        ]
      ]

  -- Allow re-proposing a method whose prior attempts never tested it, up to three in all.
  unfoldable pub authorized_failed_attempt_reexploration : RunState → ExperimentSpec → Bool
  authorized_failed_attempt_reexploration s spec =
      let prior = filter (has_key spec.duplicate_key) (values s.experiments) in
      ltb 0 (length prior)
      && ltb (length prior) 3
      && all
          (λ node. node.status == ExperimentStatus.invalid || node.status == ExperimentStatus.no_op)
          prior

  unfoldable pub is_recoverable_failure : String → EventPayload → Bool
  is_recoverable_failure i (EventPayload.patch_checked r) = r.experiment_id == i && not r.accepted
  is_recoverable_failure i (EventPayload.execution_finished r) =
      r.experiment_id == i && not (r.outcome == RunOutcome.success)
  is_recoverable_failure i (EventPayload.adapter_failed r) = r.experiment_id == i
  is_recoverable_failure i (EventPayload.output_checked r) = r.experiment_id == i && not r.accepted
  is_recoverable_failure i (EventPayload.evaluation_completed r) =
      r.experiment_id == i && r.trust.verdict == TrustVerdict.no_op
  is_recoverable_failure i _ = false

  unfoldable pub latest_recoverable_failure : List Event → String → Option Event
  unfolding is_recoverable_failure
  latest_recoverable_failure events experiment_id =
      last? (filter (λ e. is_recoverable_failure experiment_id e.payload) events)

  unfoldable pub retrying_initial_coder : List Event → String → Bool
  unfolding latest_recoverable_failure
  retrying_initial_coder events experiment_id =
      holds (last_for_experiment as_recovery_decided events experiment_id)
        (λ d. d.action == RecoveryAction.retry_same_commit)
      && failure_stage_of (latest_recoverable_failure events experiment_id)
        == some FailureStage.coding

  -- the request of the execution whose accepted output an evaluation scores
  unfoldable pub evaluation_request : List Event → EvaluationResult → Result RunRequest
  evaluation_request events result = do
    output ←
        require_some (last_for_experiment as_output_checked events result.experiment_id)
          (λ o. o.1.accepted) "evaluation requires accepted output"
    require (output.1.attempt == result.attempt) "evaluation attempt does not match output"
    finished ←
        require_some (last_for_experiment as_execution_finished events result.experiment_id)
          (λ f. f.1.outcome == RunOutcome.success) "evaluation requires a successful execution"
    started ←
        require_some (last_for_experiment as_execution_started events result.experiment_id)
          (λ _. true) "evaluation has no execution request"
    require
        (finished.1.attempt == started.1.attempt
          && started.1.attempt == result.attempt
          && finished.1.fidelity == started.1.fidelity
          && finished.1.patch_commit_sha == started.1.patch_commit_sha)
        "evaluation source execution identity mismatch"
    ok started.1
