-- ===== src/Transition/Recovering.antt =====
-- src/tacorank/orchestrator/state_machine.py: the branch of recovery decisions. The constant is that
-- of src/tacorank/recovery/policy.py.
use tacorank.Prelude.{
  ltb, if◌then◌else◌, ◌==◌, nat_eq, string_eq, option_eq, int_eq, ℕ, ◌+◌, max, min, not, ◌||◌, List,
}
use tacorank.Dict.{get}
use tacorank.Float.{Floats}
use tacorank.Projection.Recovery.{consumes_repair}
use tacorank.Result.{Check, require, require_some, ◌>>=◌, ◌>>◌}
use tacorank.Schemas.Events.{Event}
use tacorank.Schemas.Judgements.{
  trust_verdict_eq, stability_eq, integrity_eq, experiment_decision_kind_eq, lesson_origin_eq,
  lesson_category_eq, lesson_status_eq, token_measurement_eq,
}
use tacorank.Schemas.Records.{RecoveryDecision}
use tacorank.Schemas.Runs.{
  fidelity_eq, run_outcome_eq, RecoveryAction, recovery_action_eq, population_eq, failure_stage_eq,
  role_eq,
}
use tacorank.Schemas.Statuses.{run_status_eq, ExperimentStatus, experiment_status_eq}
use tacorank.State.{ExperimentNode, RunState}
use tacorank.Transition.Evidence.{latest_recoverable_failure}
use tacorank.Transition.Patching.{has_status}

abbrev pub max_same_commit_retries : ℕ
max_same_commit_retries = 2

module _ ⦃F : Floats⦄ where
  -- min(max(1, node.repair_count + 1), max(1, state.max_repairs_per_experiment))
  unfoldable pub expected_repair_attempt : RunState → ExperimentNode → ℕ
  expected_repair_attempt s node =
      min (max 1 (node.repair_count + 1)) (max 1 s.max_repairs_per_experiment)

  -- int(action in {TRAE_REPAIR, RESTART_FROM_TRUSTED_PARENT})
  abbrev pub repair_cost : RecoveryAction → ℕ
  repair_cost action = if consumes_repair action then 1 else 0

  -- The source tests `remaining == max - repair_count - cost` on integers; the sum is the same test
  -- on natural numbers.
  unfoldable pub check_recovery_decided : List Event → RunState → RecoveryDecision → Check
  unfolding expected_repair_attempt
  check_recovery_decided events s decision = do
    node ←
        require_some (get s.experiments decision.experiment_id)
          (has_status ExperimentStatus.recovering) "nothing is recoverable"
    require (decision.repair_attempt == expected_repair_attempt s node)
        "repair attempt is inconsistent; no next available budget slot"
    require_some (latest_recoverable_failure events decision.experiment_id)
        (λ e. decision.failure_event_id == e.event_id)
        "recovery decision must reference the latest failure"
    require
        (decision.remaining_repair_budget + node.repair_count + repair_cost decision.action
          == s.max_repairs_per_experiment)
        "remaining repair budget is inconsistent"
    require
        (not (decision.action == RecoveryAction.retry_same_commit)
          || ltb node.same_commit_retry_count max_same_commit_retries)
        "same-commit retries have already been used"
