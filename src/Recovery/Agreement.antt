-- ===== src/Recovery/Agreement.antt =====
-- The context that `_recover` of src/tacorank/orchestrator/router.py builds for the recovery policy, and
-- the state machine's view of the decision that the policy then makes.
use tacorank.Prelude.{
  ltb, ◌==◌, nat_eq, string_eq, option_eq, ℤ, int_eq, ℕ, ◌+◌, ◌-◌, String, ◌≡◌, Bool, true, not,
  ◌||◌, List,
}
use tacorank.Dict.{Dict}
use tacorank.Float.{Floats}
use tacorank.Recovery.Adjustments.{Scalar, Setting, Attempt}
use tacorank.Recovery.Policy.{FailureClassification, RecoveryPolicyContext, Route, route, count_of}
use tacorank.Schemas.Events.{Event}
use tacorank.Schemas.Judgements.{
  trust_verdict_eq, stability_eq, integrity_eq, experiment_decision_kind_eq, lesson_origin_eq,
  lesson_category_eq, lesson_status_eq, token_measurement_eq,
}
use tacorank.Schemas.Records.{RecoveryDecision}
use tacorank.Schemas.Runs.{
  fidelity_eq, run_outcome_eq, RecoveryAction, recovery_action_eq, population_eq, FailureStage,
  failure_stage_eq, role_eq,
}
use tacorank.Schemas.Statuses.{run_status_eq, experiment_status_eq}
use tacorank.State.{ExperimentNode, RunState}
use tacorank.Transition.Recovering.{max_same_commit_retries, expected_repair_attempt, repair_cost}

module _ ⦃F : Floats⦄ where
  -- `RecoveryPolicyContext(...)` in `_recover`, with what the router reads from the ledger and from its
  -- configuration as arguments
  unfoldable pub recovery_context :
      RunState
      → ExperimentNode
      → (run_id experiment_id failure_event_id : String) → FailureStage
      → List Attempt
      → List String
      → Dict ℤ
      → Dict Setting
      → Dict Scalar
      → RecoveryPolicyContext
  recovery_context s node run_id experiment_id failure_event_id stage history previous budget
        allowed current =
      record {
        run_id = run_id;
        experiment_id = experiment_id;
        failure_event_id = failure_event_id;
        failure_stage = stage;
        attempt_history = history;
        repair_attempts_used = node.repair_count;
        max_repair_attempts = s.max_repairs_per_experiment;
        same_commit_retries_used = node.same_commit_retry_count;
        remaining_repair_budget = s.max_repairs_per_experiment - node.repair_count;
        previous_error_fingerprints = previous;
        remaining_run_budget = budget;
        allowed_runtime_adjustments = allowed;
        current_runtime_settings = current;
      }

  -- a decision that agrees with the state it was made from
  record Suits (s : RunState) (node : ExperimentNode) (e : Event) (d : RecoveryDecision)
      : Type 0 where
    attempt : d.repair_attempt ≡ expected_repair_attempt s node
    failure : d.failure_event_id ≡ e.event_id
    budget :
        d.remaining_repair_budget + node.repair_count + repair_cost d.action
        ≡ s.max_repairs_per_experiment
    retry :
        (not (d.action == RecoveryAction.retry_same_commit)
          || ltb node.same_commit_retry_count max_same_commit_retries)
        ≡ true

  -- what the router hands to the policy
  module _ (upper : String → String) (is_blank : String → Bool) (f : FailureClassification)
      (s : RunState) (node : ExperimentNode) (e : Event) (run_id experiment_id : String)
      (stage : FailureStage) (history : List Attempt) (previous : List String) (budget : Dict ℤ)
      (allowed : Dict Setting) (current : Dict Scalar) where
    abbrev context : RecoveryPolicyContext
    context =
        recovery_context s node run_id experiment_id e.event_id stage history previous budget
          allowed current

    abbrev same_count : ℕ
    same_count = count_of f.fingerprint previous + 1

    abbrev chosen : Route
    chosen = route f context same_count context.remaining_repair_budget upper is_blank
