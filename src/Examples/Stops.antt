-- ===== src/Examples/Stops.antt =====
-- The theorems on stopping at small limits.
use tacorank.Prelude.{
  any, last?, find_first, find_last, ◌≡◌, refl, Bool, true, false, none, some, [], ◌∷◌, ◌++◌,
}
use tacorank.Accounting.{
  provider_tokens, estimated_tokens, unmeasured_tokens, total_reported_tokens, aggregate_resources,
}
use tacorank.Convergence.{
  RunConfig, observe_event, pressure_of, convergence_pressure, runtime_budget_decision,
  stop_decision,
}
use tacorank.Convergence.Stopping.{
  stop_decision-validate_transition, HasBudget, stop_decision-HasBudget,
}
use tacorank.Dict.{set, contains, values}
use tacorank.Examples.Laws.{ready_state, run_is_valid, ready_run-Legal}
use tacorank.Examples.Run.{nat_scores, event, ready_run}
use tacorank.Projection.Experiment.{
  on_experiment_proposed, on_patch_created, on_patch_checked, on_execution_started,
  on_execution_finished, on_output_checked, on_evaluation_completed,
}
use tacorank.Projection.Fold.{
  on_experiment_decided, dispatch, observe, step, run_events, initial_projection, conclude, project,
}
use tacorank.Projection.Recovery.{on_recovery_decided}
use tacorank.Projection.Run.{
  on_run_started, on_baseline_verified, on_best_updated, on_run_stopped, on_final_selected,
  on_submission_checked,
}
use tacorank.Result.{ok}
use tacorank.Schemas.Events.{EventPayload, Event}
use tacorank.Schemas.Statuses.{RunStatus}
use tacorank.State.{RunState, initial_state}
use tacorank.Transition.Closing.{check_run_stopped, check_final_selected}
use tacorank.Transition.Deciding.{check_experiment_decided, check_best_updated}
use tacorank.Transition.Evaluating.{check_evaluation_completed}
use tacorank.Transition.Evidence.{retrying_initial_coder, evaluation_request}
use tacorank.Transition.Executing.{
  check_execution_started, check_execution_finished, check_output_checked,
}
use tacorank.Transition.Patching.{check_patch_created, check_patch_checked}
use tacorank.Transition.Planning.{
  check_contract_verified, check_baseline_verified, check_context_created, accepts_proposals,
  check_experiment_proposed,
}
use tacorank.Transition.Recovering.{check_recovery_decided}
use tacorank.Transition.Validate.{check_payload, validate_transition}
use tacorank.Transition.Views.{
  as_contract_verified, as_baseline_verified, as_context_created, as_experiment_proposed,
  as_patch_created, as_patch_checked, as_execution_started, as_execution_finished,
  as_output_checked, as_evaluation_completed, as_experiment_decided, mentions, occurs,
  last_for_experiment,
}

abbrev limits : RunConfig
limits = record {
  max_experiments = 3;
  wall_time_limit_seconds = 10;
  token_limit = some 5;
  gpu_seconds_limit = some 5;
  convergence_epsilon = 1;
  convergence_patience = 3;
}

-- the same limits, with two seconds of wall time
abbrev short_limits : RunConfig
short_limits = record limits { wall_time_limit_seconds = 2 }

abbrev stop_event : Event
stop_event = event 4 "e4" (EventPayload.run_stopped (record { reason_code = "wall_time_budget" }))

record IsStopping : Type 0 where
  accepting : accepts_proposals ready_state ≡ true
  begun : occurs as_baseline_verified ready_run ≡ true
  decided : stop_decision ready_state ready_run short_limits false false ≡ some "wall_time_budget"

is_stopping : IsStopping
unfolding stop_decision runtime_budget_decision set contains values any last? find_first find_last
    aggregate_resources initial_state check_execution_started check_execution_finished
    check_output_checked check_payload validate_transition check_patch_created check_patch_checked
    as_contract_verified as_baseline_verified as_context_created as_experiment_proposed
    as_patch_created as_patch_checked as_execution_started as_execution_finished as_output_checked
    as_evaluation_completed as_experiment_decided mentions occurs last_for_experiment
    check_contract_verified check_baseline_verified check_context_created check_experiment_proposed
    check_experiment_decided check_best_updated retrying_initial_coder evaluation_request
    check_run_stopped check_final_selected check_recovery_decided check_evaluation_completed
    on_experiment_decided dispatch observe step run_events initial_projection conclude project
    on_run_started on_baseline_verified on_best_updated on_run_stopped on_final_selected
    on_submission_checked on_experiment_proposed on_patch_created on_patch_checked
    on_execution_started on_execution_finished on_output_checked on_evaluation_completed
    on_recovery_decided
is_stopping = record { accepting = refl; begun = refl; decided = refl }

stop_decision-validate_transition_example :
    (validate_transition ready_run stop_event.payload ≡ ok tt)
    × (t : RunState) × (project (ready_run ++ stop_event ∷ []) ≡ ok t)
    × (t.status ≡ RunStatus.stopped)
stop_decision-validate_transition_example =
    stop_decision-validate_transition ready_run ready_state short_limits false false
      "wall_time_budget" stop_event ready_run-Legal run_is_valid.ready_projects
      is_stopping.accepting is_stopping.begun is_stopping.decided refl

fresh_goes_on : stop_decision initial_state ready_run limits false false ≡ none
unfolding stop_decision initial_state runtime_budget_decision convergence_pressure pressure_of
    observe_event total_reported_tokens provider_tokens estimated_tokens unmeasured_tokens
fresh_goes_on = refl

stop_decision-HasBudget_example :
    HasBudget initial_state ready_run limits
    × (◌≡◌ {A = Bool} false false)
    × (◌≡◌ {A = Bool} false false)
stop_decision-HasBudget_example =
    stop_decision-HasBudget initial_state ready_run limits false false fresh_goes_on
