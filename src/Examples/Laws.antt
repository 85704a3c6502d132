-- ===== src/Examples/Laws.antt =====
-- The theorems at the run of Examples.Run.
use tacorank.Dict.{set, contains, values}
use tacorank.Prelude.{
  ℕ, ◌≡◌, ◌↔◌, refl, inl, [], none, ◌≢◌, any, last?, find_first, find_last, views,
}
use tacorank.Accounting.{aggregate_resources}
use tacorank.State.{RunState, initial_state}
use tacorank.Transition.Executing.{
  check_execution_started, check_execution_finished, check_output_checked,
}
use tacorank.Transition.Validate.{check_payload, validate_transition}
use tacorank.Transition.Patching.{check_patch_created, check_patch_checked}
use tacorank.Transition.Views.{
  as_contract_verified, as_baseline_verified, as_context_created, as_experiment_proposed,
  as_patch_created, as_patch_checked, as_execution_started, as_execution_finished,
  as_output_checked, as_evaluation_completed, as_experiment_decided, mentions, occurs,
  last_for_experiment,
}
use tacorank.Transition.Planning.{
  check_contract_verified, check_baseline_verified, check_context_created,
  check_experiment_proposed,
}
use tacorank.Transition.Deciding.{check_experiment_decided, check_best_updated}
use tacorank.Transition.Evidence.{retrying_initial_coder, evaluation_request}
use tacorank.Transition.Closing.{check_run_stopped, check_final_selected}
use tacorank.Transition.Recovering.{check_recovery_decided}
use tacorank.Transition.Evaluating.{check_evaluation_completed}
use tacorank.Projection.Fold.{
  on_experiment_decided, dispatch, observe, step, run_events, initial_projection, conclude, project,
}
use tacorank.Projection.Run.{
  on_run_started, on_baseline_verified, on_best_updated, on_run_stopped, on_final_selected,
  on_submission_checked,
}
use tacorank.Projection.Experiment.{
  on_experiment_proposed, on_patch_created, on_patch_checked, on_execution_started,
  on_execution_finished, on_output_checked, on_evaluation_completed,
}
use tacorank.Projection.Recovery.{on_recovery_decided}
use tacorank.Transition.Validate.{validate_transition}
use tacorank.Examples.Run.{nat_scores, whole_run, ready_run, best_rest, best_run, selected_run}
use tacorank.Result.{Result, ok, err}
use tacorank.Schemas.Statuses.{RunStatus}
use tacorank.Ledger.{Legal, Grows}
use tacorank.Ledger.Progress.{project-Legal}
use tacorank.Ledger.Budgets.{Within, project-Within}
use tacorank.Ledger.Best.{NotWorse, project-NotWorse, project-FinalIsBest}
use tacorank.Ledger.Lifecycle.{◌⟶*◌, project-⟶*}
use tacorank.Ledger.Queries.{numbered, public_index, project-numbered}
use tacorank.Ledger.Replay.{
  validate_transitions, replay, validate_transitions-Legal_iff, validate_transitions-Grows,
  check_at, replay-check_at,
}

abbrev state_of : Result RunState → RunState
state_of (ok s) = s
state_of (err _) = initial_state

abbrev pub ready_state : RunState
ready_state = state_of (project ready_run)

abbrev best_state : RunState
best_state = state_of (project best_run)

abbrev selected_state : RunState
selected_state = state_of (project selected_run)

abbrev whole_state : RunState
whole_state = state_of (project whole_run)

pub record RunIsValid : Type 0 where
  ready_valid : validate_transitions [] ready_run ≡ ok tt
  best_valid : validate_transitions ready_run best_rest ≡ ok tt
  best_begins : validate_transitions [] best_run ≡ ok tt
  selected_valid : validate_transitions [] selected_run ≡ ok tt
  whole_valid : validate_transitions [] whole_run ≡ ok tt
  pub ready_projects : project ready_run ≡ ok ready_state
  best_projects : project best_run ≡ ok best_state
  selected_projects : project selected_run ≡ ok selected_state
  whole_projects : project whole_run ≡ ok whole_state
  selected_finalizing : selected_state.status ≡ RunStatus.finalizing
  whole_finalized : whole_state.status ≡ RunStatus.finalized

pub run_is_valid : RunIsValid
unfolding validate_transitions set contains values any last? find_first find_last
    aggregate_resources initial_state check_execution_started check_execution_finished
    check_output_checked check_payload validate_transition check_patch_created check_patch_checked
    as_contract_verified as_baseline_verified as_context_created as_experiment_proposed
    as_patch_created as_patch_checked as_execution_started as_execution_finished as_output_checked
    as_evaluation_completed as_experiment_decided mentions occurs last_for_experiment
    check_contract_verified check_baseline_verified check_context_created check_experiment_proposed
    check_experiment_decided check_best_updated retrying_initial_coder evaluation_request
    check_run_stopped check_final_selected check_recovery_decided check_evaluation_completed
    on_experiment_decided dispatch observe step run_events initial_projection conclude project
    on_run_started on_baseline_verified on_best_updated on_run_stopped on_final_selected
    on_submission_checked on_experiment_proposed on_patch_created on_patch_checked
    on_execution_started on_execution_finished on_output_checked on_evaluation_completed
    on_recovery_decided
run_is_valid = record {
  ready_valid = refl;
  best_valid = refl;
  best_begins = refl;
  selected_valid = refl;
  whole_valid = refl;
  ready_projects = refl;
  best_projects = refl;
  selected_projects = refl;
  whole_projects = refl;
  selected_finalizing = refl;
  whole_finalized = refl;
}

best_run-Legal : Legal best_run
best_run-Legal = (validate_transitions-Legal_iff best_run).0 run_is_valid.best_begins

selected_run-Legal : Legal selected_run
selected_run-Legal = (validate_transitions-Legal_iff selected_run).0 run_is_valid.selected_valid

best_run-Grows : Grows ready_run best_run
best_run-Grows =
    validate_transitions-Grows ready_run ready_run best_rest Grows.here run_is_valid.best_valid

pub ready_run-Legal : Legal ready_run
ready_run-Legal = (validate_transitions-Legal_iff ready_run).0 run_is_valid.ready_valid

ready_run-begun : ready_run ≢ []
ready_run-begun h = cc

project-Legal_example : (s : RunState) × (project best_run ≡ ok s)
project-Legal_example = project-Legal best_run best_run-Legal

project-Within_example : Within best_state
project-Within_example =
    project-Within best_run best_state best_run-Legal run_is_valid.best_projects

project-NotWorse_example : NotWorse ready_state.best_primary_score best_state.best_primary_score
project-NotWorse_example =
    project-NotWorse ready_run best_run ready_state best_state ready_run-begun best_run-Grows
      run_is_valid.ready_projects run_is_valid.best_projects

project-FinalIsBest_example :
    (selected_state.final_experiment_id ≢ none)
    × (selected_state.final_experiment_id ≡ selected_state.best_experiment_id)
project-FinalIsBest_example =
    project-FinalIsBest selected_run selected_state selected_run-Legal
      run_is_valid.selected_projects (inl run_is_valid.selected_finalizing)

project-⟶*_example : ready_state.status ⟶* best_state.status
project-⟶*_example =
    project-⟶* ready_run best_run ready_state best_state ready_run-begun best_run-Grows
      run_is_valid.ready_projects run_is_valid.best_projects

project-numbered_example :
    views public_index selected_run ≡ numbered selected_state.public_validation_queries
project-numbered_example =
    project-numbered selected_run selected_state selected_run-Legal run_is_valid.selected_projects

replay-check_at_example :
    (((s : RunState) × (replay whole_run ≡ ok s)) ↔ ((n : ℕ) → check_at whole_run n ≡ ok tt))
    × ((s : RunState)
        → (replay whole_run ≡ ok s)
          ↔ (((n : ℕ) → check_at whole_run n ≡ ok tt) × (project whole_run ≡ ok s)))
replay-check_at_example = replay-check_at whole_run
